-- ===== src/Groups.antt =====
-- The units of a work group (packages/ac-jobs/src/ac_jobs/groups.py): one file for each finished
-- unit, which a later run of the group replays.
pub mod Replay
pub mod RoundTrip
pub mod Schedule
use ac_foundation.Models.{ArtifactRef, Awaiting, RunError}
use ac_foundation.Prelude.{
  Bool, List, Option, String, [], false, if◌then◌else◌, none, not, some, str_eq, true, ◌&&◌, ◌||◌,
  ◌∷◌,
}
use ac_foundation.Json.{Fields, JsonValue, end, field, get, null, obj, require_fields, str}
use ac_foundation.Errors.{
  JobsError, Result, base_exception, corrupt_state, err, ok, raise_if, resume_mismatch, stopped,
  unsupported_schema, value_error, ◌>>=◌, ◌>>◌,
}
use ac_foundation.Storage.{JsonFile, absent, holding, read_json_object}
use ac_foundation.Artifacts.{encode_artifact_ref}
use ac_foundation.Snapshot.Codec.{error_json, is_text, object, text}

pub record WorkUnit : Type 0 where
  pub unit_id : String
  pub semantic_input : JsonValue

pub record UnitResult : Type 0 where
  pub unit_id : String
  pub status : String
  pub value : JsonValue
  pub error : Option RunError
  pub replayed : Bool

-- What a worker returns.
pub data WorkerValue : Type 0 where
  pausing : Awaiting → WorkerValue
  reporting : UnitResult → WorkerValue
  artifact_value : ArtifactRef → WorkerValue
  json_value : JsonValue → WorkerValue

-- What `invoke` returns.
pub data Outcome : Type 0 where
  unit_paused : Awaiting → Outcome
  unit_finished : UnitResult → Outcome

abbrev unit_fields : List String
unit_fields =
    "schema_version" ∷ "unit_id" ∷ "semantic_key_sha256" ∷ "status" ∷ "value" ∷ "error" ∷ []

-- `status in {"succeeded", "failed"}`
abbrev pub is_unit_status : String → Bool
is_unit_status status = str_eq status "succeeded" || str_eq status "failed"

-- The "error" member of a unit document.
unfoldable pub unit_error : JsonValue → Result (Option RunError)
unit_error null = ok none
unit_error (obj fs) = do
  require_fields fs ("code" ∷ "message" ∷ "details" ∷ []) []
  code ← text (get "code" fs)
  message ← text (get "message" fs)
  details ← object (get "details" fs)
  ok (some (record { code = str code; message = str message; details = obj details }))
unit_error _ = err corrupt_state

-- `_unit_result`
unfoldable pub unit_result : Fields → String → String → Bool → Result UnitResult
unit_result fs expected_unit_id expected_semantic_key replayed = do
  require_fields fs unit_fields []
  raise_if (not (is_text "ac.jobs.group_unit.v2" (get "schema_version" fs))) unsupported_schema
  raise_if
      (not (is_text expected_unit_id (get "unit_id" fs))
        || not (is_text expected_semantic_key (get "semantic_key_sha256" fs)))
      corrupt_state
  status ← text (get "status" fs)
  raise_if (not (is_unit_status status)) corrupt_state
  error ← unit_error (get "error" fs)
  ok (record {
    unit_id = expected_unit_id;
    status = status;
    value = get "value" fs;
    error = error;
    replayed = replayed;
  })

-- The document that `invoke` writes.
abbrev pub unit_document : String → String → UnitResult → JsonValue → Fields
unit_document unit_id semantic_key result error =
    field "schema_version" (str "ac.jobs.group_unit.v2") (
      field "unit_id" (str unit_id) (
        field "semantic_key_sha256" (str semantic_key) (
          field "status" (str result.status)
            (field "value" result.value (field "error" error end)))))

-- A replay document is taken over when the unit succeeded there with the same semantic input.
abbrev pub is_replayable : String → Fields → Bool
is_replayable semantic_key fs =
    is_text semantic_key (get "semantic_key_sha256" fs) && is_text "succeeded" (get "status" fs)

-- The loop over the replay directories: only the first that has a file of the unit is looked at.
-- `files` are that file in each of them.
unfoldable pub replay : String → List JsonFile → Result (Option Fields)
replay semantic_key [] = ok none
replay semantic_key (absent ∷ files) = replay semantic_key files
replay semantic_key (file ∷ files) = do
  fs ← read_json_object file
  ok (if is_replayable semantic_key fs then some fs else none)

abbrev or_own : JsonFile → Option Fields → JsonFile
or_own file none = file
or_own file (some fs) = holding fs

replayed_result : String → String → JsonFile → Result (Option UnitResult)
replayed_result unit_id semantic_key absent = ok none
replayed_result unit_id semantic_key file = do
  fs ← read_json_object file
  raise_if (not (is_text semantic_key (get "semantic_key_sha256" fs))) resume_mismatch
  result ← unit_result fs unit_id semantic_key true
  ok (some result)

-- The body of `for unit in units` in `run`: the unit's file afterwards and its replayed result;
-- without one the unit is pending.
unfoldable pub load_unit :
    String → String → List JsonFile → JsonFile → Result (JsonFile × Option UnitResult)
unfolding replayed_result
load_unit unit_id semantic_key replays absent = do
  found ← replay semantic_key replays
  result ← replayed_result unit_id semantic_key (or_own absent found)
  ok (or_own absent found, result)
load_unit unit_id semantic_key replays file = do
  result ← replayed_result unit_id semantic_key file
  ok (file, result)

succeeded_with_value : WorkUnit → JsonValue → UnitResult
succeeded_with_value unit value = record {
  unit_id = unit.unit_id;
  status = "succeeded";
  value = value;
  error = none;
  replayed = false;
}

-- The `try` of `invoke`, after the worker's return.
outcome_of : WorkUnit → WorkerValue → Result Outcome
unfolding succeeded_with_value
outcome_of unit (pausing awaiting) = ok (unit_paused awaiting)
outcome_of unit (reporting result) = do
  raise_if (not (str_eq result.unit_id unit.unit_id)) value_error
  ok (unit_finished (record result { replayed = false }))
outcome_of unit (artifact_value ref) = do
  fs ← encode_artifact_ref ref
  ok (unit_finished (succeeded_with_value unit (obj fs)))
outcome_of unit (json_value value) = ok (unit_finished (succeeded_with_value unit value))

failed_unit : (JobsError → String) → WorkUnit → JobsError → UnitResult
failed_unit describe unit e = record {
  unit_id = unit.unit_id;
  status = "failed";
  value = null;
  error = some (record {
    code = str "worker_unhandled_exception";
    message = str (describe e);
    details = obj end;
  });
  replayed = false;
}

-- The `except` clauses of `invoke`.
caught : (JobsError → String) → WorkUnit → Result Outcome → Result Outcome
unfolding failed_unit
caught describe unit (ok outcome) = ok outcome
caught describe unit (err stopped) = err stopped
caught describe unit (err base_exception) = err base_exception
caught describe unit (err e) = ok (unit_finished (failed_unit describe unit e))

-- The end of `invoke`: the file of a finished unit is written.
unfoldable pub record_unit : WorkUnit → String → Outcome → JsonFile → Result (JsonFile × Outcome)
record_unit unit semantic_key (unit_paused awaiting) file = ok (file, unit_paused awaiting)
record_unit unit semantic_key (unit_finished result) file = do
  raise_if (not (is_unit_status result.status)) value_error
  error ← error_json result.error
  ok (holding (unit_document unit.unit_id semantic_key result error), unit_finished result)

-- `invoke`, on the unit's file and without its event; `stop` is what the stop token says, `worker` what the worker does,
-- `describe` the text of an exception.
unfoldable pub invoke :
    (JobsError → String)
    → WorkUnit
    → String
    → Result (Unit {0})
    → Result WorkerValue
    → JsonFile
    → Result (JsonFile × Outcome)
unfolding outcome_of caught
invoke describe unit semantic_key stop worker file = do
  outcome ← caught describe unit (do stop; value ← worker; outcome_of unit value)
  record_unit unit semantic_key outcome file
