-- ===== src/Snapshot/Codec.antt =====
-- `_SnapshotStore._encode` and `_decode`, with `_awaiting_json`, `_decode_awaiting`, `_ref_json` and
-- `_decode_ref`, of packages/ac-jobs/src/ac_jobs/engine.py.
pub mod RoundTrip
use ac_foundation.Models.{
  ArtifactRef, Awaiting, RunError, RunSnapshot, reason_of, reason_value, status_of, status_value,
}
use ac_foundation.Prelude.{
  Bool, List, Option, String, [], false, if◌then◌else◌, none, not, some, str_eq, true, ℕ, ◌&&◌, ◌∷◌,
}
use ac_foundation.Json.{
  Fields, JsonValue, bool, end, field, get, int, null, obj, pos, require_fields, str,
}
use ac_foundation.Errors.{
  Result, corrupt_state, err, ok, raise_if, type_error, unsupported_schema, value_error, ◌>>=◌,
  ◌>>◌,
}
use ac_foundation.Artifacts.{decode_artifact_ref, encode_artifact_ref}
use ac_foundation.Snapshot.{validate, validate_awaiting}

-- A ValueError of the artifact codec is reported as corruption.
abbrev pub corrupt_value {ℓ} : {A : Type ℓ} → Result A → Result A
corrupt_value (ok a) = ok a
corrupt_value (err value_error) = err corrupt_state
corrupt_value (err e) = err e

-- `_ref_json`
unfoldable pub ref_json : Option ArtifactRef → Result JsonValue
ref_json none = ok null
ref_json (some r) = do fs ← encode_artifact_ref r; ok (obj fs)

-- `_decode_ref`
unfoldable pub decode_ref : JsonValue → Result (Option ArtifactRef)
decode_ref null = ok none
decode_ref v = corrupt_value (do r ← decode_artifact_ref v; ok (some r))

abbrev pub optional_text : Option String → JsonValue
optional_text none = null
optional_text (some t) = str t

abbrev pub awaiting_document : Awaiting → JsonValue → Fields
awaiting_document a request_ref = field "reason" (str (reason_value a.reason)) (
    field "resume_key" (str a.resume_key) (
      field "input_required" (bool a.input_required) (
        field "request_ref" request_ref (
          field "response_contract" (optional_text a.response_contract)
            (field "details" (obj a.details) end)))))

-- `_awaiting_json`
unfoldable pub awaiting_json : Option Awaiting → Result JsonValue
awaiting_json none = ok null
awaiting_json (some a) = do
  request_ref ← ref_json a.request_ref
  ok (obj (awaiting_document a request_ref))

-- The type tests of the decoders: a value of another type is corrupt.
abbrev pub text : JsonValue → Result String
text (str t) = ok t
text _ = err corrupt_state

abbrev pub flag : JsonValue → Result Bool
flag (bool b) = ok b
flag _ = err corrupt_state

-- an int that is no bool and is not negative
abbrev pub natural : JsonValue → Result ℕ
natural (int (pos n)) = ok n
natural _ = err corrupt_state

abbrev pub object : JsonValue → Result Fields
object (obj fs) = ok fs
object _ = err corrupt_state

-- a text or None
abbrev pub nullable_text : JsonValue → Result (Option String)
nullable_text null = ok none
nullable_text (str t) = ok (some t)
nullable_text _ = err corrupt_state

abbrev pub known {ℓ} : {A : Type ℓ} → Option A → Result A
known none = err corrupt_state
known (some a) = ok a

abbrev awaiting_fields : List String
awaiting_fields =
    "reason" ∷ "resume_key" ∷ "input_required" ∷ "request_ref" ∷ "response_contract" ∷ "details"
    ∷ []

-- `_decode_awaiting`, on an object
decode_awaiting_fields : Fields → Result Awaiting
decode_awaiting_fields fs = do
  require_fields fs awaiting_fields []
  reason_text ← text (get "reason" fs)
  reason ← known (reason_of reason_text)
  resume_key ← text (get "resume_key" fs)
  input_required ← flag (get "input_required" fs)
  response_contract ← nullable_text (get "response_contract" fs)
  details ← object (get "details" fs)
  request_ref ← decode_ref (get "request_ref" fs)
  let awaiting : Awaiting = record {
    reason = reason;
    resume_key = resume_key;
    input_required = input_required;
    request_ref = request_ref;
    response_contract = response_contract;
    details = details;
  }
  validate_awaiting awaiting
  ok awaiting

-- `_decode_awaiting`
unfoldable pub decode_awaiting : JsonValue → Result (Option Awaiting)
unfolding decode_awaiting_fields
decode_awaiting null = ok none
decode_awaiting (obj fs) = do a ← decode_awaiting_fields fs; ok (some a)
decode_awaiting _ = err corrupt_state

-- `dict(value)`: a validated run error has an object here.
abbrev dict_of : JsonValue → Result Fields
dict_of (obj fs) = ok fs
dict_of _ = err type_error

-- The "error" member of `_encode`.
unfoldable pub error_json : Option RunError → Result JsonValue
error_json none = ok null
error_json (some e) = do
  details ← dict_of e.details
  ok (obj (field "code" e.code (field "message" e.message (field "details" (obj details) end))))

abbrev error_fields : List String
error_fields = "code" ∷ "message" ∷ "details" ∷ []

-- The "error" member of `_decode`: the types are tested by `_validate`.
unfoldable pub decode_error : JsonValue → Result (Option RunError)
decode_error null = ok none
decode_error (obj fs) = do
  require_fields fs error_fields []
  ok (
      some
        (record { code = get "code" fs; message = get "message" fs; details = get "details" fs }))
decode_error _ = err corrupt_state

-- The members of a snapshot document.
abbrev pub snapshot_document : RunSnapshot → JsonValue → JsonValue → JsonValue → Fields
snapshot_document s awaiting result_ref error =
    field "schema_version" (str "ac.jobs.run_snapshot.v3") (
      field "run_id" (str s.run_id) (
        field "revision" (int (pos s.revision)) (
          field "status" (str (status_value s.status)) (
            field "attempt" (int (pos s.attempt)) (
              field "created_at" (str s.created_at) (
                field "updated_at" (str s.updated_at) (
                  field "awaiting" awaiting (
                    field "result_ref" result_ref (
                      field "error" error (
                        field "interrupted" (bool s.interrupted)
                          (field "recovery_epoch" (int (pos s.recovery_epoch)) end)))))))))))

-- `_SnapshotStore._encode`
unfoldable pub encode : RunSnapshot → Result Fields
encode s = do
  awaiting ← awaiting_json s.awaiting
  result_ref ← ref_json s.result_ref
  error ← error_json s.error
  ok (snapshot_document s awaiting result_ref error)

abbrev snapshot_fields : List String
snapshot_fields =
    "schema_version" ∷ "run_id" ∷ "revision" ∷ "status" ∷ "attempt" ∷ "created_at" ∷ "updated_at"
    ∷ "awaiting" ∷ "result_ref" ∷ "error" ∷ "interrupted" ∷ []

abbrev pub is_text : String → JsonValue → Bool
is_text t (str s) = str_eq s t
is_text t _ = false

abbrev is_null : JsonValue → Bool
is_null null = true
is_null _ = false

-- The schema tests at the head of `_decode`: whether the document is of the third version.
pub decode_schema : Fields → Result Bool
decode_schema document = do
  let schema_version = get "schema_version" document
  if is_null schema_version then require_fields document snapshot_fields [] else ok tt
  let v3 = is_text "ac.jobs.run_snapshot.v3" schema_version
  raise_if (not v3 && not (is_text "ac.jobs.run_snapshot.v2" schema_version)) unsupported_schema
  require_fields document (if v3 then "recovery_epoch" ∷ snapshot_fields else snapshot_fields) []
  ok v3

-- `_SnapshotStore._decode`
unfoldable pub decode : Fields → Result RunSnapshot
unfolding decode_schema
decode document = do
  v3 ← decode_schema document
  status_text ← text (get "status" document)
  status ← known (status_of status_text)
  run_id ← text (get "run_id" document)
  revision ← natural (get "revision" document)
  attempt ← natural (get "attempt" document)
  created_at ← text (get "created_at" document)
  updated_at ← text (get "updated_at" document)
  interrupted ← flag (get "interrupted" document)
  recovery_epoch ← natural (if v3 then get "recovery_epoch" document else int (pos 0))
  error ← decode_error (get "error" document)
  awaiting ← decode_awaiting (get "awaiting" document)
  result_ref ← decode_ref (get "result_ref" document)
  let snapshot : RunSnapshot = record {
    run_id = run_id;
    revision = revision;
    status = status;
    attempt = attempt;
    created_at = created_at;
    updated_at = updated_at;
    awaiting = awaiting;
    result_ref = result_ref;
    error = error;
    interrupted = interrupted;
    recovery_epoch = recovery_epoch;
  }
  validate none snapshot true
  ok snapshot
