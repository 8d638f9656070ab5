-- ===== src/Tests/Units.antt =====
-- One unit of a work group.
use ac_foundation.Storage.{JsonFile, absent, holding}
use ac_foundation.Json.{JsonValue, end, null, obj, str}
use ac_foundation.Errors.{Result, err, ok, value_error}
use ac_foundation.Prelude.{String, [], false, none, refl, some, true, ◌∷◌, ◌≡◌, arith}
use ac_foundation.Groups.{
  UnitResult, WorkUnit, invoke, load_unit, replay, unit_document, unit_error, unit_finished,
  unit_result, record_unit,
}
use ac_foundation.Snapshot.Codec.{error_json, text}
use ac_foundation.Groups.RoundTrip.{invoke-load_unit}
use ac_foundation.Engine.Executions.{execution_id}
use ac_foundation.Engine.Executions.Validity.{execution_id-valid}
use ac_foundation.Artifacts.{is_sha256_hex}
use ac_foundation.Identity.{validate_simple_id}
use ac_foundation.Text.{append_text, decimal}

abbrev unit : WorkUnit
unit = record { unit_id = "cell-1"; semantic_input = null }

abbrev key : String
key = "00ff"

abbrev failed_result : UnitResult
failed_result = record {
  unit_id = "cell-1";
  status = "failed";
  value = null;
  error = some (record {
    code = str "worker_unhandled_exception";
    message = str "ValueError: x";
    details = obj end;
  });
  replayed = false;
}

abbrev error_or_null : Result JsonValue → JsonValue
error_or_null (ok v) = v
error_or_null (err e) = null

abbrev failed_file : JsonFile
failed_file =
    holding
      (unit_document "cell-1" key failed_result (error_or_null (error_json failed_result.error)))

-- The worker raises.
invoked :
    invoke (λ e. "ValueError: x") unit key (ok tt) (err value_error) absent
    ≡ ok (failed_file, unit_finished failed_result)
unfolding invoke error_json record_unit
invoked = refl

invoke-load_unit_example :
    load_unit "cell-1" key [] failed_file
    ≡ ok (failed_file, some (record failed_result { replayed = true }))
invoke-load_unit_example =
    invoke-load_unit (λ e. "ValueError: x") unit key (ok tt) (err value_error) absent []
      failed_result invoked refl

abbrev succeeded_result : UnitResult
succeeded_result = record failed_result { status = "succeeded"; error = none; replayed = true }

abbrev succeeded_file : JsonFile
succeeded_file = holding (unit_document "cell-1" key succeeded_result null)

loaded :
    load_unit "cell-1" key (absent ∷ succeeded_file ∷ failed_file ∷ []) absent
    ≡ ok (succeeded_file, some succeeded_result)
unfolding load_unit replay unit_result unit_error
loaded = refl

-- A task of the second recovery epoch.
abbrev same_digest : String → String
same_digest text = "0123456789abcdef0123456789abcdef0123456789abcdef0123456789abcdef"

task_id : execution_id same_digest 2 "task" ≡ ok "recovery-2-task"
unfolding execution_id validate_simple_id append_text decimal
task_id = refl

digest_hex : is_sha256_hex (same_digest "task") ≡ true
unfolding is_sha256_hex
digest_hex = refl

task_valid : validate_simple_id "task" ≡ ok "task"
unfolding validate_simple_id
task_valid = refl

execution_id-valid_example :
    (value : String) × (execution_id same_digest 2 "task" ≡ ok value)
    × (validate_simple_id value ≡ ok value)
execution_id-valid_example =
    execution_id-valid same_digest 2 "task" (omega arith) digest_hex task_valid
