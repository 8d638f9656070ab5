-- ===== src/Snapshot.antt =====
-- `_validate_awaiting`, `_validate_run_error` and `_SnapshotStore` of
-- packages/ac-jobs/src/ac_jobs/engine.py: the durable lifecycle record of a run, its codec and its
-- compare-and-swap. The file is absent, unreadable or a JSON document.
pub mod Codec
pub mod Store
use ac_foundation.Prelude.{
  ℕ, suc, ◌+◌, String, Bool, true, false, ◌&&◌, ◌||◌, not, Option, none, some, ◌==◌, str_eq,
  is_none, is_some, if◌then◌else◌,
}
use ac_foundation.Errors.{
  JobsError, Result, ok, err, corrupt_state, invalid_transition, ◌>>=◌, ◌>>◌, raise_if,
}
use ac_foundation.Json.{JsonValue, str, obj}
use ac_foundation.Identity.{validate_simple_id}
use ac_foundation.Models.{
  RunStatus, pending, running, paused, succeeded, failed, Awaiting, RunError, RunSnapshot,
  is_status,
}

-- `not value` for an optional text
abbrev is_blank : Option String → Bool
is_blank none = true
is_blank (some t) = str_eq t ""

-- `_validate_awaiting`
unfoldable pub validate_awaiting : Awaiting → Result (Unit {0})
validate_awaiting a = do
  _ ← validate_simple_id a.resume_key
  raise_if (a.input_required && (is_none a.request_ref || is_blank a.response_contract))
      invalid_transition
  raise_if (not a.input_required && is_some a.response_contract) invalid_transition

-- `isinstance(value, str) and value`
abbrev is_nonempty_text : JsonValue → Bool
is_nonempty_text (str t) = not (str_eq t "")
is_nonempty_text _ = false

-- `isinstance(value, Mapping)`
abbrev is_object : JsonValue → Bool
is_object (obj fs) = true
is_object _ = false

-- `_validate_run_error`
unfoldable pub validate_run_error : RunError → Bool → Result (Unit {0})
validate_run_error e reading =
    raise_if
      (not (is_nonempty_text e.code)
        || not (is_nonempty_text e.message)
        || not (is_object e.details))
      (if reading then corrupt_state else invalid_transition)

-- The transitions that the table `allowed` of `_SnapshotStore._validate` lists.
abbrev pub is_allowed : RunStatus → RunStatus → Bool
is_allowed pending running = true
is_allowed pending paused = true
is_allowed running succeeded = true
is_allowed running paused = true
is_allowed running failed = true
is_allowed paused running = true
is_allowed failed running = true
is_allowed _ _ = false

awaiting_slot : RunStatus → Option Awaiting → Result (Unit {0})
awaiting_slot paused none = err invalid_transition
awaiting_slot paused (some a) = validate_awaiting a
awaiting_slot _ none = ok tt
awaiting_slot _ (some a) = err invalid_transition

error_slot : Option RunError → Bool → Result (Unit {0})
error_slot none reading = ok tt
error_slot (some e) reading = validate_run_error e reading

-- The first half of `_SnapshotStore._validate`: the record by itself.
unfoldable pub validate_shape : RunSnapshot → Bool → Result (Unit {0})
unfolding awaiting_slot error_slot
validate_shape s reading = do
  _ ← validate_simple_id s.run_id
  awaiting_slot s.status s.awaiting
  raise_if (is_status s.status succeeded && is_some s.error) invalid_transition
  raise_if (not (is_status s.status succeeded) && is_some s.result_ref) invalid_transition
  raise_if (is_status s.status failed && is_none s.error) invalid_transition
  raise_if (not (is_status s.status failed) && is_some s.error) invalid_transition
  error_slot s.error reading

-- The second half: the step from the record before.
unfoldable pub validate_step : RunSnapshot → RunSnapshot → Result (Unit {0})
validate_step previous next = do
  raise_if
      (not (str_eq next.run_id previous.run_id) || not (str_eq next.created_at previous.created_at))
      invalid_transition
  raise_if (not (is_allowed previous.status next.status)) invalid_transition
  let expected_attempt =
      if is_status next.status running then previous.attempt + 1 else previous.attempt
  raise_if (not (next.attempt == expected_attempt)) invalid_transition
  let expected_recovery_epoch =
      if is_status previous.status failed && is_status next.status running
      then previous.recovery_epoch + 1
      else previous.recovery_epoch
  raise_if (not (next.recovery_epoch == expected_recovery_epoch)) invalid_transition

abbrev validate_after : Option RunSnapshot → RunSnapshot → Bool → Result (Unit {0})
validate_after none next reading = ok tt
validate_after (some previous) next reading = if reading then ok tt else validate_step previous next

-- `_SnapshotStore._validate`
unfoldable pub validate : Option RunSnapshot → RunSnapshot → Bool → Result (Unit {0})
validate previous next reading = do
  validate_shape next reading
  validate_after previous next reading
