-- ===== src/Engine.antt =====
-- `RunEngine` of packages/ac-jobs/src/ac_jobs/engine.py: one execution attempt of a durable run,
-- from the lease to the record of its end.
mod Inputs
mod Outcomes
unfoldable pub use Inputs.{
  has_key, resume_document, bind_input, persist_resume_input, replayed_key, key_text,
  validate_replayed,
}
unfoldable pub use Outcomes.{
  checkpoint, verify_optional, succeeded_snapshot, paused_snapshot, failed_snapshot,
  outcome_snapshot, attempt_body, error_text, unhandled_error, handle_exception, catch, event_name,
  finish_attempt,
}
pub use Outcomes.{RunContext, RunHandler}
pub mod Executions
pub mod Records
pub mod Persistence
pub mod Operations
pub mod Endings
pub mod Progress
pub mod Attempts
pub mod Blocked
use ac_foundation.Repository.Directory.{
  Action, Environment, emit, gets, lift, modify, pure, raise, swap, with_lease, ◌>>=◌, ◌>>◌,
}
use ac_foundation.Models.{
  Awaiting, RunSnapshot, RunSpec, StopRequest, execution_interrupted, failed, is_status,
  is_terminal, paused, running, succeeded,
}
use ac_foundation.Prelude.{
  Bool, List, Option, String, [], false, if◌then◌else◌, is_some, none, not, some, str_eq, true,
  ◌&&◌, ◌+◌, ◌||◌, ◌∷◌,
}
use ac_foundation.Json.{Fields, end, field, int, pos, str}
use ac_foundation.Errors.{assertion_error, raise_if, resume_mismatch}
use ac_foundation.Text.{append_text, decimal}
use ac_foundation.Repository.{create, read_spec, status_body, stopped_snapshot}
use ac_foundation.Storage.{holding}
use ac_foundation.Stopping.{read_stop}
use ac_foundation.Snapshot.Store.{read}

-- The record that follows an orphaned RUNNING attempt.
interrupted_snapshot : RunSnapshot → String → RunSnapshot
interrupted_snapshot s now = record s {
  revision = s.revision + 1;
  status = paused;
  updated_at = now;
  awaiting = some (record {
    reason = execution_interrupted;
    resume_key = append_text "interrupted-" (decimal s.attempt);
    input_required = false;
    request_ref = none;
    response_contract = none;
    details = field "code" (str "orphaned_running_attempt") end;
  });
  interrupted = true;
}

-- `running` in `_run`: the record with which a new attempt begins.
unfoldable pub running_snapshot : RunSnapshot → String → RunSnapshot
running_snapshot s now = record s {
  revision = s.revision + 1;
  status = running;
  attempt = s.attempt + 1;
  updated_at = now;
  awaiting = none;
  result_ref = none;
  error = none;
  recovery_epoch = if is_status s.status failed then s.recovery_epoch + 1 else s.recovery_epoch;
}

pub lease_document : Environment → RunSnapshot → Fields
lease_document env s = field "schema_version" (str "ac.jobs.lease.v1") (
    field "attempt" (int (pos s.attempt)) (
      field "acquired_at" (str (env.utc_now 2)) (
        field "pid" (int (pos env.pid)) (
          field "process_start_identity" (str env.process_start_identity)
            (field "hostname" (str env.hostname) end)))))

emit_warnings : List Fields → Action (Unit {0})
emit_warnings [] = pure tt
emit_warnings (w ∷ ws) = do emit "run_warning" w; emit_warnings ws

abbrev or_spec : Option Fields → RunSpec → Fields
or_spec none spec = spec.semantic_input
or_spec (some input) spec = input

-- From the admitted resume input on: the RUNNING record, lease.json, the context and the handler.
unfoldable pub start_attempt :
    Environment
    → RunHandler
    → RunSnapshot
    → Option Fields × List Fields
    → Option Fields
    → Action RunSnapshot
unfolding emit_warnings lease_document
start_attempt env handler s recovery resume_input = do
  begun ← swap s.revision (running_snapshot s (env.utc_now 1))
  modify (λ d. record d { lease_file = holding (lease_document env begun) })
  spec ← read_spec env begun.run_id
  emit_warnings recovery.1
  let context : RunContext = record {
    run_id = begun.run_id;
    attempt = begun.attempt;
    recovery_epoch = begun.recovery_epoch;
    spec = spec;
    semantic_input = or_spec recovery.0 spec;
    resume_input = resume_input;
  }
  finish_attempt env handler context begun

-- The `if snapshot.status is RunStatus.RUNNING` of `_run`.
settle_orphan : Environment → RunSnapshot → Action RunSnapshot
unfolding interrupted_snapshot
settle_orphan env s =
    if is_status s.status running
    then (do
      emit "run_interrupted" (
          field "attempt" (int (pos s.attempt)) (field "code" (str "orphaned_running_attempt") end))
      swap s.revision (interrupted_snapshot s (env.utc_now 0)))
    else pure s

admit_awaiting : Environment → Option Awaiting → Option Fields → Action (Option Fields)
admit_awaiting env none input = raise assertion_error
admit_awaiting env (some awaiting) input = persist_resume_input env awaiting input

-- Only a paused run takes a resume input.
admit_input : Environment → RunSnapshot → Option Fields → Action (Option Fields)
unfolding admit_awaiting
admit_input env s input =
    if is_status s.status paused
    then admit_awaiting env s.awaiting input
    else if is_some input
    then raise resume_mismatch
    else pure none

-- `prepare_recovery` of a failed run: the edited semantic input and the warnings.
unfoldable pub prepare : Environment → RunSnapshot → Action (Option Fields × List Fields)
prepare env s =
    if is_status s.status failed
    then (do
      spec ← read_spec env s.run_id
      d ← gets (λ d. d)
      prepared ← lift (env.prepare_recovery spec (s.recovery_epoch + 1) d)
      pure (some prepared.0, prepared.1))
    else pure (none, [])

stop_request_of : RunSnapshot → Action (Option StopRequest)
stop_request_of s = do
  files ← gets (λ d. d.stop_files)
  lift (read_stop (files s.attempt) s.attempt)

-- A stop request that stands against a run that is not paused pauses it before any new attempt.
stop_or_start :
    Environment
    → RunHandler
    → RunSnapshot
    → Option Fields
    → Option Fields × List Fields
    → Option StopRequest
    → Action RunSnapshot
unfolding settle_orphan admit_input
stop_or_start env handler s input recovery request =
    if not (is_status s.status paused) && is_some request
    then (do
      let halted = stopped_snapshot s (env.utc_now 0) request
      emit "run_paused" (status_body halted)
      swap s.revision halted)
    else (do
      settled ← settle_orphan env s
      admitted ← admit_input env settled input
      start_attempt env handler settled recovery admitted)

-- The body of `_run` under the lease.
pub run_locked : Environment → RunHandler → Option Fields → Bool → Action RunSnapshot
unfolding prepare stop_request_of stop_or_start
run_locked env handler input allow_failed = do
  file ← gets (λ d. d.snapshot_file)
  s ← lift (read file)
  if is_status s.status succeeded || (is_status s.status failed && not allow_failed)
      then (do validate_replayed env input; pure s)
      else (do
        recovery ← prepare env s
        request ← stop_request_of s
        stop_or_start env handler s input recovery request)

-- `RunEngine._run`
unfoldable pub run_attempt : Environment → RunHandler → Option Fields → Bool → Action RunSnapshot
unfolding run_locked with_lease
run_attempt env handler input allow_failed = with_lease (run_locked env handler input allow_failed)

-- `RunEngine.execute`
unfoldable pub execute : Environment → RunSpec → RunHandler → Action RunSnapshot
execute env spec handler = do
  lift (raise_if (not (str_eq handler.name spec.handler)) resume_mismatch)
  s ← create env spec
  if is_terminal s.status then pure s else run_attempt env handler none false

-- `RunEngine.resume`
unfoldable pub resume : Environment → String → RunHandler → Option Fields → Action RunSnapshot
resume env run_id handler input = do
  spec ← read_spec env run_id
  lift (raise_if (not (str_eq handler.name spec.handler)) resume_mismatch)
  run_attempt env handler input true
