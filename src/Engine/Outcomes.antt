-- ===== src/Engine/Outcomes.antt =====
-- The end of an attempt: from the `try` to the end of `RunEngine._run`
-- (packages/ac-jobs/src/ac_jobs/engine.py).
-- `RunContext`, without the stores that a handler reaches through it.
use ac_foundation.Repository.Directory.{
  Action, Environment, emit, gets, lift, pure, raise, swap, ◌>>=◌, ◌>>◌,
}
use ac_foundation.Models.{
  ArtifactRef, Awaiting, RunError, RunOutcome, RunSnapshot, RunSpec, RunStatus, failed, failed_with,
  no_outcome, paused, paused_on, succeeded, succeeded_with,
}
use ac_foundation.Json.{Fields, end, obj, str}
use ac_foundation.Errors.{JobsError, Result, base_exception, err, foreign, ok, stopped, type_error}
use ac_foundation.Prelude.{Option, String, false, none, some, ℕ, ◌+◌}
use ac_foundation.Stopping.{raise_if_requested, read_stop}
use ac_foundation.Repository.{status_body, stopped_snapshot}
use ac_foundation.Snapshot.{validate_awaiting, validate_run_error}

pub record RunContext : Type 0 where
  pub run_id : String
  pub attempt : ℕ
  pub recovery_epoch : ℕ
  pub spec : RunSpec
  pub semantic_input : Fields
  pub resume_input : Option Fields

-- `RunHandler`: what `execute` does to the directory, or others do meanwhile, is its own affair.
pub record RunHandler : Type 0 where
  pub name : String
  pub execute : RunContext → Action RunOutcome

-- `context.checkpoint()`
unfoldable pub checkpoint : RunSnapshot → Action (Unit {0})
checkpoint s = do
  files ← gets (λ d. d.stop_files)
  lift (raise_if_requested (files s.attempt) s.attempt)

unfoldable pub verify_optional : Environment → Option ArtifactRef → Action (Unit {0})
verify_optional env none = pure tt
verify_optional env (some r) = do d ← gets (λ d. d); lift (env.verify_artifact r d)

unfoldable pub succeeded_snapshot : RunSnapshot → String → Option ArtifactRef → RunSnapshot
succeeded_snapshot s now ref = record s {
  revision = s.revision + 1;
  status = succeeded;
  updated_at = now;
  result_ref = ref;
}

unfoldable pub paused_snapshot : RunSnapshot → String → Awaiting → RunSnapshot
paused_snapshot s now awaiting = record s {
  revision = s.revision + 1;
  status = paused;
  updated_at = now;
  awaiting = some awaiting;
}

unfoldable pub failed_snapshot : RunSnapshot → String → RunError → RunSnapshot
failed_snapshot s now error = record s {
  revision = s.revision + 1;
  status = failed;
  updated_at = now;
  error = some error;
}

-- The record for what the handler returned.
unfoldable pub outcome_snapshot : Environment → RunSnapshot → RunOutcome → Action RunSnapshot
unfolding verify_optional
outcome_snapshot env s (succeeded_with ref) = do
  verify_optional env ref
  pure (succeeded_snapshot s (env.utc_now 3) ref)
outcome_snapshot env s (paused_on awaiting) = do
  lift (validate_awaiting awaiting)
  verify_optional env awaiting.request_ref
  pure (paused_snapshot s (env.utc_now 3) awaiting)
outcome_snapshot env s (failed_with error) = do
  lift (validate_run_error error false)
  pure (failed_snapshot s (env.utc_now 3) error)
outcome_snapshot env s no_outcome = raise type_error

-- The body of the `try` in `_run`.
unfoldable pub attempt_body :
    Environment → RunHandler → RunContext → RunSnapshot → Action RunSnapshot
unfolding checkpoint outcome_snapshot
attempt_body env handler context s = do
  checkpoint s
  outcome ← handler.execute context
  checkpoint s
  outcome_snapshot env s outcome

abbrev pub error_text : Environment → JobsError → String
error_text env (foreign t) = t
error_text env e = env.describe e

unfoldable pub unhandled_error : Environment → JobsError → RunError
unhandled_error env e = record {
  code = str "handler_unhandled_exception";
  message = str (error_text env e);
  details = obj end;
}

-- The two `except` clauses; what they do not catch goes on up.
unfoldable pub handle_exception :
    Environment → RunSnapshot → Result RunSnapshot → Action RunSnapshot
unfolding unhandled_error
handle_exception env s (ok next) = pure next
handle_exception env s (err stopped) = do
  files ← gets (λ d. d.stop_files)
  request ← lift (read_stop (files s.attempt) s.attempt)
  pure (stopped_snapshot s (env.utc_now 3) request)
handle_exception env s (err base_exception) = raise base_exception
handle_exception env s (err e) = pure (failed_snapshot s (env.utc_now 3) (unhandled_error env e))

-- `try`: the result or the exception of an action, as a value.
abbrev pub catch : Action RunSnapshot → Action (Result RunSnapshot)
catch m d = let (r, d') = m d in (ok r, d')

abbrev pub event_name : RunStatus → String
event_name succeeded = "run_terminal"
event_name failed = "run_attempt_failed"
event_name _ = "run_paused"

-- From the `try` to the end of `_run`, without the working tree's error file.
unfoldable pub finish_attempt :
    Environment → RunHandler → RunContext → RunSnapshot → Action RunSnapshot
unfolding attempt_body handle_exception
finish_attempt env handler context s = do
  result ← catch (attempt_body env handler context s)
  next ← handle_exception env s result
  emit (event_name next.status) (status_body next)
  swap s.revision next
