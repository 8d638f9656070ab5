-- ===== src/Repository.antt =====
-- `RunRepository` of packages/ac-jobs/src/ac_jobs/engine.py: the immutable spec of a run, its
-- creation, inspection and stop requests.
pub mod Directory
mod Spec
unfoldable pub use Spec.{spec_document}
pub mod Stops
pub mod StopEffects
pub mod Creation
use ac_foundation.Repository.Directory.{
  Action, Environment, gets, lift, modify, pure, ◌>>=◌, ◌>>◌, RunDirectory, emit, raise, swap,
  update_stop, with_lease, create_snapshot,
}
use ac_foundation.Json.{Fields, end, field, get, int, obj, pos, require_fields, str}
use ac_foundation.Storage.{JsonFile, holding, exists, read_json_object}
use ac_foundation.Prelude.{
  List, Option, String, [], false, if◌then◌else◌, none, not, some, ◌+◌, ◌||◌, ◌∷◌, is_none, ◌&&◌,
  ◌==◌,
}
use ac_foundation.Errors.{
  Result, corrupt_state, err, idempotency_conflict, ok, raise_if, unsupported_schema, run_busy,
  stopped,
}
use ac_foundation.Models.{
  RunSnapshot, RunSpec, RunView, StopRequest, execution_stopped, is_status, is_terminal, paused,
  pending, running, status_value, Awaiting,
}
use ac_foundation.Text.{append_text, decimal, take_text}
use ac_foundation.Snapshot.Store.{create_file, read}
use ac_foundation.Snapshot.Codec.{is_text, object, text}
use ac_foundation.Json.Equality.{json_eq}
use ac_foundation.Stopping.{read_stop, request_stop_file}
use ac_foundation.Identity.{validate_simple_id}

abbrev spec_fields : List String
spec_fields =
    "schema_version" ∷ "run_id" ∷ "handler" ∷ "semantic_input" ∷ "semantic_key_schema"
    ∷ "semantic_key_sha256" ∷ []

-- `RunRepository.read_spec`
unfoldable pub read_spec : Environment → String → Action RunSpec
unfolding spec_document
read_spec env run_id = do
  file ← gets (λ d. d.spec_file)
  fs ← lift (read_json_object file)
  lift (require_fields fs spec_fields [])
  lift (raise_if (not (is_text "ac.jobs.run_spec.v1" (get "schema_version" fs))) unsupported_schema)
  lift (raise_if (not (is_text run_id (get "run_id" fs))) corrupt_state)
  handler ← lift (text (get "handler" fs))
  semantic_input ← lift (object (get "semantic_input" fs))
  let spec : RunSpec = record {
    run_id = run_id;
    handler = handler;
    semantic_input = semantic_input;
  }
  expected ← lift (spec_document env spec)
  lift (raise_if (not (json_eq (obj expected) (obj fs))) corrupt_state)
  pure spec

-- `spec.json` in `RunRepository.create`: a second creation must mean the same run.
settle_spec : Environment → RunSpec → Fields → Action (Unit {0})
settle_spec env spec expected = do
  d ← gets (λ d. d)
  if exists d.spec_file
      then (do
        existing ← read_spec env spec.run_id
        existing_document ← lift (spec_document env existing)
        lift (raise_if (not (json_eq (obj existing_document) (obj expected))) idempotency_conflict))
      else (do
        lift (raise_if (exists d.snapshot_file) corrupt_state)
        modify (λ d. record d { spec_file = holding expected }))

-- A new run: `RunSnapshot(spec.run_id, 0, RunStatus.PENDING, 0, now, now)`.
abbrev pub initial_snapshot : String → String → RunSnapshot
initial_snapshot run_id now = record {
  run_id = run_id;
  revision = 0;
  status = pending;
  attempt = 0;
  created_at = now;
  updated_at = now;
  awaiting = none;
  result_ref = none;
  error = none;
  interrupted = false;
  recovery_epoch = 0;
}

settle_snapshot : Environment → RunSpec → Action RunSnapshot
settle_snapshot env spec = do
  file ← gets (λ d. d.snapshot_file)
  if exists file
      then lift (read file)
      else create_snapshot (initial_snapshot spec.run_id (env.utc_now 0))

-- `RunRepository.create`, without the working tree that `materialize` lays out.
unfoldable pub create : Environment → RunSpec → Action RunSnapshot
unfolding settle_spec settle_snapshot
create env spec = do
  _ ← lift (validate_simple_id spec.run_id)
  expected ← lift (spec_document env spec)
  settle_spec env spec expected
  settle_snapshot env spec

-- `RunRepository.inspect`
unfoldable pub inspect : Action RunView
inspect = do
  file ← gets (λ d. d.snapshot_file)
  snapshot ← lift (read file)
  files ← gets (λ d. d.stop_files)
  stop ← lift (
      if is_terminal snapshot.status
      then ok none
      else read_stop (files snapshot.attempt) snapshot.attempt)
  pure (record { snapshot = snapshot; stop_request = stop })

-- `request.requested_at[:64]` and `request.reason[:300]` in `_stop_details`
abbrev reason_details : Option String → Fields
reason_details none = end
reason_details (some t) = field "reason" (str (take_text 300 t)) end

abbrev request_details : Option StopRequest → Fields
request_details none = end
request_details (some q) =
    field "requested_at" (str (take_text 64 q.requested_at)) (reason_details q.reason)

-- `_stop_details`
unfoldable pub stop_details : RunSnapshot → Option StopRequest → Fields
stop_details s request =
    field "code" (str "attempt_stop_requested")
      (field "attempt" (int (pos s.attempt)) (request_details request))

abbrev pub stop_awaiting : RunSnapshot → Option StopRequest → Awaiting
stop_awaiting s request = record {
  reason = execution_stopped;
  resume_key = append_text "stopped-" (decimal s.attempt);
  input_required = false;
  request_ref = none;
  response_contract = none;
  details = stop_details s request;
}

-- `_stopped_snapshot`
unfoldable pub stopped_snapshot : RunSnapshot → String → Option StopRequest → RunSnapshot
stopped_snapshot s now request = record s {
  revision = s.revision + 1;
  status = paused;
  updated_at = now;
  awaiting = some (stop_awaiting s request);
  interrupted = is_status s.status running || s.interrupted;
}

-- The event body `{"status": ..., "attempt": ...}`.
abbrev pub status_body : RunSnapshot → Fields
status_body s =
    field "status" (str (status_value s.status)) (field "attempt" (int (pos s.attempt)) end)

-- The first request of an attempt that is still live is announced.
announce : RunSnapshot → RunSnapshot → Option StopRequest → StopRequest → Action (Unit {0})
announce s current existing request =
    let accepted = current.attempt == s.attempt && not (is_terminal current.status) in
    if is_none existing && accepted
    then emit "attempt_stop_requested" (stop_details s (some request))
    else pure tt

-- `persist` in `RunRepository.request_stop`
persist : Environment → Option String → RunSnapshot → Action StopRequest
unfolding announce
persist env reason s = do
  files ← gets (λ d. d.stop_files)
  existing ← lift (read_stop (files s.attempt) s.attempt)
  written ← lift (request_stop_file (files s.attempt) s.attempt (env.utc_now 0) reason)
  modify (λ d. record d { stop_files = update_stop d.stop_files s.attempt written.0 })
  file ← gets (λ d. d.snapshot_file)
  current ← lift (read file)
  announce s current existing written.1
  pure written.1

read_snapshot : Action RunSnapshot
read_snapshot = do file ← gets (λ d. d.snapshot_file); lift (read file)

-- The pending run, under its lease.
stop_pending : Environment → Option String → Action RunView
unfolding persist read_snapshot
stop_pending env reason = do
  s ← read_snapshot
  if is_terminal s.status
      then inspect
      else if is_status s.status paused
      then (do _ ← persist env reason s; inspect)
      else (do
        request ← persist env reason s
        let stopped = stopped_snapshot s (env.utc_now 1) (some request)
        emit "run_paused" (status_body stopped)
        _ ← swap s.revision stopped
        inspect)

-- The pending run whose lease another process holds, after the wait for that process.
stop_busy : Environment → Option String → Action RunView
unfolding persist read_snapshot
stop_busy env reason = do
  current ← read_snapshot
  if is_status current.status pending
      then raise run_busy
      else if is_terminal current.status
      then inspect
      else (do _ ← persist env reason current; inspect)

-- The run that was pending: the call is serialized with an executor by the lease.
stop_unstarted : Environment → (RunDirectory → RunDirectory) → Option String → Action RunView
unfolding stop_pending stop_busy
stop_unstarted env meanwhile reason = do
  held ← gets (λ d. d.lease_held)
  if held then (do modify meanwhile; stop_busy env reason) else with_lease (stop_pending env reason)

-- `RunRepository.request_stop`. `meanwhile` is what other processes do to the directory while the
-- call waits for the holder of the lease.
unfoldable pub request_stop :
    Environment → (RunDirectory → RunDirectory) → Option String → Action RunView
unfolding stop_unstarted
request_stop env meanwhile reason = do
  s ← read_snapshot
  if is_terminal s.status
      then inspect
      else if is_status s.status paused || is_status s.status running
      then (do _ ← persist env reason s; inspect)
      else stop_unstarted env meanwhile reason
