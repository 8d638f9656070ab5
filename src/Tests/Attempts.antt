-- ===== src/Tests/Attempts.antt =====
-- What the theorems on one attempt say of concrete runs.
use ac_foundation.Engine.Endings.{AtWork, ended, finish-raised, finish-stopped}
use ac_foundation.Json.{Fields, end}
use ac_foundation.Engine.Attempts.{IsIdle, released, taken}
use ac_foundation.Errors.{Result, err, foreign, invalid_transition, ok}
use ac_foundation.Engine.{
  RunContext, RunHandler, failed_snapshot, finish_attempt, prepare, run_attempt, unhandled_error,
}
use ac_foundation.Repository.Directory.{RunDirectory}
use ac_foundation.Models.{RunOutcome, RunSnapshot, succeeded_with}
use ac_foundation.Prelude.{[], arith, none, refl, some, true, ◌≡◌, eq_iff}
use ac_foundation.Tests.Fixtures.{
  directory_of, failed_run, file_of, handler_of, run_spec, running_run, stop_at,
  stopped_directory_of, test_env,
}
use ac_foundation.Tests.Reads.{failed_found, no_stop, running_found}
use ac_foundation.Storage.{holding}
use ac_foundation.Snapshot.Store.{read}
use ac_foundation.Repository.{read_spec, spec_document, stopped_snapshot}
use ac_foundation.Stopping.{read_stop, request_document}
use ac_foundation.Engine.Blocked.{run_attempt-halted, run_attempt-stuck, announced}
use ac_foundation.Json.Equality.{json_eq}
use ac_foundation.Identity.{validate_simple_id}

abbrev success : Result RunOutcome
success = ok (succeeded_with none)

working :
    (e : RunDirectory) (r : Result RunOutcome)
    → read e.snapshot_file ≡ ok running_run
    → (c : RunContext)
    → AtWork test_env
        (record { name = "worker"; execute = λ c d. (r, e) })
        c
        running_run
        (directory_of running_run)
        e
        r
working e r found c = record {
  live = refl;
  small = omega arith;
  unstopped = no_stop 1;
  ran = refl;
  in_file = found;
}

abbrev context : RunContext
context = record {
  run_id = "run-1";
  attempt = 1;
  recovery_epoch = 0;
  spec = run_spec;
  semantic_input = end;
  resume_input = none;
}

stop_found : read_stop (holding (request_document (stop_at 1))) 1 ≡ ok (some (stop_at 1))
unfolding read_stop request_document
stop_found = refl

-- The stop request arrives while the handler runs.
abbrev interrupted_handler : RunHandler
interrupted_handler = record {
  name = "worker";
  execute = λ c d. (success, stopped_directory_of running_run);
}

finish-stopped_example :
    let v = stopped_snapshot running_run "2025" (some (stop_at 1)) in
    (fs : Fields) × (finish_attempt test_env interrupted_handler context running_run
        (directory_of running_run)
      ≡ (ok v, ended (stopped_directory_of running_run) v fs))
    × (read (holding fs) ≡ ok v)
finish-stopped_example =
    finish-stopped test_env interrupted_handler context running_run (directory_of running_run)
      (stopped_directory_of running_run) (succeeded_with none) (stop_at 1)
      (working (stopped_directory_of running_run) success running_found context) stop_found

abbrev failure : Result RunOutcome
failure = err (foreign "out of memory")

finish-raised_example :
    let v =
      failed_snapshot running_run "2025" (unhandled_error test_env (foreign "out of memory")) in
    (fs : Fields) × (finish_attempt test_env
        (record { name = "worker"; execute = λ c d. (failure, stopped_directory_of running_run) })
        context
        running_run
        (directory_of running_run)
      ≡ (ok v, ended (stopped_directory_of running_run) v fs))
    × (read (holding fs) ≡ ok v)
finish-raised_example =
    finish-raised test_env
      (record { name = "worker"; execute = λ c d. (failure, stopped_directory_of running_run) })
      context running_run (directory_of running_run) (stopped_directory_of running_run)
      (foreign "out of memory")
      (working (stopped_directory_of running_run) failure running_found context) (λ e. cc) (λ e. cc)
      (λ e. ground (arith, eq_iff "out of memory" "", e))

idle_stopped : (s : RunSnapshot) → read (file_of s) ≡ ok s → IsIdle (stopped_directory_of s) s
idle_stopped s found = record { free = refl; in_file = found }

run_attempt-halted_example :
    let v = stopped_snapshot running_run "2025" (some (stop_at 1)) in
    (fs : Fields) × (run_attempt test_env
        (handler_of success)
        none
        true
        (stopped_directory_of running_run)
      ≡ released (
        ok v,
        record (announced test_env
            (handler_of success)
            running_run
            (stopped_directory_of running_run)
            (idle_stopped running_run running_found)
            (stop_at 1)
            stop_found) { snapshot_file = holding fs },
      ))
    × (read (holding fs) ≡ ok v)
run_attempt-halted_example =
    run_attempt-halted test_env (handler_of success) running_run (stopped_directory_of running_run)
      (idle_stopped running_run running_found) (stop_at 1) stop_found none true refl (omega arith)

prepared :
    prepare test_env failed_run (taken (stopped_directory_of failed_run))
    ≡ (ok (some end, []), taken (stopped_directory_of failed_run))
unfolding prepare read_spec spec_document validate_simple_id json_eq
prepared = refl

run_attempt-stuck_example :
    run_attempt test_env (handler_of success) none true (stopped_directory_of failed_run)
    ≡ released (
      err invalid_transition,
      announced test_env
          (handler_of success)
          failed_run
          (stopped_directory_of failed_run)
          (idle_stopped failed_run failed_found)
          (stop_at 1)
          stop_found,
    )
run_attempt-stuck_example =
    run_attempt-stuck test_env (handler_of success) failed_run (stopped_directory_of failed_run)
      (idle_stopped failed_run failed_found) (stop_at 1) stop_found none (some end, []) refl
      (omega arith) prepared
