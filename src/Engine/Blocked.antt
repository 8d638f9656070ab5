-- ===== src/Engine/Blocked.antt =====
-- What a stop request that stands before an attempt does (`RunEngine._run` of
-- packages/ac-jobs/src/ac_jobs/engine.py).
use ac_foundation.Prelude.{
  Bool, Option, [], ap, arith, false, some, true, ◌++◌, ◌<◌, ◌^◌, ◌∙◌, ◌∷◌, ◌≡◌, List,
}
use ac_foundation.Repository.Directory.{Environment, RunDirectory, swap}
use ac_foundation.Json.{Fields}
use ac_foundation.Engine.Attempts.{IsIdle, released, taken, idle_locked}
use ac_foundation.Engine.{
  RunHandler, prepare, run_attempt, run_locked, stop_or_start, stop_request_of,
}
use ac_foundation.Models.{RunSnapshot, StopRequest, failed, paused}
use ac_foundation.Snapshot.Codec.RoundTrip.{decode-encode}
use ac_foundation.Errors.{err, invalid_transition, ok}
use ac_foundation.Storage.{holding}
use ac_foundation.Snapshot.{is_allowed, validate, validate_shape, validate_awaiting}
use ac_foundation.Snapshot.Store.{read, compare_and_swap}
use ac_foundation.Snapshot.Store.Laws.{read-holding, read-valid}
use ac_foundation.Stopping.{read_stop}
use ac_foundation.Repository.{status_body, stopped_snapshot}
use ac_foundation.Engine.Records.{stopped-MayFollow, swap_ok, shape-Plain}
use ac_foundation.Text.Keys.{stopped_key_ok}

module _ (env : Environment) (handler : RunHandler) (s : RunSnapshot) (d : RunDirectory)
    (idle : IsIdle d s) (q : StopRequest)
    (stop : read_stop (d.stop_files s.attempt) s.attempt ≡ ok (some q)) where
  abbrev halted : RunSnapshot
  halted = stopped_snapshot s (env.utc_now 0) (some q)

  abbrev pub announced : RunDirectory
  announced = record d {
    lease_held = true;
    events = d.events ++ record { name = "run_paused"; body = status_body halted } ∷ [];
  }

  locked-halted :
      (input : Option Fields) (allow_failed : Bool)
      → is_allowed s.status paused ≡ true
      → run_locked env handler input allow_failed (taken d) ≡ swap s.revision halted announced
  unfolding run_locked prepare stop_request_of stop_or_start
  locked-halted input allow_failed a = ground (arith, idle.in_file)

  -- A stop request that stands for a pending run, or for an attempt that was left RUNNING, of a
  -- number below 10 ^ 100, pauses the run at once: the result, the record and the log do not depend
  -- on the handler, which is not called, and the stop is what the run then awaits.
  pub run_attempt-halted :
      (input : Option Fields) (allow_failed : Bool)
      → is_allowed s.status paused ≡ true
      → s.attempt < 10 ^ 100
      → (fs : Fields) × (run_attempt env handler input allow_failed d
          ≡ released (ok halted, record announced { snapshot_file = holding fs }))
        × (read (holding fs) ≡ ok halted)
  run_attempt-halted input allow_failed a small =
      let v = read-valid d.snapshot_file s idle.in_file in
      let f = stopped-MayFollow s v (env.utc_now 0) (some q) a small in
      (
        f.fields,
        idle_locked env handler input allow_failed d idle.free
            ∙ ap released
                (locked-halted input allow_failed a ∙ swap_ok s halted announced f idle.in_file),
        read-holding f.fields ∙ decode-encode halted f.shape f.encoded,
      )

  halted_refused :
      validate_shape s false ≡ ok tt
      → s.status ≡ failed
      → s.attempt < 10 ^ 100
      → validate (some s) halted false ≡ err invalid_transition
  unfolding validate validate_shape stopped_snapshot validate_awaiting
  halted_refused v h small =
      let p = shape-Plain s v in ground (arith, p.id.1, stopped_key_ok s.attempt small)

  swap_refused :
      s.status ≡ failed
      → s.attempt < 10 ^ 100
      → swap s.revision halted announced ≡ (err invalid_transition, announced)
  unfolding swap compare_and_swap stopped_snapshot
  swap_refused h small =
      ground
        (arith, idle.in_file, halted_refused (read-valid d.snapshot_file s idle.in_file) h small)

  locked-stuck :
      (input : Option Fields) (recovery : Option Fields × List Fields)
      → s.status ≡ failed
      → prepare env s (taken d) ≡ (ok recovery, taken d)
      → run_locked env handler input true (taken d) ≡ swap s.revision halted announced
  unfolding run_locked stop_request_of stop_or_start
  locked-stuck input recovery h p = ground (arith, idle.in_file)

  -- A failed attempt, of a number below 10 ^ 100, against which a stop was also requested cannot be
  -- resumed: `_run` as `resume` calls it, with whatever handler and input, raises
  -- InvalidTransitionError once recovery is prepared, and leaves everything but the log as it was,
  -- so that the next call does the same.
  pub run_attempt-stuck :
      (input : Option Fields) (recovery : Option Fields × List Fields)
      → s.status ≡ failed
      → s.attempt < 10 ^ 100
      → prepare env s (taken d) ≡ (ok recovery, taken d)
      → run_attempt env handler input true d ≡ released (err invalid_transition, announced)
  run_attempt-stuck input recovery h small p =
      idle_locked env handler input true d idle.free
      ∙ ap released (locked-stuck input recovery h p ∙ swap_refused h small)
