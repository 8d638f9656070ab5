-- ===== src/Engine/Attempts.antt =====
-- What `RunEngine._run` of packages/ac-jobs/src/ac_jobs/engine.py does, by the record that it finds.
use ac_foundation.Prelude.{
  Bool, List, Option, [], ap, arith, false, none, true, ◌∙◌, ◌≡◌, ◌⊎◌, refl, some,
}
use ac_foundation.Repository.Directory.{Environment, RunDirectory, with_lease}
use ac_foundation.Json.{Fields}
use ac_foundation.Errors.{Result, err, ok, run_busy}
use ac_foundation.Engine.{
  RunHandler, admit_input, finish_attempt, prepare, run_attempt, run_locked, running_snapshot,
  settle_orphan, stop_or_start, stop_request_of, validate_replayed, or_spec, persist_resume_input,
  start_attempt,
}
use ac_foundation.Models.{
  RunSnapshot, RunSpec, failed, pending, running, succeeded, Awaiting, StopRequest, paused,
}
use ac_foundation.Engine.Progress.{
  begun_context, begun_directory, begin_fields, start-begins, read_spec-same,
}
use ac_foundation.Snapshot.{is_allowed}
use ac_foundation.Snapshot.Store.{read}
use ac_foundation.Repository.{read_spec}
use ac_foundation.Stopping.{read_stop}
use ac_foundation.Snapshot.Store.Laws.{read-valid}
use ac_foundation.Engine.Records.{running-MayFollow}

abbrev pub taken : RunDirectory → RunDirectory
taken d = record d { lease_held = true }

abbrev pub released {ℓ} : {A : Type ℓ} → Result A × RunDirectory → Result A × RunDirectory
released (r, e) = (r, record e { lease_held = false })

-- Nobody else executes the run, and its record can be read.
pub record IsIdle (d : RunDirectory) (s : RunSnapshot) : Type 0 where
  pub free : d.lease_held ≡ false
  pub in_file : read d.snapshot_file ≡ ok s

-- While another process holds the lease nothing happens.
pub run_attempt-busy :
    (env : Environment) (handler : RunHandler) (input : Option Fields) (allow_failed : Bool)
    (d : RunDirectory)
    → d.lease_held ≡ true
    → run_attempt env handler input allow_failed d ≡ (err run_busy, d)
unfolding run_attempt
run_attempt-busy env handler input allow_failed d h = unfold with_lease in ground arith

pub idle_locked :
    (env : Environment) (handler : RunHandler) (input : Option Fields) (allow_failed : Bool)
    (d : RunDirectory)
    → d.lease_held ≡ false
    → run_attempt env handler input allow_failed d
      ≡ released (run_locked env handler input allow_failed (taken d))
unfolding run_attempt
idle_locked env handler input allow_failed d h = unfold with_lease in ground arith

-- A succeeded run, and to `execute` a failed one too, is returned as it is: nothing is written and
-- the handler is not called.
pub run_attempt-final :
    (env : Environment) (handler : RunHandler) (allow_failed : Bool) (d : RunDirectory)
    (s : RunSnapshot)
    → IsIdle d s
    → (s.status ≡ succeeded) ⊎ ((s.status ≡ failed) × (allow_failed ≡ false))
    → run_attempt env handler none allow_failed d ≡ (ok s, d)
unfolding run_locked validate_replayed
run_attempt-final env handler allow_failed d s idle h =
    idle_locked env handler none allow_failed d idle.free ∙ ground (arith, idle.in_file)

module _ (env : Environment) (handler : RunHandler) (s : RunSnapshot) (spec : RunSpec)
    (d : RunDirectory) (idle : IsIdle d s)
    (spec_read : read_spec env s.run_id d ≡ (ok spec, d)) where
  locked_spec : read_spec env s.run_id (taken d) ≡ (ok spec, taken d)
  locked_spec = read_spec-same env s.run_id d (taken d) refl spec_read

  -- The handler runs against the record of a new attempt.
  abbrev pub attempted :
      is_allowed s.status running ≡ true → Fields → List Fields → Result RunSnapshot × RunDirectory
  attempted a semantic_input warnings =
      let b = running_snapshot s (env.utc_now 1) in
      finish_attempt env handler (begun_context b spec semantic_input none) b (
        begun_directory env b
          (running-MayFollow s (read-valid d.snapshot_file s idle.in_file) (env.utc_now 1) a).fields
          warnings (taken d))

  begins :
      (a : is_allowed s.status running ≡ true) (recovery : Option Fields × List Fields)
      → start_attempt env handler s recovery none (taken d)
        ≡ attempted a (or_spec recovery.0 spec) recovery.1
  unfolding begin_fields
  begins a recovery =
      start-begins env handler s spec (taken d) idle.in_file locked_spec recovery none a

  locked-pending :
      (allow_failed : Bool) (a : is_allowed s.status running ≡ true)
      → s.status ≡ pending
      → read_stop (d.stop_files s.attempt) s.attempt ≡ ok none
      → run_locked env handler none allow_failed (taken d) ≡ attempted a spec.semantic_input []
  unfolding run_locked prepare stop_request_of stop_or_start settle_orphan admit_input
  locked-pending allow_failed a p q = ground (arith, idle.in_file, begins a (none, []))

  -- A pending run without a stop request begins its first attempt with its own semantic input.
  pub run_attempt-pending :
      (allow_failed : Bool) (a : is_allowed s.status running ≡ true)
      → s.status ≡ pending
      → read_stop (d.stop_files s.attempt) s.attempt ≡ ok none
      → run_attempt env handler none allow_failed d ≡ released (attempted a spec.semantic_input [])
  run_attempt-pending allow_failed a p q =
      idle_locked env handler none allow_failed d idle.free
      ∙ ap released (locked-pending allow_failed a p q)

  locked-paused :
      (allow_failed : Bool) (a : is_allowed s.status running ≡ true) (w : Awaiting)
      → s.status ≡ paused
      → s.awaiting ≡ some w
      → w.input_required ≡ false
      → (request : Option StopRequest) → read_stop (d.stop_files s.attempt) s.attempt ≡ ok request
      → run_locked env handler none allow_failed (taken d) ≡ attempted a spec.semantic_input []
  unfolding run_locked prepare stop_request_of stop_or_start settle_orphan admit_input
      persist_resume_input
  locked-paused allow_failed a w p q n request r = ground (arith, idle.in_file, begins a (none, []))

  -- A paused run that needs no input begins its next attempt, also where a stop request stands for
  -- the attempt that was paused.
  pub run_attempt-paused :
      (allow_failed : Bool) (a : is_allowed s.status running ≡ true) (w : Awaiting)
      → s.status ≡ paused
      → s.awaiting ≡ some w
      → w.input_required ≡ false
      → (request : Option StopRequest) → read_stop (d.stop_files s.attempt) s.attempt ≡ ok request
      → run_attempt env handler none allow_failed d ≡ released (attempted a spec.semantic_input [])
  run_attempt-paused allow_failed a w p q n request r =
      idle_locked env handler none allow_failed d idle.free
      ∙ ap released (locked-paused allow_failed a w p q n request r)
