-- ===== src/Workers/Rounds.antt =====
-- The retry loops of packages/ac-jobs/src/ac_jobs/group_workers.py end once the other processes
-- leave the file alone.
use ac_foundation.Workers.{
  GroupWorkerControl, again, is_revision_conflict, is_state_conflict, loop_rounds, validate_control,
  worker_contract, expanded, from_read, initialize_current, initialize_group_workers,
  initialize_round, initial_control,
}
use ac_foundation.Errors.{JobsError, Result, err, ok, invalid_run_id, value_error}
use ac_foundation.Storage.{JsonFile, absent, damaged, holding}
use ac_foundation.Prelude.{
  arith, false, none, refl, some, suc, ℕ, ◌<◌, ◌≡◌, ◌≢◌, Bool, Bool-cases, Option, String,
  if◌then◌else◌, inl, inr, leb, ltb, subst, sym, true, ◌==◌, ◌||◌,
}
use ac_foundation.Storage.State.{create_state, read_state, swap_state}
use ac_foundation.Identity.{codes, matches_simple_id}
use ac_foundation.Workers.Loops.{Decides, QuietFrom, loop_ends, retry_ends}

absent_of_none : (file : JsonFile) → read_state worker_contract file ≡ ok none → file ≡ absent
unfolding read_state
absent_of_none absent h = refl
absent_of_none damaged h = absurd (ground arith)
absent_of_none (holding fs) h = absurd (ground arith)

create_ends :
    (c : GroupWorkerControl) (e : JobsError)
    → create_state worker_contract absent c ≡ err e
    → is_state_conflict e ≡ false
unfolding create_state validate_control
create_ends c e h = ground arith

swap_ends :
    (file : JsonFile) (c v : GroupWorkerControl) (e : JobsError)
    → read_state worker_contract file ≡ ok (some c)
    → v.revision ≡ suc c.revision
    → swap_state worker_contract file c.revision v ≡ err e
    → is_revision_conflict e ≡ false
unfolding swap_state validate_control
swap_ends file c v e r n h = ground arith

initialize_Decides :
    (group_id : String) (target capacity : ℕ) → Decides (initialize_round group_id target capacity)
unfolding initialize_round initialize_current
initialize_Decides group_id target capacity = record {
  decided = λ file g. found file g (read_state worker_contract file) refl;
}
  where
    found :
        (file g : JsonFile) (m : Result (Option GroupWorkerControl))
        → read_state worker_contract file ≡ m
        → from_read m (initialize_current group_id target capacity file) ≢ again g
    found file g (ok none) e = retry_ends is_state_conflict file _ g (
        subst
          (λ f.
            (x : JobsError)
            → create_state worker_contract f (initial_control group_id target capacity) ≡ err x
            → is_state_conflict x ≡ false)
          (sym (absent_of_none file e)) (create_ends _))
    found file g (ok (some c)) e = elim (Bool-cases (leb capacity c.capacity)) [
      | inl large ↦ rw large (λ k. absurd (ground arith))
      | inr small ↦ rw small (
          retry_ends is_revision_conflict file _ g
            λ x k. swap_ends file c (expanded c capacity) x e (omega arith) k)
    ]
    found file g (err x) e = λ k. absurd (ground arith)

-- `initialize_group_workers` returns or raises, once others have been quiet for one round.
pub initialize_ends :
    (others : ℕ → JsonFile → JsonFile) (k fuel : ℕ) (group_id : String) (target capacity : ℕ)
    (file : JsonFile)
    → QuietFrom others k
    → k < fuel
    → (r : Result (JsonFile × GroupWorkerControl)) × (initialize_group_workers others fuel group_id
          target capacity file
        ≡ some r)
unfolding initialize_group_workers
initialize_ends others k fuel group_id target capacity file q h =
    guarded (target == 0 || capacity == 0 || ltb capacity target)
      (matches_simple_id (codes group_id))
  where
    guarded :
        (bad named : Bool)
        → (r : Result (JsonFile × GroupWorkerControl)) × ((if bad
              then some (err value_error)
              else if named
              then loop_rounds (initialize_round group_id target capacity) others fuel 0 file
              else some (err invalid_run_id))
            ≡ some r)
    guarded true named = (err value_error, refl)
    guarded false true =
        loop_ends (initialize_round group_id target capacity)
          (initialize_Decides group_id target capacity) others k fuel 0 file q (omega arith)
          (omega arith)
    guarded false false = (err invalid_run_id, refl)
