-- ===== src/Groups/Schedule/Limit.antt =====
-- How many units are in flight (`WorkGroupRunner.run` of packages/ac-jobs/src/ac_jobs/groups.py).
use ac_foundation.Errors.{Result, Result-cases, err, ok}
use ac_foundation.Models.{Awaiting}
use ac_foundation.Prelude.{
  Bool, Bool-cases, List, String, [], arith, inl, inr, length, length-append, ltb, not, ℕ, ◌&&◌,
  ◌++◌, ◌<◌, ◌∷◌, ◌≡◌, ◌≤◌, subst, sym,
}
use ac_foundation.Groups.Schedule.{
  FailureMode, LoopRound, Scheduler, collect, collect_all_of, one_round, remove_unit, submit,
  submit_from, submitted,
}
use ac_foundation.Groups.{Outcome, WorkUnit, unit_finished, unit_paused}
use ac_foundation.Groups.Schedule.Rounds.{one_round-RoundDone}

submit_from-limit :
    (stop : ℕ → Result (Unit {0})) (target capacity : ℕ) (units : List WorkUnit) (s : Scheduler)
    {t : Scheduler}
    → target ≤ capacity
    → length s.in_flight ≤ capacity
    → submit_from stop target units s ≡ ok t
    → length t.in_flight ≤ capacity
unfolding submit_from
submit_from-limit stop target capacity [] s fits small h = ground arith
submit_from-limit stop target capacity (u ∷ us) s {t} fits small h =
    elim (Bool-cases (ltb (length s.in_flight) target && not s.stop_submitting)) [
      | inr e ↦ ground arith
      | inl e ↦
          let room : length s.in_flight < target = ground arith in
          let grown : length (s.in_flight ++ u ∷ []) ≤ capacity =
            omega (arith, length-append s.in_flight (u ∷ []), room, fits) in
          elim (Result-cases (stop (length s.in_flight))) [
            | inr (x, p) ↦ absurd (ground arith)
            | inl (x, p) ↦
                submit_from-limit stop target capacity us (submitted u us s) {t = t} fits grown
                  (ground arith)
          ]
    ]

remove_unit-length :
    (unit_id : String) (us : List WorkUnit) → length (remove_unit unit_id us) ≤ length us
remove_unit-length unit_id [] = omega arith
remove_unit-length unit_id (u ∷ us) = ground (arith, remove_unit-length unit_id us)

collect-length :
    (mode : FailureMode) (local : Awaiting → Bool) (unit : WorkUnit) (o : Outcome) (s : Scheduler)
    → length (collect mode local unit o s).in_flight ≤ length s.in_flight
unfolding collect
collect-length mode local unit (unit_paused a) s = remove_unit-length unit.unit_id s.in_flight
collect-length mode local unit (unit_finished r) s = remove_unit-length unit.unit_id s.in_flight

collect_all_of-length :
    (mode : FailureMode) (local : Awaiting → Bool) (finished : List (WorkUnit × Result Outcome))
    (s : Scheduler) {t : Scheduler}
    → collect_all_of mode local finished s ≡ ok t
    → length t.in_flight ≤ length s.in_flight
unfolding collect_all_of
collect_all_of-length mode local [] s h = ground arith
collect_all_of-length mode local ((unit, err e) ∷ finished) s h = absurd cc
collect_all_of-length mode local ((unit, ok o) ∷ finished) s h = omega (
  arith,
  collect-length mode local unit o s,
  collect_all_of-length mode local finished (collect mode local unit o s) h,
)

-- Whatever the target and the outcomes of a round: when no more units than the capacity are in
-- flight before it, no more than the capacity are in flight after it.
pub one_round-limit :
    (mode : FailureMode) (local : Awaiting → Bool) (capacity : ℕ) (r : LoopRound) (s t : Scheduler)
    (more : Bool)
    → length s.in_flight ≤ capacity
    → one_round mode local capacity r s ≡ ok (more, t)
    → length t.in_flight ≤ capacity
unfolding submit
one_round-limit mode local capacity r s t more small h =
    let d = one_round-RoundDone mode local capacity r s t more h in
    let u = d.after_submit in
    let filled : length u.in_flight ≤ capacity =
      submit_from-limit r.stop r.target capacity s.pending s d.fits small d.submits in
    elim d.collects [
      | inl (p, e) ↦ subst (λ x. length x.in_flight ≤ capacity) (sym e) filled
      | inr (p, e) ↦ omega (arith, filled, collect_all_of-length mode local r.finished u e)
    ]
