-- ===== src/Groups/Schedule/FailFast.antt =====
-- Once submissions are stopped (`WorkGroupRunner.run` of packages/ac-jobs/src/ac_jobs/groups.py).
-- Nothing more is submitted, and submissions stay stopped.
use ac_foundation.Models.{Awaiting}
use ac_foundation.Prelude.{
  Bool, Bool-cases, List, [], arith, eq_iff, false, inl, inr, refl, some, subst, sym, true, ℕ, ◌&&◌,
  ◌∙◌, ◌∷◌, ◌≡◌, ◌≢◌,
}
use ac_foundation.Groups.Schedule.{
  FailureMode, LoopRound, Scheduler, collect, collect_all_of, fail_fast, is_empty, one_round,
  run_rounds, submit, submit_from,
}
use ac_foundation.Groups.{Outcome, UnitResult, WorkUnit, unit_finished, unit_paused}
use ac_foundation.Errors.{Result, Result-cases, err, ok}
use ac_foundation.Groups.Schedule.Rounds.{one_round-RoundDone}

abbrev pub Stays : Scheduler → Scheduler → Type 0
Stays s t = (t.pending ≡ s.pending) × (t.stop_submitting ≡ true)

submit_from-stopped :
    (stop : ℕ → Result (Unit {0})) (target : ℕ) (units : List WorkUnit) (s t : Scheduler)
    → s.stop_submitting ≡ true
    → submit_from stop target units s ≡ ok t
    → s ≡ t
unfolding submit_from
submit_from-stopped stop target [] s t h e = cc
submit_from-stopped stop target (u ∷ us) s t h e = ground arith

collect-Stays :
    (mode : FailureMode) (local : Awaiting → Bool) (unit : WorkUnit) (o : Outcome) (s : Scheduler)
    → s.stop_submitting ≡ true
    → Stays s (collect mode local unit o s)
unfolding collect
collect-Stays mode local unit (unit_paused a) s h = ground arith
collect-Stays mode local unit (unit_finished r) s h = ground arith

collect_all_of-Stays :
    (mode : FailureMode) (local : Awaiting → Bool) (finished : List (WorkUnit × Result Outcome))
    (s t : Scheduler)
    → s.stop_submitting ≡ true
    → collect_all_of mode local finished s ≡ ok t
    → Stays s t
unfolding collect_all_of
collect_all_of-Stays mode local [] s t h e =
    let same : s ≡ t = cc in subst (λ x. Stays s x) same (refl, h)
collect_all_of-Stays mode local ((unit, err x) ∷ finished) s t h e = absurd cc
collect_all_of-Stays mode local ((unit, ok o) ∷ finished) s t h e =
    let first = collect-Stays mode local unit o s h in
    let rest = collect_all_of-Stays mode local finished (collect mode local unit o s) t first.1 e in
    (rest.0 ∙ first.0, rest.1)

one_round-Stays :
    (mode : FailureMode) (local : Awaiting → Bool) (capacity : ℕ) (r : LoopRound) (s t : Scheduler)
    (more : Bool)
    → s.stop_submitting ≡ true
    → one_round mode local capacity r s ≡ ok (more, t)
    → Stays s t
unfolding submit
one_round-Stays mode local capacity r s t more h e =
    let d = one_round-RoundDone mode local capacity r s t more e in
    let u = d.after_submit in
    let same : s ≡ u = submit_from-stopped r.stop r.target s.pending s u h d.submits in
    let halted : u.stop_submitting ≡ true = subst (λ x. x.stop_submitting ≡ true) same h in
    elim d.collects [
      | inl (p, k) ↦ subst (λ x. Stays s x) (same ∙ sym k) (refl, h)
      | inr (p, k) ↦
          subst (λ x. Stays x t) (sym same)
            (collect_all_of-Stays mode local r.finished u t halted k)
    ]

run_rounds-Stays :
    (mode : FailureMode) (local : Awaiting → Bool) (capacity : ℕ) (rs : List LoopRound)
    (s t : Scheduler)
    → s.stop_submitting ≡ true
    → run_rounds mode local capacity rs s ≡ some (ok t)
    → Stays s t
unfolding run_rounds
run_rounds-Stays mode local capacity [] s t h k =
    elim (Bool-cases (is_empty s.pending && is_empty s.in_flight)) [
      | inl e ↦ let same : s ≡ t = ground arith in subst (λ x. Stays s x) same (refl, h)
      | inr e ↦ absurd (ground arith)
    ]
run_rounds-Stays mode local capacity (r ∷ rs) s t h k =
    elim (Bool-cases (is_empty s.pending && is_empty s.in_flight)) [
      | inl e ↦ let same : s ≡ t = ground arith in subst (λ x. Stays s x) same (refl, h)
      | inr e ↦ elim (Result-cases (one_round mode local capacity r s)) [
        | inr (x, p) ↦ absurd (ground arith)
        | inl ((true, u), p) ↦
            let first = one_round-Stays mode local capacity r s u true h p in
            let rest = run_rounds-Stays mode local capacity rs u t first.1 (ground arith) in
            (rest.0 ∙ first.0, rest.1)
        | inl ((false, u), p) ↦
            let same : u ≡ t = ground arith in
            subst (λ x. Stays s x) same (one_round-Stays mode local capacity r s u false h p)
      ]
    ]

-- With fail_fast no unit is submitted after a unit that did not succeed was collected, whatever
-- finishes in the rest of the run.
pub fail_fast-stops :
    (local : Awaiting → Bool) (capacity : ℕ) (rs : List LoopRound) (unit : WorkUnit)
    (r : UnitResult) (s t : Scheduler)
    → r.status ≢ "succeeded"
    → run_rounds fail_fast local capacity rs (collect fail_fast local unit (unit_finished r) s)
      ≡ some (ok t)
    → t.pending ≡ s.pending
unfolding collect
fail_fast-stops local capacity rs unit r s t bad h =
    (run_rounds-Stays fail_fast local capacity rs (collect fail_fast local unit (unit_finished r) s)
      t (ground (arith, eq_iff r.status "succeeded")) h).0
