-- ===== src/Groups/Schedule/Rounds.antt =====
-- What a round of `WorkGroupRunner.run` that raises nothing has done
-- (packages/ac-jobs/src/ac_jobs/groups.py).
use ac_foundation.Models.{Awaiting}
use ac_foundation.Prelude.{
  Bool, Bool-cases, ap, arith, false, inl, inr, not, sym, true, ℕ, ◌∙◌, ◌≡◌, ◌≤◌, ◌⊎◌,
}
use ac_foundation.Groups.Schedule.{
  FailureMode, LoopRound, Scheduler, collect_all_of, is_empty, one_round, submit,
}
use ac_foundation.Errors.{Result-cases, ok}

pub record RoundDone (mode : FailureMode) (local : Awaiting → Bool) (capacity : ℕ) (r : LoopRound)
    (s t : Scheduler) (more : Bool) : Type 0 where
  pub fits : r.target ≤ capacity
  pub some_worker : 1 ≤ r.target
  pub after_submit : Scheduler
  pub submits : submit r.stop r.target s ≡ ok after_submit
  pub goes_on : more ≡ not (is_empty after_submit.in_flight)
  pub collects :
      (more ≡ false) × (t ≡ after_submit)
      ⊎ (more ≡ true) × (collect_all_of mode local r.finished after_submit ≡ ok t)

pub one_round-RoundDone :
    (mode : FailureMode) (local : Awaiting → Bool) (capacity : ℕ) (r : LoopRound) (s t : Scheduler)
    (more : Bool)
    → one_round mode local capacity r s ≡ ok (more, t)
    → RoundDone mode local capacity r s t more
unfolding one_round
one_round-RoundDone mode local capacity r s t more h =
    elim (Result-cases (submit r.stop r.target s)) [
      | inr (e, p) ↦ absurd (ground arith)
      | inl (u, p) ↦ record {
        fits = ground arith;
        some_worker = ground arith;
        after_submit = u;
        submits = p;
        goes_on = emptiness u p;
        collects = outcome u p;
      }
    ]
  where
    emptiness :
        (u : Scheduler) → submit r.stop r.target s ≡ ok u → more ≡ not (is_empty u.in_flight)
    emptiness u p = elim (Bool-cases (is_empty u.in_flight)) [
      | inl e ↦ ground arith
      | inr e ↦ elim (Result-cases (collect_all_of mode local r.finished u)) [
        | inl (v, q) ↦ ground arith
        | inr (x, q) ↦ absurd (ground arith)
      ]
    ]

    outcome :
        (u : Scheduler)
        → submit r.stop r.target s ≡ ok u
        → (more ≡ false) × (t ≡ u) ⊎ (more ≡ true) × (collect_all_of mode local r.finished u ≡ ok t)
    outcome u p = elim (Bool-cases (is_empty u.in_flight)) [
      | inl e ↦
          let same : ◌≡◌ {A = Bool × Scheduler} (false, u) (more, t) = ground arith in
          inl (sym (ap (λ x. x.0) same), sym (ap (λ x. x.1) same))
      | inr e ↦ elim (Result-cases (collect_all_of mode local r.finished u)) [
        | inl (v, q) ↦
            let same : ◌≡◌ {A = Bool × Scheduler} (true, v) (more, t) = ground arith in
            inr (sym (ap (λ x. x.0) same), q ∙ ap ok (ap (λ x. x.1) same))
        | inr (x, q) ↦ absurd (ground arith)
      ]
    ]
