-- ===== src/Groups/Schedule/Completion.antt =====
-- The end of the loop of `WorkGroupRunner.run` (packages/ac-jobs/src/ac_jobs/groups.py), and what has
-- become of the units.
use ac_foundation.Models.{Awaiting}
use ac_foundation.Prelude.{
  Bool, Bool-cases, List, [], ap, arith, false, inl, inr, length, ltb, not, refl, some, subst, sym,
  true, ℕ, ◌&&◌, ◌∷◌, ◌≡◌, ◌≤◌, ◌⊎◌, &&-eq-true, String, ◌+◌, ◌∙◌,
}
use ac_foundation.Groups.Schedule.{
  FailureMode, LoopRound, Scheduler, is_empty, one_round, run_rounds, submit_from, submitted,
  submit,
}
use ac_foundation.Errors.{Result, Result-cases, ok}
use ac_foundation.Groups.{WorkUnit}
use ac_foundation.Groups.Schedule.Rounds.{one_round-RoundDone}
use ac_foundation.Events.Tail.{later}
use ac_foundation.Groups.Schedule.Counting.{
  one_round-total, rounds_wait, times_collected, times_unit, total,
}

abbrev IsComplete : Scheduler → Type 0
IsComplete t = (is_empty t.pending ≡ true) ⊎ (t.stop_submitting ≡ true)

submit_from-idle :
    (stop : ℕ → Result (Unit {0})) (target : ℕ) (units : List WorkUnit) (s t : Scheduler)
    → s.pending ≡ units
    → 1 ≤ target
    → submit_from stop target units s ≡ ok t
    → is_empty t.in_flight ≡ true
    → IsComplete t
unfolding submit_from
submit_from-idle stop target [] s t p w h e =
    let same : s ≡ t = cc in inl (subst (λ x. is_empty x.pending ≡ true) same (ap is_empty p))
submit_from-idle stop target (u ∷ us) s t p w h e =
    elim (Bool-cases (ltb (length s.in_flight) target && not s.stop_submitting)) [
      | inl c ↦ elim (Result-cases (stop (length s.in_flight))) [
        | inr (x, q) ↦ absurd (ground arith)
        | inl (x, q) ↦ submit_from-idle stop target us (submitted u us s) t refl w (ground arith) e
      ]
      | inr c ↦
          let same : s ≡ t = ground arith in
          inr (
            subst (λ x. x.stop_submitting ≡ true) same
              (halted s.in_flight c (subst (λ x. is_empty x.in_flight ≡ true) (sym same) e)))
    ]
  where
    halted :
        (flight : List WorkUnit)
        → (ltb (length flight) target && not s.stop_submitting) ≡ false
        → is_empty flight ≡ true
        → s.stop_submitting ≡ true
    halted [] c e = ground arith
    halted (x ∷ xs) c e = absurd cc

abbrev Complete : Scheduler → Type 0
Complete t = (is_empty t.in_flight ≡ true) × IsComplete t

-- The round with which the loop breaks.
last_round :
    (mode : FailureMode) (local : Awaiting → Bool) (capacity : ℕ) (r : LoopRound) (s t : Scheduler)
    → one_round mode local capacity r s ≡ ok (false, t)
    → Complete t
unfolding submit
last_round mode local capacity r s t h =
    let d = one_round-RoundDone mode local capacity r s t false h in
    let u = d.after_submit in
    let nothing : is_empty u.in_flight ≡ true = ground (arith, d.goes_on) in
    elim d.collects [
      | inl (p, e) ↦
          subst (λ x. Complete x) (sym e)
            (
              nothing,
              submit_from-idle r.stop r.target s.pending s u refl d.some_worker d.submits nothing,
            )
      | inr (p, e) ↦ absurd cc
    ]

no_more :
    (s t : Scheduler) → (is_empty s.pending && is_empty s.in_flight) ≡ true → s ≡ t → Complete t
no_more s t e same =
    let (p, q) = &&-eq-true (is_empty s.pending) (is_empty s.in_flight) e in
    subst (λ x. Complete x) same (q, inl p)

run_rounds-Complete :
    (mode : FailureMode) (local : Awaiting → Bool) (capacity : ℕ) (rs : List LoopRound)
    (s t : Scheduler)
    → run_rounds mode local capacity rs s ≡ some (ok t)
    → Complete t
unfolding run_rounds
run_rounds-Complete mode local capacity [] s t h =
    elim (Bool-cases (is_empty s.pending && is_empty s.in_flight)) [
      | inl e ↦ no_more s t e (ground arith)
      | inr e ↦ absurd (ground arith)
    ]
run_rounds-Complete mode local capacity (r ∷ rs) s t h =
    elim (Bool-cases (is_empty s.pending && is_empty s.in_flight)) [
      | inl e ↦ no_more s t e (ground arith)
      | inr e ↦ elim (Result-cases (one_round mode local capacity r s)) [
        | inr (x, p) ↦ absurd (ground arith)
        | inl ((true, u), p) ↦ run_rounds-Complete mode local capacity rs u t (ground arith)
        | inl ((false, u), p) ↦
            let same : u ≡ t = ground arith in
            subst (λ x. Complete x) same (last_round mode local capacity r s u p)
      ]
    ]

run_rounds-total :
    (x : String) (mode : FailureMode) (local : Awaiting → Bool) (capacity : ℕ) (rs : List LoopRound)
    (s t : Scheduler)
    → rounds_wait mode local rs s ≡ true
    → run_rounds mode local capacity rs s ≡ some (ok t)
    → total x t ≡ total x s
unfolding run_rounds
run_rounds-total x mode local capacity [] s t w h =
    elim (Bool-cases (is_empty s.pending && is_empty s.in_flight)) [
      | inl e ↦ let same : s ≡ t = ground arith in ap (total x) (sym same)
      | inr e ↦ absurd (ground arith)
    ]
run_rounds-total x mode local capacity (r ∷ rs) s t w h =
    elim (Bool-cases (is_empty s.pending && is_empty s.in_flight)) [
      | inl e ↦ let same : s ≡ t = ground arith in ap (total x) (sym same)
      | inr e ↦ elim (Result-cases (one_round mode local capacity r s)) [
        | inr (z, p) ↦ absurd (ground arith)
        | inl ((true, u), p) ↦
            let (q, later) = one_round-total x mode local capacity r rs s u true w p in
            run_rounds-total x mode local capacity rs u t (later refl) (ground arith) ∙ q
        | inl ((false, u), p) ↦
            let same : u ≡ t = ground arith in
            ap (total x) (sym same) ∙ (one_round-total x mode local capacity r rs s u false w p).0
      ]
    ]

in_flight_none : (x : String) (us : List WorkUnit) → is_empty us ≡ true → times_unit x us ≡ 0
in_flight_none x [] h = refl
in_flight_none x (u ∷ us) h = cc

-- When the loop ends without an exception, where `wait` returns futures in flight and results carry the
-- ids of their units: a unit is pending or collected, in the results or the pauses, exactly as often as
-- it was pending, in flight or collected before, and one is left pending only where submissions were
-- stopped.
pub run_rounds-collects :
    (x : String) (mode : FailureMode) (local : Awaiting → Bool) (capacity : ℕ) (rs : List LoopRound)
    (s t : Scheduler)
    → rounds_wait mode local rs s ≡ true
    → run_rounds mode local capacity rs s ≡ some (ok t)
    → (times_unit x t.pending + times_collected x t
        ≡ times_unit x s.pending + times_unit x s.in_flight + times_collected x s)
      × ((is_empty t.pending ≡ true) ⊎ (t.stop_submitting ≡ true))
run_rounds-collects x mode local capacity rs s t w h =
    let (idle, complete) = run_rounds-Complete mode local capacity rs s t h in
    (
      omega (
        arith,
        run_rounds-total x mode local capacity rs s t w h,
        in_flight_none x t.in_flight idle,
      ),
      complete,
    )
