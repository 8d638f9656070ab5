-- ===== src/Groups/Schedule/Counting.antt =====
-- How often a unit stands in the schedule of `WorkGroupRunner.run`
-- (packages/ac-jobs/src/ac_jobs/groups.py): pending, in flight, or collected.
use ac_foundation.Models.{Awaiting}
use ac_foundation.Prelude.{
  Bool, Bool-cases, List, String, [], ap, arith, eq_iff, false, if◌then◌else◌, inl, inr, length,
  ltb, not, refl, str_eq, suc, sym, true, ℕ, ◌&&◌, ◌++◌, ◌+◌, ◌||◌, ◌∙◌, ◌∷◌, ◌≡◌,
}
use ac_foundation.Groups.Schedule.{
  FailureMode, LoopRound, Scheduler, collect, collect_all_of, is_empty, remove_unit, submit,
  submit_from, submitted, one_round,
}
use ac_foundation.Groups.{Outcome, UnitResult, WorkUnit, unit_finished, unit_paused}
use ac_foundation.Errors.{Result, Result-cases, err, ok}
use ac_foundation.Events.Tail.{later}
use ac_foundation.Groups.Schedule.Rounds.{one_round-RoundDone}

abbrev pub times_unit : String → List WorkUnit → ℕ
times_unit x [] = 0
times_unit x (u ∷ us) = let n = times_unit x us in if str_eq u.unit_id x then suc n else n

abbrev times_result : String → List UnitResult → ℕ
times_result x [] = 0
times_result x (r ∷ rs) = let n = times_result x rs in if str_eq r.unit_id x then suc n else n

abbrev times_pause : String → List (String × Awaiting) → ℕ
times_pause x [] = 0
times_pause x ((k, a) ∷ ps) = let n = times_pause x ps in if str_eq k x then suc n else n

-- In the results and in the pauses.
abbrev pub times_collected : String → Scheduler → ℕ
times_collected x s = times_result x s.results + times_pause x s.pauses

abbrev pub total : String → Scheduler → ℕ
total x s = times_unit x s.pending + times_unit x s.in_flight + times_collected x s

abbrev is_among : String → List WorkUnit → Bool
is_among unit_id [] = false
is_among unit_id (u ∷ us) = str_eq u.unit_id unit_id || is_among unit_id us

-- The result of a unit carries its id.
abbrev of_unit : WorkUnit → Result Outcome → Bool
of_unit unit (ok (unit_finished result)) = str_eq result.unit_id unit.unit_id
of_unit unit (ok (unit_paused awaiting)) = true
of_unit unit (err e) = true

-- `wait` returns futures that are in flight, each once.
unfoldable pub are_waited : List (WorkUnit × Result Outcome) → List WorkUnit → Bool
are_waited [] in_flight = true
are_waited ((unit, outcome) ∷ finished) in_flight =
    is_among unit.unit_id in_flight
    && of_unit unit outcome
    && are_waited finished (remove_unit unit.unit_id in_flight)

-- In every round of the loop that waits, `wait` does so.
unfoldable pub rounds_wait : FailureMode → (Awaiting → Bool) → List LoopRound → Scheduler → Bool
rounds_wait mode local [] s = true
rounds_wait mode local (r ∷ rs) s = elim (submit r.stop r.target s) [
  | err e ↦ true
  | ok t ↦
      is_empty t.in_flight
      || are_waited r.finished t.in_flight && elim (collect_all_of mode local r.finished t) [
        | err e ↦ true
        | ok u ↦ rounds_wait mode local rs u
      ]
]

same_text : (s t : String) → str_eq s t ≡ true → s ≡ t
same_text s t h = ground (arith, eq_iff s t)

three_tests : (a b c : Bool) → (a && b && c) ≡ true → (a ≡ true) × (b ≡ true) × (c ≡ true)
three_tests true true true h = (refl, refl, refl)
three_tests _ _ _ h = cc

module _ (x : String) where
  times_unit-snoc :
      (us : List WorkUnit) (u : WorkUnit)
      → times_unit x (us ++ u ∷ []) ≡ times_unit x us + times_unit x (u ∷ [])
  times_unit-snoc [] u = omega arith
  times_unit-snoc (v ∷ us) u = ground (arith, times_unit-snoc us u)

  times_unit-remove_unit :
      (us : List WorkUnit) (u : WorkUnit)
      → is_among u.unit_id us ≡ true
      → times_unit x (remove_unit u.unit_id us) + times_unit x (u ∷ []) ≡ times_unit x us
  times_unit-remove_unit [] u h = cc
  times_unit-remove_unit (v ∷ us) u h = elim (Bool-cases (str_eq v.unit_id u.unit_id)) [
    | inl y ↦ let same = same_text v.unit_id u.unit_id y in rw y (ground (arith, same))
    | inr n ↦ ground (arith, n, times_unit-remove_unit us u (ground (arith, n, h)))
  ]

  submitted-total :
      (u : WorkUnit) (us : List WorkUnit) (s : Scheduler)
      → s.pending ≡ u ∷ us
      → total x (submitted u us s) ≡ total x s
  submitted-total u us s e = rw e (ground (arith, times_unit-snoc s.in_flight u))

  submit_from-total :
      (stop : ℕ → Result (Unit {0})) (target : ℕ) (units : List WorkUnit) (s t : Scheduler)
      → s.pending ≡ units
      → submit_from stop target units s ≡ ok t
      → total x t ≡ total x s
  unfolding submit_from
  submit_from-total stop target [] s t p h = let same : s ≡ t = cc in ap (total x) (sym same)
  submit_from-total stop target (u ∷ us) s t p h =
      elim (Bool-cases (ltb (length s.in_flight) target && not s.stop_submitting)) [
        | inl c ↦ elim (Result-cases (stop (length s.in_flight))) [
          | inr (e, q) ↦ absurd (ground arith)
          | inl (v, q) ↦
              submit_from-total stop target us (submitted u us s) t refl (ground arith)
              ∙ submitted-total u us s p
        ]
        | inr c ↦ let same : s ≡ t = ground arith in ap (total x) (sym same)
      ]

  collect-total :
      (mode : FailureMode) (local : Awaiting → Bool) (unit : WorkUnit) (outcome : Outcome)
      (s : Scheduler)
      → is_among unit.unit_id s.in_flight ≡ true
      → of_unit unit (ok outcome) ≡ true
      → total x (collect mode local unit outcome s) ≡ total x s
  unfolding collect
  collect-total mode local unit (unit_paused a) s h o =
      ground (arith, times_unit-remove_unit s.in_flight unit h)
  collect-total mode local unit (unit_finished r) s h o =
      let same = same_text r.unit_id unit.unit_id o in
      ground (arith, same, times_unit-remove_unit s.in_flight unit h)

  collect-in_flight :
      (mode : FailureMode) (local : Awaiting → Bool) (unit : WorkUnit) (outcome : Outcome)
      (s : Scheduler)
      → (collect mode local unit outcome s).in_flight ≡ remove_unit unit.unit_id s.in_flight
  unfolding collect
  collect-in_flight mode local unit (unit_paused a) s = refl
  collect-in_flight mode local unit (unit_finished r) s = refl

  collect_all_of-total :
      (mode : FailureMode) (local : Awaiting → Bool) (finished : List (WorkUnit × Result Outcome))
      (s t : Scheduler)
      → are_waited finished s.in_flight ≡ true
      → collect_all_of mode local finished s ≡ ok t
      → total x t ≡ total x s
  unfolding collect_all_of are_waited
  collect_all_of-total mode local [] s t w h = let same : s ≡ t = cc in ap (total x) (sym same)
  collect_all_of-total mode local ((unit, err e) ∷ finished) s t w h = cc
  collect_all_of-total mode local ((unit, ok outcome) ∷ finished) s t w h =
      let (here, own, rest) =
        three_tests (is_among unit.unit_id s.in_flight) (of_unit unit (ok outcome))
          (are_waited finished (remove_unit unit.unit_id s.in_flight)) w in
      collect_all_of-total mode local finished (collect mode local unit outcome s) t
        (rw (collect-in_flight mode local unit outcome s) rest) h
      ∙ collect-total mode local unit outcome s here own

  submit-total :
      (stop : ℕ → Result (Unit {0})) (target : ℕ) (s t : Scheduler)
      → submit stop target s ≡ ok t
      → total x t ≡ total x s
  unfolding submit
  submit-total stop target s t h = submit_from-total stop target s.pending s t refl h

  -- A round that does not end the loop.
  pub one_round-total :
      (mode : FailureMode) (local : Awaiting → Bool) (capacity : ℕ) (r : LoopRound)
      (rs : List LoopRound) (s t : Scheduler) (more : Bool)
      → rounds_wait mode local (r ∷ rs) s ≡ true
      → one_round mode local capacity r s ≡ ok (more, t)
      → (total x t ≡ total x s) × (more ≡ true → rounds_wait mode local rs t ≡ true)
  unfolding rounds_wait
  one_round-total mode local capacity r rs s t more w h =
      let d = one_round-RoundDone mode local capacity r s t more h in
      let u = d.after_submit in
      let e = submit-total r.stop r.target s u d.submits in
      elim d.collects [
        | inl (p, same) ↦ (ap (total x) same ∙ e, λ q. absurd cc)
        | inr (p, c) ↦
            let busy : is_empty u.in_flight ≡ false = ground (arith, d.goes_on) in
            let (waits, later) = waited u d.submits busy c in
            (collect_all_of-total mode local r.finished u t waits c ∙ e, λ q. later)
      ]
    where
      waited :
          (u : Scheduler)
          → submit r.stop r.target s ≡ ok u
          → is_empty u.in_flight ≡ false
          → collect_all_of mode local r.finished u ≡ ok t
          → (are_waited r.finished u.in_flight ≡ true) × (rounds_wait mode local rs t ≡ true)
      waited u p b c = ground (arith, p, b, c, w)
