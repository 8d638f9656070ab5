-- ===== src/Tests/Schedules.antt =====
-- A group of three units on one worker.
use ac_foundation.Models.{Awaiting}
use ac_foundation.Prelude.{
  Bool, String, [], arith, eq_iff, false, length, none, refl, some, true, ◌∷◌, ◌≡◌, ◌≤◌, List, ◌+◌,
  ◌⊎◌,
}
use ac_foundation.Groups.Schedule.{
  LoopRound, Scheduler, collect, collect_all_of, fail_fast, initial_schedule, is_empty, one_round,
  run_rounds, submit,
}
use ac_foundation.Groups.{UnitResult, WorkUnit, unit_finished}
use ac_foundation.Groups.Schedule.FailFast.{fail_fast-stops}
use ac_foundation.Json.{null}
use ac_foundation.Errors.{ok}
use ac_foundation.Groups.Schedule.Limit.{one_round-limit}
use ac_foundation.Groups.Schedule.Counting.{rounds_wait, times_collected, times_unit, are_waited}
use ac_foundation.Groups.Schedule.Completion.{run_rounds-collects}

abbrev named_unit : String → WorkUnit
named_unit unit_id = record { unit_id = unit_id; semantic_input = null }

abbrev result_of : String → String → UnitResult
result_of unit_id status = record {
  unit_id = unit_id;
  status = status;
  value = null;
  error = none;
  replayed = false;
}

abbrev never : Awaiting → Bool
never a = false

abbrev round_ending : String → String → LoopRound
round_ending unit_id status = record {
  checkpoint = ok tt;
  target = 1;
  stop = λ n. ok tt;
  finished = (named_unit unit_id, ok (unit_finished (result_of unit_id status))) ∷ [];
}

abbrev three_units : Scheduler
three_units = initial_schedule fail_fast (named_unit "a" ∷ named_unit "b" ∷ named_unit "c" ∷ []) []

abbrev one_of_three : Scheduler
one_of_three = record three_units {
  pending = named_unit "b" ∷ named_unit "c" ∷ [];
  results = result_of "a" "succeeded" ∷ [];
}

first_round :
    one_round fail_fast never 2 (round_ending "a" "succeeded") three_units ≡ ok (true, one_of_three)
unfolding one_round submit collect_all_of collect
first_round = refl

one_round-limit_example : length one_of_three.in_flight ≤ 2
one_round-limit_example =
    one_round-limit fail_fast never 2 (round_ending "a" "succeeded") three_units one_of_three true
      (omega arith) first_round

abbrev stopped_schedule : Scheduler
stopped_schedule = record one_of_three {
  pending = named_unit "c" ∷ [];
  results = result_of "b" "failed" ∷ result_of "a" "succeeded" ∷ [];
  stop_submitting = true;
}

whole_run :
    run_rounds fail_fast never 2
      (round_ending "a" "succeeded" ∷ round_ending "b" "failed" ∷ round_ending "c" "succeeded" ∷ [])
      three_units
    ≡ some (ok stopped_schedule)
unfolding run_rounds one_round submit collect_all_of collect
whole_run = refl

abbrev all_rounds : List LoopRound
all_rounds =
    round_ending "a" "succeeded" ∷ round_ending "b" "failed" ∷ round_ending "c" "succeeded" ∷ []

all_wait : rounds_wait fail_fast never all_rounds three_units ≡ true
unfolding rounds_wait submit are_waited collect_all_of collect
all_wait = refl

run_rounds-collects_example :
    (times_unit "b" stopped_schedule.pending + times_collected "b" stopped_schedule
      ≡ times_unit "b" three_units.pending
        + times_unit "b" three_units.in_flight
        + times_collected "b" three_units)
    × ((is_empty stopped_schedule.pending ≡ true) ⊎ (stopped_schedule.stop_submitting ≡ true))
run_rounds-collects_example =
    run_rounds-collects "b" fail_fast never 2 all_rounds three_units stopped_schedule all_wait
      whole_run

abbrev b_in_flight : Scheduler
b_in_flight = record one_of_three { pending = named_unit "c" ∷ []; in_flight = named_unit "b" ∷ [] }

after_failure :
    run_rounds fail_fast never 2 (round_ending "c" "succeeded" ∷ []) (
      collect fail_fast never (named_unit "b") (unit_finished (result_of "b" "failed")) b_in_flight)
    ≡ some (ok stopped_schedule)
unfolding run_rounds one_round submit collect_all_of collect
after_failure = refl

fail_fast-stops_example : stopped_schedule.pending ≡ b_in_flight.pending
fail_fast-stops_example =
    fail_fast-stops never 2 (round_ending "c" "succeeded" ∷ []) (named_unit "b")
      (result_of "b" "failed") b_in_flight stopped_schedule
      (λ e. ground (arith, eq_iff "failed" "succeeded", e)) after_failure
