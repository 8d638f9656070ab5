-- ===== src/Groups/Schedule.antt =====
-- The loop of `WorkGroupRunner.run` (packages/ac-jobs/src/ac_jobs/groups.py) that submits units to
-- the executor and collects what they return.
mod Rounds
pub mod Limit
pub mod Counting
pub mod Completion
pub mod FailFast
use ac_foundation.Models.{Awaiting, pending}
use ac_foundation.Prelude.{
  Bool, List, Option, String, [], false, if◌then◌else◌, length, ltb, none, not, some, str_eq, true,
  ℕ, ◌&&◌, ◌++◌, ◌==◌, ◌||◌, ◌∷◌,
}
use ac_foundation.Groups.{Outcome, UnitResult, WorkUnit, unit_finished, unit_paused}
use ac_foundation.Errors.{Result, err, ok, raise_if, value_error, ◌>>=◌, ◌>>◌}
use ac_foundation.Engine.{checkpoint}

pub data FailureMode : Type 0 where
  collect_all fail_fast : FailureMode

-- A submitted unit stays in flight until its future is collected. `results` and `pauses` have the
-- newest first.
pub record Scheduler : Type 0 where
  pub pending : List WorkUnit
  pub in_flight : List WorkUnit
  pub results : List UnitResult
  pub pauses : List (String × Awaiting)
  pub local_pauses : List String
  pub stop_submitting : Bool

abbrev any_failed : List UnitResult → Bool
any_failed [] = false
any_failed (r ∷ rs) = not (str_eq r.status "succeeded") || any_failed rs

-- The state before the loop, from the units that were not replayed and the results that were.
abbrev pub initial_schedule : FailureMode → List WorkUnit → List UnitResult → Scheduler
initial_schedule mode units replayed = record {
  pending = units;
  in_flight = [];
  results = replayed;
  pauses = [];
  local_pauses = [];
  stop_submitting = elim mode [ collect_all ↦ false | fail_fast ↦ any_failed replayed ];
}

abbrev submitted : WorkUnit → List WorkUnit → Scheduler → Scheduler
submitted unit rest s = record s { pending = rest; in_flight = s.in_flight ++ unit ∷ [] }

-- `while pending and len(in_flight) < target and not stop_submitting`. `stop n` is what the stop
-- token says when `n` units are in flight.
unfoldable submit_from : (ℕ → Result (Unit {0})) → ℕ → List WorkUnit → Scheduler → Result Scheduler
submit_from stop target [] s = ok s
submit_from stop target (unit ∷ rest) s =
    let more = submit_from stop target rest (submitted unit rest s) in
    if ltb (length s.in_flight) target && not s.stop_submitting
    then (do stop (length s.in_flight); more)
    else ok s

unfoldable pub submit : (ℕ → Result (Unit {0})) → ℕ → Scheduler → Result Scheduler
unfolding submit_from
submit stop target s = submit_from stop target s.pending s

-- `in_flight.pop(future)`
abbrev pub remove_unit : String → List WorkUnit → List WorkUnit
remove_unit unit_id [] = []
remove_unit unit_id (u ∷ us) = if str_eq u.unit_id unit_id then us else u ∷ remove_unit unit_id us

abbrev pub halts : FailureMode → UnitResult → Bool
halts collect_all r = false
halts fail_fast r = not (str_eq r.status "succeeded")

-- What the loop over `finished` does with one future. `local` is `continue_after_pause`.
unfoldable pub collect :
    FailureMode → (Awaiting → Bool) → WorkUnit → Outcome → Scheduler → Scheduler
collect mode local unit (unit_paused awaiting) s = record s {
  in_flight = remove_unit unit.unit_id s.in_flight;
  pauses = (unit.unit_id, awaiting) ∷ s.pauses;
  local_pauses = if local awaiting then unit.unit_id ∷ s.local_pauses else s.local_pauses;
  stop_submitting = s.stop_submitting || not (local awaiting);
}
collect mode local unit (unit_finished result) s = record s {
  in_flight = remove_unit unit.unit_id s.in_flight;
  results = result ∷ s.results;
  stop_submitting = s.stop_submitting || halts mode result;
}

-- `for future in finished`: an exception of a future ends the run.
unfoldable pub collect_all_of :
    FailureMode
    → (Awaiting → Bool)
    → List (WorkUnit × Result Outcome)
    → Scheduler
    → Result Scheduler
collect_all_of mode local [] s = ok s
collect_all_of mode local ((unit, err e) ∷ finished) s = err e
collect_all_of mode local ((unit, ok outcome) ∷ finished) s =
    collect_all_of mode local finished (collect mode local unit outcome s)

-- What one round of the loop meets: the checkpoint, the target, the stop token, and the futures
-- that have finished when `wait` returns.
pub record LoopRound : Type 0 where
  pub checkpoint : Result (Unit {0})
  pub target : ℕ
  pub stop : ℕ → Result (Unit {0})
  pub finished : List (WorkUnit × Result Outcome)

abbrev pub is_empty : List WorkUnit → Bool
is_empty [] = true
is_empty (u ∷ us) = false

-- The body of `while pending or in_flight`: the schedule, and whether the loop goes on.
unfoldable pub one_round :
    FailureMode → (Awaiting → Bool) → ℕ → LoopRound → Scheduler → Result (Bool × Scheduler)
one_round mode local capacity r s = do
  r.checkpoint
  raise_if (r.target == 0 || ltb capacity r.target) value_error
  t ← submit r.stop r.target s
  if is_empty t.in_flight
      then ok (false, t)
      else (do u ← collect_all_of mode local r.finished t; ok (true, u))

-- The loop, over the rounds that happen; `none` when they end before the loop does.
unfoldable pub run_rounds :
    FailureMode → (Awaiting → Bool) → ℕ → List LoopRound → Scheduler → Option (Result Scheduler)
run_rounds mode local capacity [] s =
    if is_empty s.pending && is_empty s.in_flight then some (ok s) else none
run_rounds mode local capacity (r ∷ rs) s =
    if is_empty s.pending && is_empty s.in_flight
    then some (ok s)
    else elim (one_round mode local capacity r s) [
      | err e ↦ some (err e)
      | ok (true, t) ↦ run_rounds mode local capacity rs t
      | ok (false, t) ↦ some (ok t)
    ]
