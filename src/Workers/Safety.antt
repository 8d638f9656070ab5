-- ===== src/Workers/Safety.antt =====
-- Whatever other processes do to the file between a read and a write, the loops of
-- packages/ac-jobs/src/ac_jobs/group_workers.py return only sound controls.
use ac_foundation.Prelude.{
  Bool-cases, Option, String, arith, inl, inr, leb, none, some, subst, sym, true, ℕ, ◌≡◌, ◌≤◌,
}
use ac_foundation.Json.{Fields, get}
use ac_foundation.Workers.{
  GroupWorkerControl, decode_control, initialize_current, initialize_group_workers,
  initialize_round, is_revision_conflict, is_state_conflict, worker_contract,
}
use ac_foundation.Workers.Contract.{IsSound, decode-IsSound}
use ac_foundation.Errors.{Result-cases, ok}
use ac_foundation.Storage.{JsonFile, absent, damaged, holding}
use ac_foundation.Identity.{codes, matches_simple_id}
use ac_foundation.Storage.State.{create_state, decode_state, read_state, swap_state}
use ac_foundation.Snapshot.Codec.{object}
use ac_foundation.Workers.Loops.{RoundGives, loop_gives, read_gives, retry_gives}

decode_state-decode :
    (fs : Fields) (c : GroupWorkerControl)
    → decode_state worker_contract fs ≡ ok c
    → (gs : Fields) × (decode_control gs ≡ ok c)
unfolding decode_state
decode_state-decode fs c h = elim (Result-cases (object (get "value" fs))) [
  | inl (gs, e) ↦ (gs, ground arith)
  | inr (x, e) ↦ absurd (ground arith)
]

-- What the file of a group holds is sound.
pub read_state-IsSound :
    (file : JsonFile) (c : GroupWorkerControl)
    → read_state worker_contract file ≡ ok (some c)
    → IsSound c
unfolding read_state
read_state-IsSound absent c h = absurd (ground arith)
read_state-IsSound damaged c h = absurd (ground arith)
read_state-IsSound (holding fs) c h =
    let (gs, e) = decode_state-decode fs c (ground arith) in decode-IsSound gs c e

-- What `initialize_group_workers` promises of the control that it returns.
pub record Settled (c : GroupWorkerControl) (capacity : ℕ) : Type 0 where
  pub sound : IsSound c
  pub enough : capacity ≤ c.capacity

abbrev SettledAt : ℕ → JsonFile × GroupWorkerControl → Type 0
SettledAt capacity (file, c) = Settled c capacity

-- A write that goes through returns the value that was to be written.
create_state-value :
    (file : JsonFile) (v : GroupWorkerControl) {file' : JsonFile} {c : GroupWorkerControl}
    → create_state worker_contract file v ≡ ok (file', c)
    → c ≡ v
unfolding create_state
create_state-value file v h = ground arith

pub swap_state-value :
    (file : JsonFile) (r : ℕ) (v : GroupWorkerControl) {file' : JsonFile} {c : GroupWorkerControl}
    → swap_state worker_contract file r v ≡ ok (file', c)
    → c ≡ v
unfolding swap_state
swap_state-value file r v h = ground arith

module _ (group_id : String) (target capacity : ℕ)
    (named : matches_simple_id (codes group_id) ≡ true) (positive_target : 1 ≤ target)
    (fits : target ≤ capacity) where
  current_settles :
      (file file' : JsonFile) (current : Option GroupWorkerControl)
      → read_state worker_contract file ≡ ok current
      → RoundGives (SettledAt capacity) (initialize_current group_id target capacity file' current)
  unfolding initialize_current
  current_settles file file' none e =
      retry_gives (SettledAt capacity) is_state_conflict file' _ λ a h.
        subst (λ x. Settled x capacity) (sym (create_state-value file' _ h))
          (record {
            sound = record { named = named; some_worker = positive_target; within = fits };
            enough = omega arith;
          })
  current_settles file file' (some c) e =
      let s = read_state-IsSound file c e in
      elim (Bool-cases (leb capacity c.capacity)) [
        | inl large ↦ rw large (record { sound = s; enough = ground arith })
        | inr small ↦ rw small (
            retry_gives (SettledAt capacity) is_revision_conflict file' _ λ a h.
              subst (λ x. Settled x capacity) (sym (swap_state-value file' c.revision _ h))
                (record {
                  sound = record {
                    named = s.named;
                    some_worker = s.some_worker;
                    within = ground (arith, s.within);
                  };
                  enough = omega arith;
                }))
      ]

  round_settles :
      (file file' : JsonFile)
      → RoundGives (SettledAt capacity) (initialize_round group_id target capacity file file')
  unfolding initialize_round
  round_settles file file' =
      read_gives (SettledAt capacity) (read_state worker_contract file) _
        (current_settles file file')

-- A control that `initialize_group_workers` returns has a valid name, at least one worker and at
-- most its capacity, which is at least the capacity that was asked for.
pub initialize-Settled :
    (others : ℕ → JsonFile → JsonFile) (fuel : ℕ) (group_id : String) (target capacity : ℕ)
    (file : JsonFile) {file' : JsonFile} {c : GroupWorkerControl}
    → initialize_group_workers others fuel group_id target capacity file ≡ some (ok (file', c))
    → Settled c capacity
unfolding initialize_group_workers
initialize-Settled others fuel group_id target capacity file {file'} {c} h =
    loop_gives (SettledAt capacity) (initialize_round group_id target capacity)
      (round_settles group_id target capacity (ground arith) (ground arith) (ground arith)) others
      fuel 0 file (file', c) (ground arith)
