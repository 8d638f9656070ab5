-- ===== src/LeasePool.antt =====
-- `BoundedLeasePool` of packages/ac-jobs/src/ac_jobs/lease_pool.py: an expandable number of slots,
-- one lock file for each, of which at most a limit is held at a time.
pub mod Capacity
pub mod Scan
pub mod Limits
pub mod Waiting
use ac_foundation.Prelude.{
  Bool, Option, [], false, if◌then◌else◌, ltb, none, not, some, suc, true, zero, ℕ, ◌+◌, ◌==◌, ◌||◌,
  ◌∷◌,
}
use ac_foundation.Json.{Fields, JsonValue, end, field, get, int, pos, require_fields, str}
use ac_foundation.Storage.{JsonFile, absent, holding, read_json_object}
use ac_foundation.Errors.{
  Result, corrupt_state, err, ok, raise_if, run_busy, value_error, ◌>>=◌, ◌>>◌,
}
use ac_foundation.Snapshot.Codec.{is_text}
use ac_foundation.Repository.Directory.Rules.{persisted}
use ac_foundation.Engine.Attempts.{taken}

-- What the pool keeps: pool.json, and which lock files are held by some process.
pub record Pool : Type 0 where
  pub pool_file : JsonFile
  pub acquiring : Bool  -- acquire.lock
  pub slots : ℕ → Bool  -- slots/{slot}.lock

abbrev pub pool_document : ℕ → Fields
pool_document capacity =
    field "schema_version" (str "ac.jobs.bounded_lease_pool.v1")
      (field "capacity" (int (pos capacity)) end)

-- An int of at least 1
abbrev positive_capacity : JsonValue → Result ℕ
positive_capacity (int (pos (suc n))) = ok (suc n)
positive_capacity _ = err corrupt_state

-- The capacity that a document of pool.json holds.
unfoldable pub persisted_capacity : Fields → Result ℕ
persisted_capacity fs = do
  require_fields fs ("schema_version" ∷ "capacity" ∷ []) []
  raise_if (not (is_text "ac.jobs.bounded_lease_pool.v1" (get "schema_version" fs))) corrupt_state
  positive_capacity (get "capacity" fs)

-- `_bind_capacity`, under initialize.lock: the file afterwards and the capacity of the pool.
unfoldable pub bind_capacity : ℕ → JsonFile → Result (JsonFile × ℕ)
bind_capacity requested absent = ok (holding (pool_document requested), requested)
bind_capacity requested file = do
  fs ← read_json_object file
  persisted ← persisted_capacity fs
  if ltb persisted requested
      then ok (holding (pool_document requested), requested)
      else ok (file, persisted)

-- `BoundedLeasePool.__init__`
unfoldable pub open_pool : ℕ → JsonFile → Result (JsonFile × ℕ)
open_pool capacity file = if capacity == 0 then err value_error else bind_capacity capacity file

abbrev pub first_slot : Option ℕ → ℕ → Option ℕ
first_slot none slot = some slot
first_slot (some candidate) slot = some candidate

-- `for slot in range(self.capacity)`: how many slots are held, and the first that is not. The other
-- free slots are probed and released again.
unfoldable pub scan : (ℕ → Bool) → ℕ → ℕ → ℕ × Option ℕ → ℕ × Option ℕ
scan slots zero slot seen = seen
scan slots (suc n) slot (held, candidate) =
    scan slots n (slot + 1)
      (if slots slot then (held + 1, candidate) else (held, first_slot candidate slot))

abbrev pub take_slot : ℕ → (ℕ → Bool) → ℕ → Bool
take_slot slot slots i = if i == slot then true else slots i

abbrev pub free_slot : ℕ → (ℕ → Bool) → ℕ → Bool
free_slot slot slots i = if i == slot then false else slots i

unfoldable pub choose : ℕ → Pool → ℕ × Option ℕ → Option ℕ × Pool
choose limit p (held, none) = (none, p)
choose limit p (held, some slot) =
    if ltb held limit then (some slot, record p { slots = take_slot slot p.slots }) else (none, p)

-- One round of `acquire`: the slot that is taken, if any. Another process may be at its own round.
unfoldable pub acquire_round : ℕ → ℕ → Pool → Option ℕ × Pool
unfolding choose
acquire_round capacity limit p =
    if p.acquiring then (none, p) else choose limit p (scan p.slots capacity 0 (0, none))

abbrev pub eligible : Option ℕ → ℕ → ℕ
eligible none capacity = capacity
eligible (some limit) capacity = limit

-- `while True` in `acquire`, with fuel; `others i` is what other processes do to the pool while the
-- call sleeps after round `i`, `checkpoint i` the caller's checkpoint before it.
unfoldable pub acquire_rounds :
    (ℕ → Pool → Pool)
    → (ℕ → Result (Unit {0}))
    → Bool
    → ℕ
    → ℕ
    → ℕ
    → ℕ
    → Pool
    → Option (Result (ℕ × Pool))
acquire_rounds others checkpoint blocking capacity limit zero i p = none
acquire_rounds others checkpoint blocking capacity limit (suc fuel) i p =
    let (taken, q) = acquire_round capacity limit p in
    let rest = acquire_rounds others checkpoint blocking capacity limit fuel (i + 1) (others i q) in
    elim (checkpoint i) [
      | err e ↦ some (err e)
      | ok t ↦ elim taken [
        | some slot ↦ some (ok (slot, q))
        | none ↦ if blocking then rest else some (err run_busy)
      ]
    ]

-- `acquire`
unfoldable pub acquire :
    (ℕ → Pool → Pool)
    → (ℕ → Result (Unit {0}))
    → Bool
    → ℕ
    → Option ℕ
    → ℕ
    → Pool
    → Option (Result (ℕ × Pool))
unfolding acquire_rounds
acquire others checkpoint blocking capacity limit fuel p =
    let wanted = eligible limit capacity in
    if wanted == 0 || ltb capacity wanted
    then some (err value_error)
    else acquire_rounds others checkpoint blocking capacity wanted fuel 0 p

-- `BoundedLease.release`
unfoldable pub release : ℕ → Pool → Pool
release slot p = record p { slots = free_slot slot p.slots }
