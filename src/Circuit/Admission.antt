-- ===== src/Circuit/Admission.antt =====
-- `_before_call` of packages/ac-llm/src/ac_llm/gate.py: which provider calls the circuit admits, and
-- the one call that probes a circuit whose deadline has passed.
use ac_foundation.Circuit.{
  CircuitState, CircuitToken, FailureCategory, FloatOps, authentication, circuit_contract,
  float_less, float_max, is_zero, quota, rate_limit, transport, unavailable,
}
use ac_foundation.Errors.{JobsError, Result, err, ok, run_busy}
use ac_foundation.Storage.{JsonFile}
use ac_foundation.Prelude.{Option, String, false, if◌then◌else◌, none, some, str_eq, true, ℕ, Bool}
use ac_foundation.LeasePool.{Pool, acquire, open_pool, release}
use ac_foundation.Storage.State.{read_state}

-- The state of the circuit and its probe pool: pool.json and the slots.
pub record CircuitFiles : Type 0 where
  pub circuit : JsonFile
  pub probe_file : JsonFile
  pub probe : Pool

-- `_open_failure`
pub record OpenFailure : Type 0 where
  pub category : FailureCategory
  pub retry_after_seconds : ℕ

-- How the call ends: a token, with the probe lease where it is a half-open probe.
pub data Admission : Type 0 where
  admitted : CircuitToken → Admission
  refused : OpenFailure → Admission
  failed : JobsError → Admission

-- `FailureCategory(state.category)` for the categories of `_CIRCUIT_FAILURES`.
abbrev pub circuit_category : Option String → FailureCategory
circuit_category none = unavailable
circuit_category (some t) =
    if str_eq t "authentication"
    then authentication
    else if str_eq t "quota"
    then quota
    else if str_eq t "rate_limit"
    then rate_limit
    else if str_eq t "transport"
    then transport
    else unavailable

-- `state.opened_until or now`
abbrev deadline_or : Option ℕ → ℕ → ℕ
deadline_or none time = time
deadline_or (some p) time = if is_zero p then time else p

unfoldable pub open_failure : FloatOps → CircuitState → ℕ → OpenFailure
open_failure ops s time = record {
  category = circuit_category s.category;
  retry_after_seconds = float_max 0 (ops.minus (deadline_or s.opened_until time) time);
}

abbrev opened_probe : CircuitFiles → Result (JsonFile × ℕ) → Result ℕ × CircuitFiles
opened_probe files (err e) = (err e, files)
opened_probe files (ok (file, capacity)) = (ok capacity, record files { probe_file = file })

abbrev pub taken_probe : CircuitFiles → Option (Result (ℕ × Pool)) → Result ℕ × CircuitFiles
taken_probe files none = (err run_busy, files)
taken_probe files (some (err e)) = (err e, files)
taken_probe files (some (ok (slot, pool))) = (ok slot, record files { probe = pool })

abbrev with_capacity : Result ℕ × CircuitFiles → Result ℕ × CircuitFiles
with_capacity (err e, files) = (err e, files)
with_capacity (ok capacity, files) =
    taken_probe files (acquire (λ i p. p) (λ i. ok tt) false capacity none 1 files.probe)

-- `BoundedLeasePool(..., 1).acquire(blocking=False)`, which takes one round.
unfoldable pub acquire_probe : CircuitFiles → Result ℕ × CircuitFiles
acquire_probe files = with_capacity (opened_probe files (open_pool 1 files.probe_file))

abbrev pub release_probe : ℕ → CircuitFiles → CircuitFiles
release_probe slot files = record files { probe = release slot files.probe }

-- The state that is read again while the probe lease is held.
unfoldable pub probe_state :
    FloatOps → ℕ → ℕ → CircuitFiles → Result (Option CircuitState) → Admission × CircuitFiles
probe_state ops time slot files (err e) = (failed e, release_probe slot files)
probe_state ops time slot files (ok none) =
    (admitted (record { epoch = 0; half_open_probe = false }), release_probe slot files)
probe_state ops time slot files (ok (some s)) = elim s.opened_until [
  | none ↦
      (admitted (record { epoch = s.epoch; half_open_probe = false }), release_probe slot files)
  | some until ↦
      if float_less time until
      then (refused (open_failure ops s time), release_probe slot files)
      else (admitted (record { epoch = s.epoch; half_open_probe = true }), files)
]

-- `except RunBusyError`
abbrev is_run_busy : JobsError → Bool
is_run_busy run_busy = true
is_run_busy _ = false

abbrev pub probed :
    FloatOps
    → (ℕ → ℕ)
    → (CircuitFiles → CircuitFiles)
    → CircuitState
    → Result ℕ × CircuitFiles
    → Admission × CircuitFiles
probed ops clock others s (err e, files) =
    if is_run_busy e then (refused (open_failure ops s (clock 0)), files) else (failed e, files)
probed ops clock others s (ok slot, files) =
    let seen = others files in
    probe_state ops (clock 1) slot seen (read_state (circuit_contract ops) seen.circuit)

-- `_before_call` from the state that it read first; `others 0` and `others 1` are what other
-- processes do before and after the probe lease is taken.
unfoldable pub before_state :
    FloatOps
    → (ℕ → ℕ)
    → (ℕ → CircuitFiles → CircuitFiles)
    → CircuitFiles
    → Result (Option CircuitState)
    → Admission × CircuitFiles
unfolding acquire_probe probe_state open_failure
before_state ops clock others files (err e) = (failed e, files)
before_state ops clock others files (ok none) =
    (admitted (record { epoch = 0; half_open_probe = false }), files)
before_state ops clock others files (ok (some s)) = elim s.opened_until [
  | none ↦ (admitted (record { epoch = s.epoch; half_open_probe = false }), files)
  | some until ↦
      if float_less (clock 0) until
      then (refused (open_failure ops s (clock 0)), files)
      else probed ops clock (others 1) s (acquire_probe (others 0 files))
]

-- `_before_call`
unfoldable pub before_call :
    FloatOps → (ℕ → ℕ) → (ℕ → CircuitFiles → CircuitFiles) → CircuitFiles → Admission × CircuitFiles
unfolding before_state
before_call ops clock others files =
    before_state ops clock others files (read_state (circuit_contract ops) files.circuit)
