-- ===== src/Circuit/Outcomes.antt =====
-- `_record_success` and `_record_failure` of packages/ac-llm/src/ac_llm/gate.py: what the outcome of
-- an admitted call does to the file of the circuit.
use ac_foundation.Prelude.{
  Bool, Option, if◌then◌else◌, is_none, leb, none, not, some, suc, zero, ℕ, ◌&&◌, ◌+◌, ◌==◌, ◌||◌,
}
use ac_foundation.Circuit.{
  CircuitState, CircuitToken, FailureCategory, FloatOps, category_value, circuit_contract,
  float_max, float_min, is_circuit_failure, is_immediate,
}
use ac_foundation.Storage.{JsonFile}
use ac_foundation.Errors.{Result, err, ok}
use ac_foundation.Workers.{
  Round, again, done, from_read, is_revision_conflict, is_state_conflict, raised, retry_on,
}
use ac_foundation.Storage.State.{create_state, read_state, swap_state}

-- What the circuit reads of `ProviderGateOptions` and of `ProviderFailure`.
pub record GateOptions : Type 0 where
  pub enabled : Bool
  pub circuit_failure_threshold : ℕ
  pub circuit_cooldown_seconds : ℕ

pub record ProviderFailure : Type 0 where
  pub category : FailureCategory
  pub retry_after_seconds : Option ℕ

abbrev pub closed_state : CircuitState → CircuitState
closed_state s = record s {
  revision = s.revision + 1;
  consecutive_failures = 0;
  opened_until = none;
  category = none;
}

abbrev kept_file : {A : Type 0} → Result (JsonFile × A) → Result JsonFile
kept_file (ok (file, a)) = ok file
kept_file (err e) = err e

-- The body of the loop in `_record_success`; `file` is the file once others have had their turn.
unfoldable pub success_current :
    FloatOps → CircuitToken → JsonFile → Option CircuitState → Round JsonFile
success_current ops token file none = done file
success_current ops token file (some s) =
    let written =
      retry_on is_revision_conflict file
        (kept_file (swap_state (circuit_contract ops) file s.revision (closed_state s))) in
    if not (s.epoch == token.epoch)
    then done file
    else if s.consecutive_failures == 0 && is_none s.opened_until
    then done file
    else written

unfoldable pub success_round : FloatOps → CircuitToken → ℕ → JsonFile → JsonFile → Round JsonFile
success_round ops token i file file' =
    from_read (read_state (circuit_contract ops) file) (success_current ops token file')

-- The loop `while True` with fuel; `others i` is what other processes do to the file between the
-- read and the write of round `i`.
unfoldable pub circuit_rounds :
    (ℕ → JsonFile → JsonFile → Round JsonFile)
    → (ℕ → JsonFile → JsonFile)
    → ℕ
    → ℕ
    → JsonFile
    → Option (Result JsonFile)
circuit_rounds round others zero i file = none
circuit_rounds round others (suc fuel) i file = elim (round i file (others i file)) [
  | done a ↦ some (ok a)
  | raised e ↦ some (err e)
  | again file' ↦ circuit_rounds round others fuel (i + 1) file'
]

-- `_record_success`: the file afterwards.
unfoldable pub record_success :
    FloatOps
    → GateOptions
    → (ℕ → JsonFile → JsonFile)
    → ℕ
    → CircuitToken
    → JsonFile
    → Option (Result JsonFile)
unfolding success_round success_current
record_success ops options others fuel token file =
    let loop = circuit_rounds (success_round ops token) others fuel 0 file in
    if options.enabled then loop else some (ok file)

abbrev pub failures_of : Option CircuitState → ℕ
failures_of none = 0
failures_of (some s) = s.consecutive_failures

abbrev pub epoch_of : Option CircuitState → ℕ
epoch_of none = 0
epoch_of (some s) = s.epoch

abbrev pub opened_of : Option CircuitState → Option ℕ
opened_of none = none
opened_of (some s) = s.opened_until

abbrev pub next_revision : Option CircuitState → ℕ
next_revision none = 0
next_revision (some s) = s.revision + 1

abbrev pub should_open : GateOptions → CircuitToken → FailureCategory → Option CircuitState → Bool
should_open options token category state =
    is_immediate category
    || token.half_open_probe
    || leb options.circuit_failure_threshold (failures_of state + 1)

-- The time that the circuit stays open; 3600.0 and 1.0 bound what the provider asks for.
abbrev pub cooldown : GateOptions → Option ℕ → ℕ
cooldown options none = options.circuit_cooldown_seconds
cooldown options (some retry_after) =
    float_min 0x40AC200000000000 (float_max 0x3FF0000000000000 retry_after)

-- `next_state` of `_record_failure`
unfoldable pub failed_state :
    FloatOps → GateOptions → CircuitToken → ProviderFailure → ℕ → Option CircuitState → CircuitState
failed_state ops options token failure now state =
    let opens = should_open options token failure.category state in
    record {
      revision = next_revision state;
      consecutive_failures = failures_of state + 1;
      epoch = if opens then epoch_of state + 1 else epoch_of state;
      opened_until =
          if opens
          then some (ops.plus now (cooldown options failure.retry_after_seconds))
          else opened_of state;
      category = some (category_value failure.category);
    }

-- The body of the loop in `_record_failure`.
unfoldable pub failure_current :
    FloatOps
    → GateOptions
    → CircuitToken
    → ProviderFailure
    → ℕ
    → JsonFile
    → Option CircuitState
    → Round JsonFile
unfolding failed_state
failure_current ops options token failure now file none = retry_on is_state_conflict file (
    kept_file
      (create_state (circuit_contract ops) file (failed_state ops options token failure now none)))
failure_current ops options token failure now file (some s) = retry_on is_state_conflict file (
    kept_file (
      swap_state (circuit_contract ops) file s.revision
        (failed_state ops options token failure now (some s))))

unfoldable pub failure_round :
    FloatOps
    → GateOptions
    → CircuitToken
    → ProviderFailure
    → (ℕ → ℕ)
    → ℕ
    → JsonFile
    → JsonFile
    → Round JsonFile
failure_round ops options token failure clock i file file' =
    from_read (read_state (circuit_contract ops) file)
      (failure_current ops options token failure (clock i) file')

-- `_record_failure`: the file afterwards; `clock i` is the time that round `i` reads.
unfoldable pub record_failure :
    FloatOps
    → GateOptions
    → (ℕ → ℕ)
    → (ℕ → JsonFile → JsonFile)
    → ℕ
    → CircuitToken
    → ProviderFailure
    → JsonFile
    → Option (Result JsonFile)
unfolding failure_round failure_current
record_failure ops options clock others fuel token failure file =
    let loop = circuit_rounds (failure_round ops options token failure clock) others fuel 0 file in
    if not options.enabled || not (is_circuit_failure failure.category)
    then some (ok file)
    else loop
