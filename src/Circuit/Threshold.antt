-- ===== src/Circuit/Threshold.antt =====
-- The count of consecutive failures of packages/ac-llm/src/ac_llm/gate.py: below the threshold while
-- the circuit is closed.
use ac_foundation.Prelude.{
  Bool-cases, Option, inl, inr, none, not, refl, some, ℕ, ◌<◌, ◌||◌, ◌≡◌, ◌≤◌, Bool, arith, false,
  if◌then◌else◌, leb, subst, sym, true, ◌+◌, ◌∙◌,
}
use ac_foundation.Circuit.{
  CircuitState, CircuitToken, FloatOps, circuit_contract, is_circuit_failure, FailureCategory,
  is_immediate,
}
use ac_foundation.Circuit.Outcomes.{
  GateOptions, ProviderFailure, failed_state, record_failure, record_success, closed_state,
  failure_round, failures_of, should_open, success_current, success_round,
}
use ac_foundation.Circuit.Recording.{
  Holds, no_state, read-Holds, Holds-written, a_state, after_success, success_current-writes,
}
use ac_foundation.Storage.{JsonFile, absent, holding}
use ac_foundation.Errors.{ok}
use ac_foundation.Storage.State.{read_state, encode_state}
use ac_foundation.Circuit.Opening.{circuit_rounds-done, failure_round-writes, some_ok}
use ac_foundation.Workers.{done}

-- The circuits that the outcomes of calls lead to, one at a time.
pub data Reached (ops : FloatOps) (options : GateOptions) : JsonFile → Type 0 where
  fresh : Reached ops options absent
  failed_call :
      {file : JsonFile}
      → Reached ops options file
      → (token : CircuitToken) (failure : ProviderFailure) (clock : ℕ → ℕ) (file' : JsonFile)
      → record_failure ops options clock (λ i f. f) 1 token failure file ≡ some (ok file')
      → Reached ops options file'
  succeeded_call :
      {file : JsonFile}
      → Reached ops options file
      → (token : CircuitToken) (file' : JsonFile)
      → record_success ops options (λ i f. f) 1 token file ≡ some (ok file')
      → Reached ops options file'

-- A closed circuit counts fewer failures than the threshold.
abbrev pub WithinThreshold : GateOptions → Option CircuitState → Type 0
WithinThreshold options none = Unit
WithinThreshold options (some s) =
    s.opened_until ≡ none → s.consecutive_failures < options.circuit_failure_threshold

-- The file is of such a circuit.
record Sound (ops : FloatOps) (options : GateOptions) (file : JsonFile) : Type 0 where
  circuit : Option CircuitState
  holds : Holds ops file circuit
  within : WithinThreshold options circuit

not_opened : (b : Bool) (p : ℕ) (o : Option ℕ) → (if b then some p else o) ≡ none → b ≡ false
not_opened b p o h = ground arith

should_open-below :
    (options : GateOptions) (token : CircuitToken) (category : FailureCategory)
    (o : Option CircuitState)
    → should_open options token category o ≡ false
    → failures_of o + 1 < options.circuit_failure_threshold
should_open-below options token category o h =
    below (is_immediate category) token.half_open_probe (failures_of o + 1)
      options.circuit_failure_threshold h
  where
    below : (a b : Bool) (m n : ℕ) → (a || b || leb n m) ≡ false → m < n
    below a b m n h = ground arith

module _ (ops : FloatOps) (options : GateOptions)
    (some_failures : 1 ≤ options.circuit_failure_threshold) where
  failed_state-within :
      (token : CircuitToken) (failure : ProviderFailure) (time : ℕ) (o : Option CircuitState)
      → WithinThreshold options (some (failed_state ops options token failure time o))
  unfolding failed_state
  failed_state-within token failure time o h =
      should_open-below options token failure.category o (not_opened _ _ _ h)

  closed_state-Sound :
      (s : CircuitState)
      → Sound ops options (holding (encode_state (circuit_contract ops) (closed_state s)))
  closed_state-Sound s = record {
    circuit = some (closed_state s);
    holds = Holds-written ops (closed_state s);
    within = λ h. omega (arith, some_failures);
  }

  either_Sound :
      (a b : Bool) (file g : JsonFile)
      → Sound ops options file
      → Sound ops options g
      → Sound ops options (if a then file else if b then file else g)
  either_Sound true b file g s t = s
  either_Sound false true file g s t = s
  either_Sound false false file g s t = t

  record_failure-Sound :
      (token : CircuitToken) (failure : ProviderFailure) (clock : ℕ → ℕ) (file file' : JsonFile)
      → Sound ops options file
      → record_failure ops options clock (λ i f. f) 1 token failure file ≡ some (ok file')
      → Sound ops options file'
  unfolding record_failure
  record_failure-Sound token failure clock file file' s e =
      subst (Sound ops options) (some_ok (sym written ∙ e)) (after skips)
    where
      skips : Bool
      skips = not options.enabled || not (is_circuit_failure failure.category)

      next : CircuitState
      next = failed_state ops options token failure (clock 0) s.circuit

      left : Bool → JsonFile
      left b = if b then file else holding (encode_state (circuit_contract ops) next)

      written :
          record_failure ops options clock (λ i f. f) 1 token failure file ≡ some (ok (left skips))
      written = elim (Bool-cases skips) [
        | inl y ↦ rw y refl
        | inr n ↦ rw n (
            circuit_rounds-done (failure_round ops options token failure clock) (λ i f. f) 0 0 file
              _ (failure_round-writes ops options token failure clock file s.circuit s.holds))
      ]

      after : (b : Bool) → Sound ops options (left b)
      after true = s
      after false = record {
        circuit = some next;
        holds = Holds-written ops next;
        within = failed_state-within token failure (clock 0) s.circuit;
      }

  success_round-Sound :
      (token : CircuitToken) (file : JsonFile) (o : Option CircuitState)
      → Holds ops file o
      → WithinThreshold options o
      → (g : JsonFile) × (success_round ops token 0 file file ≡ done g) × Sound ops options g
  unfolding success_round success_current
  success_round-Sound token file none (no_state e) w = (
    file,
    rw (read-Holds ops file none (no_state e)) refl,
    record { circuit = none; holds = no_state e; within = w },
  )
  success_round-Sound token file (some s) (a_state q e) w = (
    after_success ops options token s file,
    rw e (success_current-writes ops options token file s e),
    either_Sound _ _ file _ (record { circuit = some s; holds = a_state s e; within = w })
        (closed_state-Sound s),
  )

  record_success-Sound :
      (token : CircuitToken) (file file' : JsonFile)
      → Sound ops options file
      → record_success ops options (λ i f. f) 1 token file ≡ some (ok file')
      → Sound ops options file'
  unfolding record_success
  record_success-Sound token file file' s e =
      let (g, writes, sound) = success_round-Sound token file s.circuit s.holds s.within in
      subst (Sound ops options) (some_ok (sym (written g writes) ∙ e))
        (after g sound options.enabled)
    where
      written :
          (g : JsonFile)
          → success_round ops token 0 file file ≡ done g
          → record_success ops options (λ i f. f) 1 token file
            ≡ some (ok (if options.enabled then g else file))
      written g writes = elim (Bool-cases options.enabled) [
        | inl y ↦
            simp y (circuit_rounds-done (success_round ops token) (λ i f. f) 0 0 file g writes)
        | inr n ↦ simp n refl
      ]

      after :
          (g : JsonFile)
          → Sound ops options g
          → (b : Bool) → Sound ops options (if b then g else file)
      after g sound true = sound
      after g sound false = s

  Reached-Sound : {file : JsonFile} → Reached ops options file → Sound ops options file
  Reached-Sound fresh = record { circuit = none; holds = no_state refl; within = tt }
  Reached-Sound (failed_call h token failure clock file' e) =
      record_failure-Sound token failure clock _ file' (Reached-Sound h) e
  Reached-Sound (succeeded_call h token file' e) =
      record_success-Sound token _ file' (Reached-Sound h) e

-- In every circuit that calls lead to, starting from none, the file can be read, and a circuit that is
-- closed counts fewer failures than the threshold.
pub closed-below_threshold :
    (ops : FloatOps) (options : GateOptions) (file : JsonFile)
    → 1 ≤ options.circuit_failure_threshold
    → Reached ops options file
    → (o : Option CircuitState) × (read_state (circuit_contract ops) file ≡ ok o)
      × WithinThreshold options o
closed-below_threshold ops options file some_failures h =
    let s = Reached-Sound ops options some_failures h in
    (s.circuit, read-Holds ops file s.circuit s.holds, s.within)
