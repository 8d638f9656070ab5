-- ===== src/Circuit/Ending.antt =====
-- The end of the loops of `_record_success` and `_record_failure`
-- (packages/ac-llm/src/ac_llm/gate.py).
use native.Mathlib.Decide.{dec_lt}
use ac_foundation.Prelude.{
  Bool-cases, Option, arith, inl, inr, none, not, refl, some, subst, suc, zero, ℕ, ◌+◌, ◌<◌, ◌||◌,
  ◌≡◌, ◌≢◌, ◌≤◌,
}
use ac_foundation.Circuit.{
  CircuitState, CircuitToken, FloatOps, circuit_contract, is_circuit_failure,
}
use ac_foundation.Circuit.Outcomes.{
  GateOptions, ProviderFailure, circuit_rounds, failure_current, failure_round, record_failure,
  record_success, success_current, success_round,
}
use ac_foundation.Storage.{JsonFile}
use ac_foundation.Errors.{Result, err, ok}
use ac_foundation.Workers.{Round, again, done, from_read, raised}
use ac_foundation.Circuit.Recording.{
  failure_current-writes, read_state-Holds, success_current-writes,
}
use ac_foundation.Storage.State.{read_state}

none_done :
    (ops : FloatOps) (token : CircuitToken) (file g : JsonFile)
    → success_current ops token file none ≢ again g
unfolding success_current
none_done ops token file g p = absurd cc

-- A round on a file that nobody else writes meanwhile ends the loop.
pub record Decides (round : ℕ → JsonFile → JsonFile → Round JsonFile) : Type 0 where
  pub decided : (i : ℕ) (file g : JsonFile) → round i file file ≢ again g

module _ (ops : FloatOps) (options : GateOptions) (token : CircuitToken) where
  success-Decides : Decides (success_round ops token)
  unfolding success_round
  success-Decides = record { decided = λ i file g. from_current file g _ refl }
    where
      from_current :
          (file g : JsonFile) (m : Result (Option CircuitState))
          → read_state (circuit_contract ops) file ≡ m
          → from_read m (success_current ops token file) ≢ again g
      from_current file g (err e) r p = cc
      from_current file g (ok none) r p = absurd (none_done ops token file g p)
      from_current file g (ok (some s)) r p =
          let w = success_current-writes ops options token file s r in cc

  failure-Decides :
      (failure : ProviderFailure) (clock : ℕ → ℕ)
      → Decides (failure_round ops options token failure clock)
  unfolding failure_round
  failure-Decides failure clock = record { decided = λ i file g. from_current i file g _ refl }
    where
      from_current :
          (i : ℕ) (file g : JsonFile) (m : Result (Option CircuitState))
          → read_state (circuit_contract ops) file ≡ m
          → from_read m (failure_current ops options token failure (clock i) file) ≢ again g
      from_current i file g (err e) r p = cc
      from_current i file g (ok o) r p =
          let w =
            failure_current-writes ops options token failure (clock i) file o
              (read_state-Holds ops file o r) in
          cc

-- From round `k` on nobody else writes.
pub record QuietFrom (others : ℕ → JsonFile → JsonFile) (k : ℕ) : Type 0 where
  pub quiet : (i : ℕ) (file : JsonFile) → k ≤ i → others i file ≡ file

circuit_rounds-ends :
    (round : ℕ → JsonFile → JsonFile → Round JsonFile) (others : ℕ → JsonFile → JsonFile)
    (k fuel i : ℕ) (file : JsonFile)
    → Decides round
    → QuietFrom others k
    → i ≤ k
    → k < fuel + i
    → (r : Result JsonFile) × (circuit_rounds round others fuel i file ≡ some r)
unfolding circuit_rounds
circuit_rounds-ends round others k zero i file d q h p = absurd (omega arith)
circuit_rounds-ends round others k (suc fuel) i file d q h p =
    after (round i file (others i file)) refl
      (λ g below. circuit_rounds-ends round others k fuel (i + 1) g d q (omega arith) (omega arith))
  where
    after :
        (r : Round JsonFile)
        → round i file (others i file) ≡ r
        → ((g : JsonFile)
            → i < k
            → (out : Result JsonFile) × (circuit_rounds round others fuel (i + 1) g ≡ some out))
        → (out : Result JsonFile) × ((elim r [
          | done a ↦ some (ok a)
          | raised e ↦ some (err e)
          | again g ↦ circuit_rounds round others fuel (i + 1) g
        ])
            ≡ some out)
    after (done a) e rec = (ok a, refl)
    after (raised x) e rec = (err x, refl)
    after (again g) e rec = elim (dec_lt i k) [
      | yes below ↦ rec g below
      | no reached ↦ absurd (
          d.decided i file g
            (subst (λ f. round i file f ≡ again g) (q.quiet i file (omega arith)) e))
    ]

-- Both loops return or raise once the other processes leave the file alone from some round on.
pub record_outcome-ends :
    (ops : FloatOps) (options : GateOptions) (token : CircuitToken) (failure : ProviderFailure)
    (clock : ℕ → ℕ) (others : ℕ → JsonFile → JsonFile) (k : ℕ) (file : JsonFile)
    → QuietFrom others k
    → ((r : Result JsonFile) × (record_success ops options others (suc k) token file ≡ some r))
      × ((r : Result JsonFile) × (record_failure ops options clock others (suc k) token failure file
            ≡ some r))
unfolding record_success record_failure
record_outcome-ends ops options token failure clock others k file q = (
  elim (Bool-cases options.enabled) [
    | inl y ↦ rw y (
        circuit_rounds-ends _ others k (suc k) 0 file (success-Decides ops options token) q
          (omega arith) (omega arith))
    | inr n ↦ rw n (ok file, refl)
  ],
  elim (Bool-cases (not options.enabled || not (is_circuit_failure failure.category))) [
    | inl y ↦ rw y (ok file, refl)
    | inr n ↦ rw n (
        circuit_rounds-ends _ others k (suc k) 0 file
          (failure-Decides ops options token failure clock) q (omega arith) (omega arith))
  ],
)
