-- ===== src/Circuit/Recording.antt =====
-- One round of `_record_success` and `_record_failure` (packages/ac-llm/src/ac_llm/gate.py) on a
-- readable circuit that nobody else writes.
use ac_foundation.Errors.{>>=-eq-ok, ok}
use ac_foundation.Prelude.{
  Bool-cases, Option, arith, inl, inr, is_none, none, refl, some, ℕ, ◌&&◌, ◌==◌, ◌≡◌, if◌then◌else◌,
  not,
}
use ac_foundation.Circuit.{CircuitState, CircuitToken, FloatOps, circuit_contract, validate_circuit}
use ac_foundation.Circuit.Outcomes.{
  GateOptions, ProviderFailure, failed_state, failure_current, should_open, success_current,
  closed_state,
}
use ac_foundation.Storage.{JsonFile, absent, damaged, holding}
use ac_foundation.Workers.{done}
use ac_foundation.Circuit.Contract.{circuit-RoundTrips}
use ac_foundation.Storage.State.{create_state, decode_state, encode_state, read_state}
use ac_foundation.Storage.State.Laws.{read-encode_state, swap_state_ok}

-- A file that reads as a state, or as none where there is no file.
pub data Holds (ops : FloatOps) (file : JsonFile) : Option CircuitState → Type 0 where
  no_state : file ≡ absent → Holds ops file none
  a_state :
      (s : CircuitState)
      → read_state (circuit_contract ops) file ≡ ok (some s)
      → Holds ops file (some s)

pub Holds-written :
    (ops : FloatOps) (s : CircuitState)
    → Holds ops (holding (encode_state (circuit_contract ops) s)) (some s)
Holds-written ops s =
    a_state s (read-encode_state (circuit_contract ops) s (circuit-RoundTrips ops s))

pub read-Holds :
    (ops : FloatOps) (file : JsonFile) (o : Option CircuitState)
    → Holds ops file o
    → read_state (circuit_contract ops) file ≡ ok o
unfolding read_state
read-Holds ops file none (no_state e) = rw e refl
read-Holds ops file (some s) (a_state q e) = e

pub read_state-Holds :
    (ops : FloatOps) (file : JsonFile) (o : Option CircuitState)
    → read_state (circuit_contract ops) file ≡ ok o
    → Holds ops file o
unfolding read_state
read_state-Holds ops file none e = no_state (absent_file file e)
  where
    absent_file :
        (file : JsonFile) → read_state (circuit_contract ops) file ≡ ok none → file ≡ absent
    absent_file absent e = refl
    absent_file damaged e = absurd cc
    absent_file (holding fs) e =
        let (v, p, q) = >>=-eq-ok (decode_state (circuit_contract ops) fs) _ e in absurd cc
read_state-Holds ops file (some s) e = a_state s e

module _ (ops : FloatOps) (options : GateOptions) (token : CircuitToken) where
  failed_state-valid :
      (failure : ProviderFailure) (time : ℕ) (s : CircuitState)
      → validate_circuit (some s) (failed_state ops options token failure time (some s)) ≡ ok tt
  unfolding validate_circuit failed_state
  failed_state-valid failure time s =
      elim (Bool-cases (should_open options token failure.category (some s))) [
        | inl y ↦ rw y (ground arith)
        | inr n ↦ rw n (ground arith)
      ]

  pub failure_current-writes :
      (failure : ProviderFailure) (time : ℕ) (file : JsonFile) (o : Option CircuitState)
      → Holds ops file o
      → failure_current ops options token failure time file o
        ≡ done (
            holding
              (encode_state (circuit_contract ops) (failed_state ops options token failure time o)))
  unfolding failure_current create_state failed_state validate_circuit
  failure_current-writes failure time file none (no_state e) = rw e refl
  failure_current-writes failure time file (some s) (a_state q e) =
      rw
        (swap_state_ok (circuit_contract ops) file s
          (failed_state ops options token failure time (some s)) e (omega arith)
          (failed_state-valid failure time s))
        refl

  closed_state-valid : (s : CircuitState) → validate_circuit (some s) (closed_state s) ≡ ok tt
  unfolding validate_circuit
  closed_state-valid s = ground arith

  -- What a success writes, where it writes.
  abbrev pub after_success : CircuitState → JsonFile → JsonFile
  after_success s file =
      if not (s.epoch == token.epoch)
      then file
      else if s.consecutive_failures == 0 && is_none s.opened_until
      then file
      else holding (encode_state (circuit_contract ops) (closed_state s))

  pub success_current-writes :
      (file : JsonFile) (s : CircuitState)
      → read_state (circuit_contract ops) file ≡ ok (some s)
      → success_current ops token file (some s) ≡ done (after_success s file)
  unfolding success_current
  success_current-writes file s e =
      rw
        (swap_state_ok (circuit_contract ops) file s (closed_state s) e (omega arith)
          (closed_state-valid s))
        (elim (Bool-cases (s.epoch == token.epoch)) [
          | inl y ↦
              rw y (elim (Bool-cases (s.consecutive_failures == 0 && is_none s.opened_until)) [
                | inl z ↦ rw z refl
                | inr n ↦ rw n refl
              ])
          | inr n ↦ rw n refl
        ])
