-- ===== src/Storage/State/Laws.antt =====
-- What `AtomicStateStore` (packages/ac-jobs/src/ac_jobs/storage.py) promises for a contract whose
-- codec round-trips on the values in use.
use ac_foundation.Storage.{JsonFile, holding}
use ac_foundation.Errors.{Result-cases, ok}
use ac_foundation.Storage.State.{StateContract, decode_state, encode_state, read_state, swap_state}
use ac_foundation.Prelude.{arith, eq_refl, inl, inr, none, some, suc, ℕ, ◌≡◌}

module _ {T : Type 0} (contract : StateContract T) where
  -- The contract reads back what it wrote.
  pub record RoundTrips (value : T) : Type 0 where
    pub decoded : contract.decode (contract.encode value) ≡ ok value

  pub decode-encode_state :
      (value : T)
      → RoundTrips value
      → decode_state contract (encode_state contract value) ≡ ok value
  unfolding decode_state
  decode-encode_state value r = ground (arith, r.decoded, eq_refl contract.schema_version)

  pub read-encode_state :
      (value : T)
      → RoundTrips value
      → read_state contract (holding (encode_state contract value)) ≡ ok (some value)
  unfolding read_state
  read-encode_state value r = ground (arith, decode-encode_state value r)

  -- A compare-and-swap that returns has found a state of the expected revision, has asked the
  -- contract about the step, and leaves exactly the new state, of the next revision.
  pub swap_state_lem :
      (file : JsonFile) (expected : ℕ) (value : T) {file' : JsonFile} {returned : T}
      → RoundTrips value
      → swap_state contract file expected value ≡ ok (file', returned)
      → (current : T) × (read_state contract file ≡ ok (some current))
        × (contract.revision current ≡ expected)
        × (contract.revision value ≡ suc expected)
        × (contract.validate_transition (some current) value ≡ ok tt)
        × (returned ≡ value)
        × (read_state contract file' ≡ ok (some value))
  unfolding swap_state
  swap_state_lem file expected value r h = elim (Result-cases (read_state contract file)) [
    | inl (none, e) ↦ absurd (ground arith)
    | inl (some current, e) ↦ (
      current,
      e,
      ground arith,
      ground arith,
      ground arith,
      ground arith,
      ground (arith, read-encode_state value r),
    )
    | inr (x, e) ↦ absurd (ground arith)
  ]

  -- Over a state that can be read, the current revision and an allowed step suffice.
  pub swap_state_ok :
      (file : JsonFile) (current value : T)
      → read_state contract file ≡ ok (some current)
      → contract.revision value ≡ suc (contract.revision current)
      → contract.validate_transition (some current) value ≡ ok tt
      → swap_state contract file (contract.revision current) value
        ≡ ok (holding (encode_state contract value), value)
  unfolding swap_state
  swap_state_ok file current value e r v = ground arith
