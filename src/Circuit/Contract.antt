-- ===== src/Circuit/Contract.antt =====
-- The codec of `_CircuitContract` (packages/ac-llm/src/ac_llm/gate.py).
use ac_foundation.Circuit.{
  CircuitState, FloatOps, circuit_contract, decode_circuit, encode_circuit, category_text, deadline,
  optional_float,
}
use ac_foundation.Storage.State.Laws.{RoundTrips}
use ac_foundation.Prelude.{Option, String, none, refl, some, ℕ, ◌≡◌}
use ac_foundation.Errors.{ok}
use ac_foundation.Snapshot.Codec.{optional_text}

category_text-optional_text : (c : Option String) → category_text (optional_text c) ≡ ok c
category_text-optional_text none = refl
category_text-optional_text (some t) = refl

deadline-optional_float : (ops : FloatOps) (o : Option ℕ) → deadline ops (optional_float o) ≡ ok o
deadline-optional_float ops none = refl
deadline-optional_float ops (some p) = refl

-- A state that was written is read back as it was.
pub circuit-RoundTrips : (ops : FloatOps) (s : CircuitState) → RoundTrips (circuit_contract ops) s
unfolding encode_circuit decode_circuit
circuit-RoundTrips ops s = record {
  decoded =
      rw (category_text-optional_text s.category)
        (rw (deadline-optional_float ops s.opened_until) refl);
}
