-- ===== src/Circuit.antt =====
-- The durable circuit of the provider gate, packages/ac-llm/src/ac_llm/gate.py: its state and
-- contract, and how the outcomes of provider calls change it. The calls that it admits are in
-- Admission. A float is the bit pattern of its double.
pub mod Contract
pub mod Admission
pub mod Outcomes
pub mod Recording
pub mod Ending
pub mod Probe
pub mod Opening
pub mod Threshold
use ac_foundation.Prelude.{
  Bool, List, Option, String, [], false, if◌then◌else◌, ltb, none, not, some, true, ℕ, ◌%◌, ◌&&◌,
  ◌+◌, ◌==◌, ◌^◌, ◌∷◌,
}
use ac_foundation.Json.{
  Fields, JsonValue, end, field, float, get, int, null, obj, pos, require_fields, str, ℤ,
}
use ac_foundation.Errors.{Result, corrupt_state, err, ok, raise_if, value_error, ◌>>=◌, ◌>>◌}
use ac_foundation.Storage.State.{StateContract}
use ac_foundation.Snapshot.Codec.{decode, encode, natural}
use ac_foundation.Json.Equality.{is_nan, is_negative, json_eq}

-- `FailureCategory` of packages/ac-llm/src/ac_llm/errors.py
pub data FailureCategory : Type 0 where
  authentication quota rate_limit unavailable invalid_request schema : FailureCategory
  transport timeout stopped_call local_io internal : FailureCategory

abbrev pub category_value : FailureCategory → String
category_value authentication = "authentication"
category_value quota = "quota"
category_value rate_limit = "rate_limit"
category_value unavailable = "unavailable"
category_value invalid_request = "invalid_request"
category_value schema = "schema"
category_value transport = "transport"
category_value timeout = "timeout"
category_value stopped_call = "stopped"
category_value local_io = "local_io"
category_value internal = "internal"

-- `_CIRCUIT_FAILURES`
abbrev pub is_circuit_failure : FailureCategory → Bool
is_circuit_failure authentication = true
is_circuit_failure quota = true
is_circuit_failure rate_limit = true
is_circuit_failure transport = true
is_circuit_failure unavailable = true
is_circuit_failure _ = false

-- `_IMMEDIATE_CIRCUIT_FAILURES`
abbrev pub is_immediate : FailureCategory → Bool
is_immediate authentication = true
is_immediate quota = true
is_immediate rate_limit = true
is_immediate _ = false

-- `_CircuitState`
pub record CircuitState : Type 0 where
  pub revision : ℕ
  pub consecutive_failures : ℕ
  pub epoch : ℕ
  pub opened_until : Option ℕ
  pub category : Option String

-- `_CircuitToken`
pub record CircuitToken : Type 0 where
  pub epoch : ℕ
  pub half_open_probe : Bool

-- Python's float of an int, which may overflow, and the sum and the difference of two floats.
pub record FloatOps : Type 0 where
  pub of_int : ℤ → Result ℕ
  pub plus : ℕ → ℕ → ℕ
  pub minus : ℕ → ℕ → ℕ

-- `x < y` on floats.
abbrev is_zero : ℕ → Bool
is_zero p = p % 2 ^ 63 == 0

unfoldable pub float_less : ℕ → ℕ → Bool
float_less p q =
    not (is_nan p)
    && not (is_nan q)
    && not (is_zero p && is_zero q)
    && (if is_negative p
        then (if is_negative q then ltb q p else true)
        else (if is_negative q then false else ltb p q))

-- `min(x, y)` and `max(x, y)`, which keep the first of two that do not compare.
abbrev pub float_min : ℕ → ℕ → ℕ
float_min x y = if float_less y x then y else x

abbrev pub float_max : ℕ → ℕ → ℕ
float_max x y = if float_less x y then y else x

abbrev optional_float : Option ℕ → JsonValue
optional_float none = null
optional_float (some p) = float p

abbrev optional_text : Option String → JsonValue
optional_text none = null
optional_text (some t) = str t

-- `_CircuitContract.encode`
unfoldable pub encode_circuit : CircuitState → Fields
encode_circuit s = field "revision" (int (pos s.revision)) (
    field "consecutive_failures" (int (pos s.consecutive_failures)) (
      field "epoch" (int (pos s.epoch)) (
        field "opened_until" (optional_float s.opened_until)
          (field "category" (optional_text s.category) end))))

abbrev deadline : FloatOps → JsonValue → Result (Option ℕ)
deadline ops null = ok none
deadline ops (float p) = ok (some p)
deadline ops (int z) = ops.of_int z >>= (λ p. ok (some p))
deadline ops _ = err corrupt_state

abbrev category_text : JsonValue → Result (Option String)
category_text null = ok none
category_text (str t) = ok (some t)
category_text _ = err corrupt_state

abbrev circuit_fields : List String
circuit_fields = "revision" ∷ "consecutive_failures" ∷ "epoch" ∷ "opened_until" ∷ "category" ∷ []

-- `_CircuitContract.decode`
unfoldable pub decode_circuit : FloatOps → Fields → Result CircuitState
decode_circuit ops fs = do
  require_fields fs circuit_fields []
  revision ← natural (get "revision" fs)
  failures ← natural (get "consecutive_failures" fs)
  epoch ← natural (get "epoch" fs)
  category ← category_text (get "category" fs)
  opened_until ← deadline ops (get "opened_until" fs)
  ok (record {
    revision = revision;
    consecutive_failures = failures;
    epoch = epoch;
    opened_until = opened_until;
    category = category;
  })

-- `_CircuitContract.validate_transition`
unfoldable pub validate_circuit : Option CircuitState → CircuitState → Result (Unit {0})
validate_circuit none v = raise_if (not (v.revision == 0)) value_error
validate_circuit (some p) v = do
  raise_if (not (v.revision == p.revision + 1)) value_error
  raise_if (ltb v.epoch p.epoch) value_error

-- `==` of two states.
unfoldable pub circuit_eq : CircuitState → CircuitState → Bool
circuit_eq a b = json_eq (obj (encode_circuit a)) (obj (encode_circuit b))

-- `_CircuitContract`
abbrev pub circuit_contract : FloatOps → StateContract CircuitState
circuit_contract ops = record {
  schema_version = "ac.llm.provider_circuit.v1";
  encode = encode_circuit;
  decode = decode_circuit ops;
  validate_transition = validate_circuit;
  revision = λ s. s.revision;
  equal = circuit_eq;
}
