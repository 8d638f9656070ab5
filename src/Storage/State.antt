-- ===== src/Storage/State.antt =====
-- `AtomicStateStore` of packages/ac-jobs/src/ac_jobs/storage.py and `StateContract` of
-- packages/ac-jobs/src/ac_jobs/contracts.py: a revisioned state in one file, behind a lock that is
-- held for each whole operation.
pub mod Laws
use ac_foundation.Prelude.{
  Bool, Option, String, [], false, if◌then◌else◌, none, not, some, ℕ, ◌+◌, ◌==◌, ◌||◌, ◌∷◌,
}
use ac_foundation.Json.{Fields, end, field, get, int, obj, pos, require_fields, str}
use ac_foundation.Storage.{JsonFile, absent, exists, holding, read_json_object}
use ac_foundation.Errors.{
  Result, corrupt_state, err, ok, raise_if, revision_conflict, state_conflict, unsupported_schema,
  ◌>>=◌, ◌>>◌,
}
use ac_foundation.Snapshot.Codec.{decode, encode, is_text, natural, object}

-- `StateContract`, with the `revision` attribute and the `==` of the states.
pub record StateContract (T : Type 0) : Type 0 where
  pub schema_version : String
  pub encode : T → Fields
  pub decode : Fields → Result T
  pub validate_transition : Option T → T → Result (Unit {0})
  pub revision : T → ℕ
  pub equal : T → T → Bool

module _ {T : Type 0} (contract : StateContract T) where
  -- `_encode`
  abbrev pub encode_state : T → Fields
  encode_state value = field "schema_version" (str "ac.jobs.state.v1") (
      field "contract_schema_version" (str contract.schema_version) (
        field "revision" (int (pos (contract.revision value)))
          (field "value" (obj (contract.encode value)) end)))

  -- `_decode`
  unfoldable pub decode_state : Fields → Result T
  decode_state fs = do
    require_fields fs ("schema_version" ∷ "contract_schema_version" ∷ "revision" ∷ "value" ∷ []) []
    raise_if (not (is_text "ac.jobs.state.v1" (get "schema_version" fs))) unsupported_schema
    raise_if (not (is_text contract.schema_version (get "contract_schema_version" fs)))
        unsupported_schema
    revision ← natural (get "revision" fs)
    value ← object (get "value" fs)
    decoded ← contract.decode value
    raise_if (not (contract.revision decoded == revision)) corrupt_state
    ok decoded

  -- `read`
  unfoldable pub read_state : JsonFile → Result (Option T)
  read_state absent = ok none
  read_state file = do fs ← read_json_object file; value ← decode_state fs; ok (some value)

  equal_current : Option T → T → Bool
  equal_current none value = false
  equal_current (some current) value = contract.equal current value

  -- `create`: the file afterwards and the value that is returned.
  unfoldable pub create_state : JsonFile → T → Result (JsonFile × T)
  unfolding equal_current
  create_state file value = do
    contract.validate_transition none value
    if exists file
        then (do
          current ← read_state file
          raise_if (not (equal_current current value)) state_conflict
          ok (file, value))
        else ok (holding (encode_state value), value)

  unfoldable pub swap_current : JsonFile → ℕ → T → Option T → Result (JsonFile × T)
  swap_current file expected_revision value none = err revision_conflict
  swap_current file expected_revision value (some current) = do
    raise_if
        (not (contract.revision current == expected_revision)
          || not (contract.revision value == expected_revision + 1))
        revision_conflict
    contract.validate_transition (some current) value
    ok (holding (encode_state value), value)

  -- `compare_and_swap`
  unfoldable pub swap_state : JsonFile → ℕ → T → Result (JsonFile × T)
  unfolding swap_current
  swap_state file expected_revision value = do
    current ← read_state file
    swap_current file expected_revision value current
