-- ===== src/Json.antt =====
-- The JSON documents of packages/ac-jobs/src/ac_jobs/models.py (`JsonValue`) and the closed-shape
-- test `require_fields` of storage.py. A Python dict with string keys is a list of its fields, a
-- float is the bit pattern of its IEEE double.
pub mod Equality
pub mod Finite
use ac_foundation.Prelude.{
  ℕ, String, Bool, true, false, ◌&&◌, ◌||◌, not, Option, none, some, List, [], ◌∷◌, ◌++◌, str_eq,
  if◌then◌else◌,
}
use ac_foundation.Errors.{Result, corrupt_state, raise_if}

-- Python's int: `negsuc n` is -(n + 1).
pub data ℤ : Type 0 where
  pos : ℕ → ℤ
  negsuc : ℕ → ℤ

mutual
  pub data JsonValue : Type 0 where
    null : JsonValue
    bool : Bool → JsonValue
    int : ℤ → JsonValue
    float : ℕ → JsonValue
    str : String → JsonValue
    arr : Items → JsonValue
    obj : Fields → JsonValue

  pub data Items : Type 0 where
    nil : Items
    cons : JsonValue → Items → Items

  pub data Fields : Type 0 where
    end : Fields
    field : String → JsonValue → Fields → Fields

-- `document.get(key)`, with `none` for a missing key.
abbrev pub lookup : String → Fields → Option JsonValue
lookup k end = none
lookup k (field j v fs) = if str_eq j k then some v else lookup k fs

-- `document[key]` and `document.get(key)`, where a missing key reads as None.
abbrev pub get : String → Fields → JsonValue
get k end = null
get k (field j v fs) = if str_eq j k then v else get k fs

-- `set(document)`
abbrev pub keys : Fields → List String
keys end = []
keys (field k v fs) = k ∷ keys fs

abbrev pub contains : List String → String → Bool
contains [] k = false
contains (j ∷ js) k = str_eq j k || contains js k

abbrev pub subset : List String → List String → Bool
subset [] ys = true
subset (x ∷ xs) ys = contains ys x && subset xs ys

-- `require_fields`: nothing required is missing, and nothing else is there.
abbrev pub require_fields : Fields → List String → List String → Result (Unit {0})
require_fields document required optional =
    let missing = not (subset required (keys document)) in
    let unknown = not (subset (keys document) (required ++ optional)) in
    raise_if (missing || unknown) corrupt_state
