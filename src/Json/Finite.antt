-- ===== src/Json/Finite.antt =====
-- packages/ac-jobs/src/ac_jobs/json_data.py: `validate_json_value` on values of JSON's own types,
-- where only a float can be refused.
use ac_foundation.Prelude.{Bool, not, true, ◌&&◌}
use ac_foundation.Json.{Fields, Items, JsonValue, arr, cons, end, field, float, nil, obj}
use ac_foundation.Errors.{Result, raise_if, value_error}
use ac_foundation.Json.Equality.{is_finite}

unfoldable mutual
  pub finite_json : JsonValue → Bool
  finite_json (float p) = is_finite p
  finite_json (arr xs) = finite_items xs
  finite_json (obj fs) = finite_fields fs
  finite_json _ = true

  pub finite_items : Items → Bool
  finite_items nil = true
  finite_items (cons x xs) = finite_json x && finite_items xs

  pub finite_fields : Fields → Bool
  finite_fields end = true
  finite_fields (field k v fs) = finite_json v && finite_fields fs

-- `validate_json_value`
abbrev pub validate_json_value : JsonValue → Result (Unit {0})
validate_json_value v = raise_if (not (finite_json v)) value_error
