-- ===== src/Json/Equality.antt =====
-- Python's `==` on JSON values: bools, ints and floats compare by their exact value, dicts without
-- regard to the order of their fields.
use ac_foundation.Json.{
  ℤ, pos, negsuc, JsonValue, Items, Fields, lookup, keys, arr, bool, cons, end, field, float, int,
  nil, null, obj, str,
}
use ac_foundation.Prelude.{
  Bool, false, if◌then◌else◌, leb, length, none, not, refl, some, str_eq, true, ℕ, ◌%◌, ◌&&◌, ◌*◌,
  ◌+◌, ◌/◌, ◌==◌, ◌^◌, ◌||◌, ◌≡◌,
}

-- The parts of a double's bit pattern.
abbrev exponent : ℕ → ℕ
exponent p = (p / 2 ^ 52) % 2 ^ 11

abbrev fraction : ℕ → ℕ
fraction p = p % 2 ^ 52

abbrev pub is_negative : ℕ → Bool
is_negative p = leb (2 ^ 63) p

-- Neither a NaN nor an infinity.
abbrev pub is_finite : ℕ → Bool
is_finite p = not (exponent p == 2047)

abbrev pub is_nan : ℕ → Bool
is_nan p = exponent p == 2047 && not (fraction p == 0)

-- The magnitude of a finite double, times 2 ^ 1075.
abbrev scaled : ℕ → ℕ
scaled p = if exponent p == 0 then fraction p * 2 else (fraction p + 2 ^ 52) * 2 ^ exponent p

float_eq : ℕ → ℕ → Bool
float_eq p q = not (is_nan p) && not (is_nan q) && (p == q || (scaled p == 0 && scaled q == 0))

int_eq : ℤ → ℤ → Bool
int_eq (pos m) (pos n) = m == n
int_eq (negsuc m) (negsuc n) = m == n
int_eq _ _ = false

int_float_eq : ℤ → ℕ → Bool
int_float_eq (pos n) p = is_finite p && scaled p == n * 2 ^ 1075 && (n == 0 || not (is_negative p))
int_float_eq (negsuc n) p = is_finite p && scaled p == (n + 1) * 2 ^ 1075 && is_negative p

-- A bool is an int.
abbrev bool_int : Bool → ℤ
bool_int true = pos 1
bool_int false = pos 0

-- Whether a value that is no dict and no list equals another.
scalar_eq : JsonValue → JsonValue → Bool
unfolding float_eq int_eq int_float_eq
scalar_eq null null = true
scalar_eq (bool b) (bool c) = int_eq (bool_int b) (bool_int c)
scalar_eq (bool b) (int z) = int_eq (bool_int b) z
scalar_eq (bool b) (float p) = int_float_eq (bool_int b) p
scalar_eq (int z) (bool b) = int_eq z (bool_int b)
scalar_eq (int z) (int w) = int_eq z w
scalar_eq (int z) (float p) = int_float_eq z p
scalar_eq (float p) (bool b) = int_float_eq (bool_int b) p
scalar_eq (float p) (int z) = int_float_eq z p
scalar_eq (float p) (float q) = float_eq p q
scalar_eq (str s) (str t) = str_eq s t
scalar_eq _ _ = false

unfoldable mutual
  unfolding scalar_eq

  pub json_eq : JsonValue → JsonValue → Bool
  json_eq (arr xs) (arr ys) = items_eq xs ys
  json_eq (obj fs) (obj gs) = length (keys fs) == length (keys gs) && fields_eq fs gs
  json_eq v w = scalar_eq v w

  pub items_eq : Items → Items → Bool
  items_eq nil nil = true
  items_eq (cons x xs) (cons y ys) = json_eq x y && items_eq xs ys
  items_eq _ _ = false

  -- Every field of the first is one of the second.
  pub fields_eq : Fields → Fields → Bool
  fields_eq end gs = true
  fields_eq (field k v fs) gs =
      elim (lookup k gs) [ none ↦ false | some w ↦ json_eq v w ] && fields_eq fs gs

eq_order :
    json_eq
      (obj (field "a" (int (pos 1)) (field "b" null end)))
      (obj (field "b" null (field "a" (bool true) end)))
    ≡ true
unfolding json_eq
eq_order = refl

-- 3 == 3.0, and -2.5 is no int.
eq_float :
    (json_eq (int (pos 3)) (float 0x4008000000000000) ≡ true)
    × (json_eq (int (negsuc 1)) (float 0xC004000000000000) ≡ false)
unfolding json_eq
eq_float = (refl, refl)
