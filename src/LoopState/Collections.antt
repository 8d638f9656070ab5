-- ===== src/LoopState/Collections.antt =====
-- Dicts and lists of a loop state that are read back item by item.
use ac_foundation.Prelude.{
  &&-eq-true, Bool, List, Option, String, [], all, none, refl, some, sym, true, ◌∷◌, ◌≡◌, ◌≢◌, leb,
  subst, ℕ, arith, suc, zero,
}
use ac_foundation.Errors.{>>=-eq-ok, Result, ok, value_injective, ◌>>=◌}
use ac_foundation.Json.{
  Fields, Items, JsonValue, arr, bool, float, int, null, obj, str, cons, end, field, nil, negsuc,
  pos,
}
use ac_foundation.LoopState.Codec.{
  decode_list, decode_map, decode_optional, encode_list, encode_map, encode_optional,
  positive_round,
}

module _ {A : Type 0} (good : A → Bool) (encode : A → Result JsonValue)
    (decode : JsonValue → Result A)
    (reads : (a : A) (v : JsonValue) → good a ≡ true → encode a ≡ ok v → decode v ≡ ok a) where
  pub decode_map-encode_map :
      (items : List (String × A)) (fs : Fields)
      → all (λ (item : String × A). good item.1) items ≡ true
      → encode_map encode items ≡ ok fs
      → decode_map decode fs ≡ ok items
  decode_map-encode_map [] fs g h = rw (sym (value_injective h)) refl
  decode_map-encode_map ((k, a) ∷ items) fs g h =
      let (v, p, q) = >>=-eq-ok (encode a) _ h in
      let (gs, p', q') = >>=-eq-ok (encode_map encode items) _ q in
      let (here, rest) = &&-eq-true (good a) _ g in
      rw (sym (value_injective q'))
        (rw (reads a v here p) (rw (decode_map-encode_map items gs rest p') refl))

  pub decode_list-encode_list :
      (xs : List A) (vs : Items)
      → all good xs ≡ true
      → encode_list encode xs ≡ ok vs
      → decode_list decode vs ≡ ok xs
  decode_list-encode_list [] vs g h = rw (sym (value_injective h)) refl
  decode_list-encode_list (a ∷ xs) vs g h =
      let (v, p, q) = >>=-eq-ok (encode a) _ h in
      let (ws, p', q') = >>=-eq-ok (encode_list encode xs) _ q in
      let (here, rest) = &&-eq-true (good a) _ g in
      rw (sym (value_injective q'))
        (rw (reads a v here p) (rw (decode_list-encode_list xs ws rest p') refl))

-- A member that may be None, whose encoding is never null.
abbrev pub good_optional : {A : Type 0} → (A → Bool) → Option A → Bool
good_optional good none = true
good_optional good (some a) = good a

module _ {A : Type 0} (good : A → Bool) (encode : A → Result JsonValue)
    (decode : JsonValue → Result A)
    (reads : (a : A) (v : JsonValue) → good a ≡ true → encode a ≡ ok v → decode v ≡ ok a)
    (refuses : (a : A) → decode null ≢ ok a) where
  some_value : (a : A) (v : JsonValue) → decode v ≡ ok a → decode_optional decode v ≡ ok (some a)
  some_value a null e = absurd (refuses a e)
  some_value a (bool b) e = rw e refl
  some_value a (int z) e = rw e refl
  some_value a (float p) e = rw e refl
  some_value a (str t) e = rw e refl
  some_value a (arr vs) e = rw e refl
  some_value a (obj fs) e = rw e refl

  pub decode_optional-encode_optional :
      (o : Option A) (v : JsonValue)
      → good_optional good o ≡ true
      → encode_optional encode o ≡ ok v
      → decode_optional decode v ≡ ok o
  decode_optional-encode_optional none v g h = rw (sym (value_injective h)) refl
  decode_optional-encode_optional (some a) v g h = some_value a v (reads a v g h)

-- What every decoded item passes, the decoded dict, list or member passes.
module _ {A : Type 0} (good : A → Bool) (decode : JsonValue → Result A)
    (sound : (v : JsonValue) (a : A) → decode v ≡ ok a → good a ≡ true) where
  pub decode_map-good :
      (fs : Fields) (items : List (String × A))
      → decode_map decode fs ≡ ok items
      → all (λ (item : String × A). good item.1) items ≡ true
  decode_map-good end items h =
      subst (λ xs. all (λ (item : String × A). good item.1) xs ≡ true) (value_injective h) refl
  decode_map-good (field k v fs) items h =
      let (a, p, q) = >>=-eq-ok (decode v) _ h in
      let (rest, p', q') = >>=-eq-ok (decode_map decode fs) _ q in
      subst (λ xs. all (λ (item : String × A). good item.1) xs ≡ true) (value_injective q')
        (rw (sound v a p) (decode_map-good fs rest p'))

  pub decode_list-good :
      (vs : Items) (xs : List A) → decode_list decode vs ≡ ok xs → all good xs ≡ true
  decode_list-good nil xs h = subst (λ ys. all good ys ≡ true) (value_injective h) refl
  decode_list-good (cons v vs) xs h =
      let (a, p, q) = >>=-eq-ok (decode v) _ h in
      let (rest, p', q') = >>=-eq-ok (decode_list decode vs) _ q in
      subst (λ ys. all good ys ≡ true) (value_injective q')
        (rw (sound v a p) (decode_list-good vs rest p'))

  present_good :
      (v : JsonValue) (o : Option A)
      → (decode v >>= λ a. ok (some a)) ≡ ok o
      → good_optional good o ≡ true
  present_good v o h =
      let (a, p, q) = >>=-eq-ok (decode v) _ h in
      subst (λ p. good_optional good p ≡ true) (value_injective q) (sound v a p)

  pub decode_optional-good :
      (v : JsonValue) (o : Option A) → decode_optional decode v ≡ ok o → good_optional good o ≡ true
  decode_optional-good null o h = subst (λ p. good_optional good p ≡ true) (value_injective h) refl
  decode_optional-good (bool b) o h = present_good (bool b) o h
  decode_optional-good (int z) o h = present_good (int z) o h
  decode_optional-good (float x) o h = present_good (float x) o h
  decode_optional-good (str t) o h = present_good (str t) o h
  decode_optional-good (arr vs) o h = present_good (arr vs) o h
  decode_optional-good (obj fs) o h = present_good (obj fs) o h

at_least_one : (m : ℕ) → leb 1 (suc m) ≡ true
at_least_one m = ground arith

-- The number of a round is at least one.
pub positive_round-positive : (v : JsonValue) (n : ℕ) → positive_round v ≡ ok n → leb 1 n ≡ true
positive_round-positive (int (pos zero)) n h = cc
positive_round-positive (int (pos (suc m))) n h =
    subst (λ k. leb 1 k ≡ true) (value_injective h) (at_least_one m)
positive_round-positive (int (negsuc m)) n h = cc
positive_round-positive null n h = cc
positive_round-positive (bool b) n h = cc
positive_round-positive (float x) n h = cc
positive_round-positive (str t) n h = cc
positive_round-positive (arr vs) n h = cc
positive_round-positive (obj fs) n h = cc

-- An encoding that never raises on good items never raises on a dict, a list or a member of them.
module _ {A : Type 0} (good : A → Bool) (encode : A → Result JsonValue)
    (total : (a : A) → good a ≡ true → (v : JsonValue) × (encode a ≡ ok v)) where
  pub encode_map-total :
      (items : List (String × A))
      → all (λ (item : String × A). good item.1) items ≡ true
      → (fs : Fields) × (encode_map encode items ≡ ok fs)
  encode_map-total [] g = (end, refl)
  encode_map-total ((k, a) ∷ items) g =
      let (here, rest) = &&-eq-true (good a) _ g in
      let (v, p) = total a here in
      let (fs, q) = encode_map-total items rest in (field k v fs, rw p (rw q refl))

  pub encode_list-total :
      (xs : List A) → all good xs ≡ true → (vs : Items) × (encode_list encode xs ≡ ok vs)
  encode_list-total [] g = (nil, refl)
  encode_list-total (a ∷ xs) g =
      let (here, rest) = &&-eq-true (good a) _ g in
      let (v, p) = total a here in
      let (vs, q) = encode_list-total xs rest in (cons v vs, rw p (rw q refl))

  pub encode_optional-total :
      (o : Option A)
      → good_optional good o ≡ true
      → (v : JsonValue) × (encode_optional encode o ≡ ok v)
  encode_optional-total none g = (null, refl)
  encode_optional-total (some a) g = total a g
