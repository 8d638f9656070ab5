-- ===== src/Engine/Executions/Validity.antt =====
-- The characters and the length of what `execution_id` of packages/ac-jobs/src/ac_jobs/engine.py
-- returns.
use Prim.Native.Char.{code}
use ac_foundation.Prelude.{
  &&-eq-true, Bool, Bool-cases, List, String, [], all, ap, arith, inl, inr, leb, length,
  length-append, refl, suc, true, zero, ℕ, ◌&&◌, ◌+◌, ◌-◌, ◌<◌, ◌==◌, ◌^◌, ◌∙◌, ◌∷◌, ◌≡◌, ◌≤◌,
}
use ac_foundation.Text.Keys.{all-append, codes-append_text, decimal_ok}
use ac_foundation.Text.{append_text, decimal, take_text}
use ac_foundation.Identity.{
  codes, is_alphanumeric, is_id_char, matches_simple_id, validate_simple_id,
}
use ac_foundation.Engine.Executions.{
  execution_id, recovery_execution_id, short_execution_id, slice_within, text_length,
}
use ac_foundation.Errors.{invalid_run_id, ok, passed_test}
use ac_foundation.Artifacts.{is_hex, is_sha256_hex}
use ac_foundation.Events.Tail.{later}

length_take_text : (n : ℕ) (s : String) → text_length (take_text n s) ≤ n
unfolding take_text
length_take_text zero s = omega arith
length_take_text (suc n) String.[] = omega arith
length_take_text (suc n) (String.◌∷◌ c s) = omega (arith, length_take_text n s)

take_text_full : (n : ℕ) (s : String) → n ≤ text_length s → text_length (take_text n s) ≡ n
unfolding take_text
take_text_full zero s h = refl
take_text_full (suc n) String.[] h = absurd (omega (arith, h))
take_text_full (suc n) (String.◌∷◌ c s) h = ap suc (take_text_full n s (omega (arith, h)))

take_text_id :
    (n : ℕ) (s : String)
    → all is_id_char (codes s) ≡ true
    → all is_id_char (codes (take_text n s)) ≡ true
unfolding take_text
take_text_id zero s h = refl
take_text_id (suc n) String.[] h = refl
take_text_id (suc n) (String.◌∷◌ c s) h =
    let (here, rest) = &&-eq-true (is_id_char (code c)) _ h in rw here (take_text_id n s rest)

hex_id : (c : ℕ) → is_hex c ≡ true → is_id_char c ≡ true
unfolding is_id_char is_alphanumeric
hex_id c h = ground (arith, h)

hex_ids : (cs : List ℕ) → all is_hex cs ≡ true → all is_id_char cs ≡ true
hex_ids [] h = refl
hex_ids (c ∷ cs) h =
    let (here, rest) = &&-eq-true (is_hex c) _ h in rw (hex_id c here) (hex_ids cs rest)

joined_id :
    (x y : String)
    → all is_id_char (codes x) ≡ true
    → all is_id_char (codes y) ≡ true
    → all is_id_char (codes (append_text x y)) ≡ true
joined_id x y hx hy =
    rw (codes-append_text x y) (rw (all-append is_id_char (codes x) (codes y)) (rw hx (rw hy refl)))

joined_length : (x y : String) → text_length (append_text x y) ≡ text_length x + text_length y
joined_length x y = rw (codes-append_text x y) (length-append (codes x) (codes y))

-- A text of id characters behind the word makes a simple identifier.
recovery_valid :
    (x y : String)
    → all is_id_char (codes x) ≡ true
    → all is_id_char (codes y) ≡ true
    → text_length x + text_length y ≤ 119
    → validate_simple_id (append_text (append_text "recovery-" x) y)
      ≡ ok (append_text (append_text "recovery-" x) y)
unfolding validate_simple_id append_text matches_simple_id
recovery_valid x y hx hy n = ground (arith, joined_id x y hx hy, joined_length x y)

alphanumeric_id : (c : ℕ) → is_alphanumeric c ≡ true → is_id_char c ≡ true
unfolding is_id_char
alphanumeric_id c h = rw h refl

three_tests : (a b c : Bool) → (a && b && c) ≡ true → (a ≡ true) × (b ≡ true) × (c ≡ true)
three_tests true true true h = (refl, refl, refl)
three_tests _ _ _ h = cc

matches_id :
    (cs : List ℕ) → matches_simple_id cs ≡ true → (all is_id_char cs ≡ true) × (length cs ≤ 128)
unfolding matches_simple_id
matches_id [] h = cc
matches_id (c ∷ cs) h =
    let (first, others, short) =
      three_tests (is_alphanumeric c) (all is_id_char cs) (leb (length cs) 127) h in
    (rw (alphanumeric_id c first) (rw others refl), ground (arith, short))

identifier_id :
    (s : String)
    → validate_simple_id s ≡ ok s
    → (all is_id_char (codes s) ≡ true) × (text_length s ≤ 128)
unfolding validate_simple_id
identifier_id s h =
    matches_id (codes s) (passed_test (λ t. matches_simple_id (codes t)) s s invalid_run_id h)

digest_id :
    (digest : String)
    → is_sha256_hex digest ≡ true
    → (all is_id_char (codes (take_text 24 digest)) ≡ true)
      × (text_length (take_text 24 digest) ≡ 24)
unfolding is_sha256_hex
digest_id digest h =
    let (long, hex) = &&-eq-true (length (codes digest) == 64) _ h in
    (
      take_text_id 24 digest (hex_ids (codes digest) hex),
      take_text_full 24 digest (ground (arith, long)),
    )

-- The decimal digits of an epoch and a dash.
epoch_id :
    (n : ℕ)
    → n < 10 ^ 80
    → (all is_id_char (codes (append_text (decimal n) "-")) ≡ true)
      × (text_length (append_text (decimal n) "-") ≤ 81)
unfolding is_id_char
epoch_id n b =
    let (p, q) = decimal_ok n 79 b in
    (joined_id (decimal n) "-" p refl, omega (arith, joined_length (decimal n) "-", q))

-- The length of a text behind the word.
recovery_length :
    (x y : String)
    → text_length (append_text (append_text "recovery-" x) y) ≡ 9 + text_length x + text_length y
recovery_length x y =
    joined_length (append_text "recovery-" x) y
    ∙ ap (λ n. n + text_length y) (joined_length "recovery-" x)

at_most : (k : ℕ) → k ≤ 127 → leb k 127 ≡ true
at_most k h = ground (arith, h)

slice_within_id :
    (k : ℕ) (s : String)
    → k ≤ 127
    → all is_id_char (codes s) ≡ true
    → (all is_id_char (codes (slice_within k s)) ≡ true)
      × (text_length (slice_within k s) ≤ 127 - k)
slice_within_id k s small h =
    rw (at_most k small) (take_text_id (127 - k) s h, length_take_text (127 - k) s)

short_id :
    (sha256 : String → String) (x identifier : String)
    → all is_id_char (codes x) ≡ true
    → text_length x ≤ 81
    → is_sha256_hex (sha256 identifier) ≡ true
    → all is_id_char (codes identifier) ≡ true
    → validate_simple_id (short_execution_id sha256 (append_text "recovery-" x) identifier)
      ≡ ok (short_execution_id sha256 (append_text "recovery-" x) identifier)
unfolding short_execution_id is_id_char
short_id sha256 x identifier hx short hex hi =
    let digest = take_text 24 (sha256 identifier) in
    let (d, dl) = digest_id (sha256 identifier) hex in
    let k = text_length (append_text "recovery-" x) + text_length digest in
    let kl = joined_length "recovery-" x in
    let (t, tl) = slice_within_id k identifier (omega (arith, kl, dl, short)) hi in
    let dashed = joined_id "-" digest refl d in
    recovery_valid x (append_text (slice_within k identifier) (append_text "-" digest)) hx
      (joined_id (slice_within k identifier) (append_text "-" digest) t dashed)
      (omega (
        arith,
        joined_length (slice_within k identifier) (append_text "-" digest),
        joined_length "-" digest,
        tl,
        kl,
        dl,
        short,
      ))

recovery_execution_id-valid :
    (sha256 : String → String) (x identifier : String)
    → all is_id_char (codes x) ≡ true
    → text_length x ≤ 81
    → is_sha256_hex (sha256 identifier) ≡ true
    → all is_id_char (codes identifier) ≡ true
    → (value : String) × (recovery_execution_id sha256 (append_text "recovery-" x) identifier
        ≡ ok value)
      × (validate_simple_id value ≡ ok value)
unfolding recovery_execution_id
recovery_execution_id-valid sha256 x identifier hx short hex hi =
    elim (Bool-cases (leb (text_length (append_text (append_text "recovery-" x) identifier)) 128)) [
      | inl y ↦
          let v =
            recovery_valid x identifier hx hi (ground (arith, recovery_length x identifier, y)) in
          (append_text (append_text "recovery-" x) identifier, rw y v, v)
      | inr n ↦
          let v = short_id sha256 x identifier hx short hex hi in
          (short_execution_id sha256 (append_text "recovery-" x) identifier, rw n v, v)
    ]

-- In every recovery epoch below 10 ^ 80 a simple identifier gets an execution identifier, and it is a
-- simple identifier itself.
pub execution_id-valid :
    (sha256 : String → String) (epoch : ℕ) (identifier : String)
    → epoch < 10 ^ 80
    → is_sha256_hex (sha256 identifier) ≡ true
    → validate_simple_id identifier ≡ ok identifier
    → (value : String) × (execution_id sha256 epoch identifier ≡ ok value)
      × (validate_simple_id value ≡ ok value)
unfolding execution_id
execution_id-valid sha256 epoch identifier b hex valid = rw valid (elim (Bool-cases (epoch == 0)) [
  | inl first ↦ rw first (identifier, refl, valid)
  | inr later ↦
      let (x, l) = epoch_id epoch b in
      let (i, _) = identifier_id identifier valid in
      rw later
        (recovery_execution_id-valid sha256 (append_text (decimal epoch) "-") identifier x l hex i)
])
