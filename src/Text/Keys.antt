-- ===== src/Text/Keys.antt =====
-- The resume keys that packages/ac-jobs/src/ac_jobs/engine.py makes, `f"stopped-{attempt}"` and
-- `f"interrupted-{attempt}"`, are simple identifiers.
use Prim.Native.Char.{code}
use native.Mathlib.Nat.{pow-suc}
use ac_foundation.Prelude.{
  Bool, List, String, [], all, ap, arith, length, refl, suc, true, zero, ℕ, ◌&&◌, ◌++◌, ◌<◌, ◌^◌,
  ◌∷◌, ◌≡◌, ◌≤◌, Bool-cases, inl, inr, ltb, length-append, ◌%◌, ◌/◌,
}
use ac_foundation.Text.{append_text, decimal_from, digit_text, decimal}
use ac_foundation.Identity.{codes, is_id_char, validate_simple_id}
use ac_foundation.Errors.{ok}

pub codes-append_text : (s t : String) → codes (append_text s t) ≡ codes s ++ codes t
unfolding append_text
codes-append_text String.[] t = refl
codes-append_text (String.◌∷◌ c s) t = ap (λ cs. code c ∷ cs) (codes-append_text s t)

pub all-append {ℓ} :
    {A : Type ℓ} (p : A → Bool) (xs ys : List A) → all p (xs ++ ys) ≡ (all p xs && all p ys)
all-append p [] ys = refl
all-append p (x ∷ xs) ys = ground (arith, all-append p xs ys)

digit_ok :
    (n : ℕ) → (all is_id_char (codes (digit_text n)) ≡ true) × (length (codes (digit_text n)) ≡ 1)
unfolding digit_text is_id_char
digit_ok zero = (refl, refl)
digit_ok (suc zero) = (refl, refl)
digit_ok (suc (suc zero)) = (refl, refl)
digit_ok (suc (suc (suc zero))) = (refl, refl)
digit_ok (suc (suc (suc (suc zero)))) = (refl, refl)
digit_ok (suc (suc (suc (suc (suc zero))))) = (refl, refl)
digit_ok (suc (suc (suc (suc (suc (suc zero)))))) = (refl, refl)
digit_ok (suc (suc (suc (suc (suc (suc (suc zero))))))) = (refl, refl)
digit_ok (suc (suc (suc (suc (suc (suc (suc (suc zero)))))))) = (refl, refl)
digit_ok (suc (suc (suc (suc (suc (suc (suc (suc (suc n))))))))) = (refl, refl)

one_digit : (n : ℕ) → n < 10 ^ suc zero → ltb n 10 ≡ true
one_digit n b = ground arith

decimal_from_ok :
    (f n k : ℕ)
    → n < f
    → n < 10 ^ suc k
    → (all is_id_char (codes (decimal_from f n)) ≡ true)
      × (length (codes (decimal_from f n)) ≤ suc k)
unfolding decimal_from
decimal_from_ok zero n k h b = elim h [ ]
decimal_from_ok (suc f) n zero h b = rw (one_digit n b) (ground (arith, digit_ok n))
decimal_from_ok (suc f) n (suc k) h b = elim (Bool-cases (ltb n 10)) [
  | inl small ↦ rw small (ground (arith, digit_ok n))
  | inr large ↦
      let ih = decimal_from_ok f (n / 10) k (ground arith) (omega (arith, pow-suc 10 (suc k))) in
      let d = digit_ok (n % 10) in
      rw (large, codes-append_text)
        (
          rw (all-append, ih.0, d.0),
          omega (
            arith,
            length-append (codes (decimal_from f (n / 10))) (codes (digit_text (n % 10))),
            ih,
            d,
          ),
        )
]

pub decimal_ok :
    (n k : ℕ)
    → n < 10 ^ suc k
    → (all is_id_char (codes (decimal n)) ≡ true) × (length (codes (decimal n)) ≤ suc k)
unfolding decimal
decimal_ok n k b = decimal_from_ok (suc n) n k (omega arith) b

-- A fixed word and the digits of a number below 10 ^ 100 make a simple identifier.
pub stopped_key_ok :
    (n : ℕ)
    → n < 10 ^ 100
    → validate_simple_id (append_text "stopped-" (decimal n))
      ≡ ok (append_text "stopped-" (decimal n))
unfolding validate_simple_id append_text
stopped_key_ok n b = ground (arith, decimal_ok n 99 b)

pub interrupted_key_ok :
    (n : ℕ)
    → n < 10 ^ 100
    → validate_simple_id (append_text "interrupted-" (decimal n))
      ≡ ok (append_text "interrupted-" (decimal n))
unfolding validate_simple_id append_text
interrupted_key_ok n b = ground (arith, decimal_ok n 99 b)
