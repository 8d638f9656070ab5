-- ===== src/Text.antt =====
-- The text operations that the program uses: concatenation, `text[:n]` and the decimal digits of a
-- number in an f-string.
pub mod Keys
use Prim.Native.Char.{Char}
use ac_foundation.Prelude.{String, if◌then◌else◌, ltb, refl, suc, zero, ℕ, ◌%◌, ◌/◌, ◌==◌, ◌≡◌}

unfoldable pub append_text : String → String → String
append_text String.[] t = t
append_text (String.◌∷◌ c s) t = String.◌∷◌ c (append_text s t)

-- `text[:n]`
unfoldable pub take_text : ℕ → String → String
take_text zero s = ""
take_text (suc n) String.[] = ""
take_text (suc n) (String.◌∷◌ c s) = String.◌∷◌ c (take_text n s)

digit_text : ℕ → String
digit_text zero = "0"
digit_text (suc zero) = "1"
digit_text (suc (suc zero)) = "2"
digit_text (suc (suc (suc zero))) = "3"
digit_text (suc (suc (suc (suc zero)))) = "4"
digit_text (suc (suc (suc (suc (suc zero))))) = "5"
digit_text (suc (suc (suc (suc (suc (suc zero)))))) = "6"
digit_text (suc (suc (suc (suc (suc (suc (suc zero))))))) = "7"
digit_text (suc (suc (suc (suc (suc (suc (suc (suc zero)))))))) = "8"
digit_text (suc (suc (suc (suc (suc (suc (suc (suc (suc n))))))))) = "9"

-- The fuel is above the number, and each round divides it by ten.
decimal_from : ℕ → ℕ → String
decimal_from zero n = ""
decimal_from (suc f) n =
    let rest = append_text (decimal_from f (n / 10)) (digit_text (n % 10)) in
    if ltb n 10 then digit_text n else rest

-- `f"{n}"`
unfoldable pub decimal : ℕ → String
unfolding decimal_from append_text digit_text
decimal n = decimal_from (suc n) n

decimal_examples : (decimal 0 ≡ "0") × (decimal 1024 ≡ "1024")
unfolding decimal
decimal_examples = (refl, refl)
