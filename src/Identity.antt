-- ===== src/Identity.antt =====
-- packages/ac-jobs/src/ac_jobs/identity.py: the identifiers that name runs, units and artifacts.
-- A text is walked by its code points.
pub mod Joining
use Prim.Native.Char.{code}
use ac_foundation.Prelude.{
  ℕ, String, Bool, true, false, ◌&&◌, ◌||◌, not, List, [], ◌∷◌, length, all, leb, ◌==◌,
  if◌then◌else◌,
}
use ac_foundation.Errors.{Result, ok, err, invalid_run_id}

-- The code points of a text.
abbrev pub codes : String → List ℕ
codes String.[] = []
codes (String.◌∷◌ c s) = code c ∷ codes s

-- [A-Za-z0-9]
unfoldable pub is_alphanumeric : ℕ → Bool
is_alphanumeric c =
    (leb b'A' c && leb c b'Z') || (leb b'a' c && leb c b'z') || (leb b'0' c && leb c b'9')

-- [A-Za-z0-9._-]
unfoldable pub is_id_char : ℕ → Bool
unfolding is_alphanumeric
is_id_char c = is_alphanumeric c || c == b'.' || c == b'_' || c == b'-'

-- `_SIMPLE_ID.fullmatch`: [A-Za-z0-9][A-Za-z0-9._-]{0,127}
unfoldable pub matches_simple_id : List ℕ → Bool
unfolding is_id_char
matches_simple_id [] = false
matches_simple_id (c ∷ cs) = is_alphanumeric c && all is_id_char cs && leb (length cs) 127

unfoldable pub validate_simple_id : String → Result String
unfolding matches_simple_id
validate_simple_id value = if matches_simple_id (codes value) then ok value else err invalid_run_id

abbrev pub push : ℕ → List (List ℕ) → List (List ℕ)
push d [] = (d ∷ []) ∷ []
push d (part ∷ parts) = (d ∷ part) ∷ parts

-- `value.split("/")`
unfoldable pub split_slash : List ℕ → List (List ℕ)
split_slash [] = [] ∷ []
split_slash (c ∷ cs) = let parts = split_slash cs in if c == b'/' then [] ∷ parts else push c parts

abbrev pub ends_with : ℕ → List ℕ → Bool
ends_with d [] = false
ends_with d (c ∷ []) = c == d
ends_with d (c ∷ e ∷ cs) = ends_with d (e ∷ cs)

abbrev pub starts_with : ℕ → List ℕ → Bool
starts_with d [] = false
starts_with d (c ∷ cs) = c == d

abbrev pub contains_code : ℕ → List ℕ → Bool
contains_code d [] = false
contains_code d (c ∷ cs) = c == d || contains_code d cs

-- `part in {"", ".", ".."}`
abbrev pub is_dots : List ℕ → Bool
is_dots [] = true
is_dots (c ∷ []) = c == b'.'
is_dots (c ∷ d ∷ []) = c == b'.' && d == b'.'
is_dots (c ∷ d ∷ e ∷ cs) = false

unfoldable pub is_artifact_part : List ℕ → Bool
is_artifact_part part = not (is_dots part) && matches_simple_id part

unfoldable pub is_artifact_id : List ℕ → Bool
is_artifact_id value =
    leb 1 (length value)
    && leb (length value) 512
    && not (contains_code b'\\' value || starts_with b'/' value || ends_with b'/' value)
    && all is_artifact_part (split_slash value)

unfoldable pub validate_artifact_id : String → Result String
validate_artifact_id value = if is_artifact_id (codes value) then ok value else err invalid_run_id
