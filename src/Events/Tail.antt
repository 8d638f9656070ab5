-- ===== src/Events/Tail.antt =====
-- `_truncate_incomplete_tail` of packages/ac-jobs/src/ac_jobs/events.py on the bytes of the file: the
-- search for the last line end, backwards in chunks.
use ac_foundation.Prelude.{
  Bool, Bool-cases, List, Option, [], ap, arith, false, if◌then◌else◌, inl, inr, length, ltb, none,
  refl, some, suc, sym, true, zero, ℕ, ◌++◌, ◌+◌, ◌-◌, ◌==◌, ◌||◌, ◌∷◌, ◌≡◌, ◌≤◌,
}

-- `xs[:n]` and `xs[n:]`
abbrev pub take {ℓ} : {A : Type ℓ} → ℕ → List A → List A
take zero xs = []
take (suc n) [] = []
take (suc n) (x ∷ xs) = x ∷ take n xs

abbrev pub drop {ℓ} : {A : Type ℓ} → ℕ → List A → List A
drop zero xs = xs
drop (suc n) [] = []
drop (suc n) (x ∷ xs) = drop n xs

-- `chunk.rfind(c)`, with `none` for -1.
abbrev pub shifted : Option ℕ → Bool → Option ℕ
shifted (some n) found = some (suc n)
shifted none true = some 0
shifted none false = none

abbrev pub rfind : ℕ → List ℕ → Option ℕ
rfind c [] = none
rfind c (b ∷ bs) = shifted (rfind c bs) (b == c)

-- `max(m, n)`
abbrev pub later : Option ℕ → Option ℕ → Option ℕ
later none n = n
later (some m) none = some m
later (some m) (some n) = some (if ltb m n then n else m)

abbrev pub is_line_end : ℕ → Bool
is_line_end b = b == 10 || b == 13

abbrev pub newline : List ℕ → Option ℕ
newline chunk = later (rfind 10 chunk) (rfind 13 chunk)

-- The bytes from `chunk_start` to `boundary`.
abbrev pub read_chunk : List ℕ → ℕ → ℕ → List ℕ
read_chunk raw chunk_start boundary = take (boundary - chunk_start) (drop chunk_start raw)

-- `while boundary:`, on fuel; `chunk` is 64 * 1024 in the code.
unfoldable pub search_boundary : ℕ → List ℕ → ℕ → ℕ → ℕ
search_boundary chunk raw zero boundary = boundary
search_boundary chunk raw (suc fuel) boundary =
    let rest = search_boundary chunk raw fuel (boundary - chunk) in
    if boundary == 0 then 0 else elim (newline (read_chunk raw (boundary - chunk) boundary)) [
      | some n ↦ (boundary - chunk) + n + 1
      | none ↦ rest
    ]

abbrev pub ends_line : List ℕ → Bool
ends_line [] = false
ends_line (b ∷ []) = is_line_end b
ends_line (b ∷ c ∷ bs) = ends_line (c ∷ bs)

-- `_truncate_incomplete_tail`: the size that the file is cut to.
unfoldable pub truncated_size : ℕ → List ℕ → ℕ
unfolding search_boundary
truncated_size chunk raw =
    if ends_line raw then length raw else search_boundary chunk raw (length raw) (length raw)

-- The length of the longest prefix that is empty or ends a line.
abbrev pub counted : ℕ → Bool → ℕ
counted zero true = 1
counted zero false = 0
counted (suc n) found = suc (suc n)

abbrev pub complete_length : List ℕ → ℕ
complete_length [] = 0
complete_length (b ∷ bs) = counted (complete_length bs) (is_line_end b)

abbrev either_part : ℕ → ℕ → ℕ → ℕ
either_part first size zero = first
either_part first size (suc n) = size + suc n

complete_length-append :
    (xs ys : List ℕ)
    → complete_length (xs ++ ys) ≡ either_part (complete_length xs) (length xs) (complete_length ys)
complete_length-append [] ys = ground arith
complete_length-append (x ∷ xs) ys = rw (complete_length-append xs ys) (ground arith)

-- Where the greater of the two searches finds a line end, the longest prefix ends behind it.
abbrev behind : Option ℕ → ℕ
behind none = 0
behind (some n) = suc n

newline-complete_length : (xs : List ℕ) → behind (newline xs) ≡ complete_length xs
newline-complete_length [] = refl
newline-complete_length (x ∷ xs) = rw (sym (newline-complete_length xs)) (ground arith)

take-nil : (n : ℕ) → take {A = ℕ} n [] ≡ []
take-nil zero = refl
take-nil (suc n) = refl

take-split : (s b : ℕ) (xs : List ℕ) → s ≤ b → take b xs ≡ take s xs ++ take (b - s) (drop s xs)
take-split zero b xs h = ap (λ (n : ℕ). take n xs) {x = b} {y = b - 0} (omega arith)
take-split (suc s) zero xs h = absurd (omega arith)
take-split (suc s) (suc b) [] h = sym (take-nil (suc b - suc s))
take-split (suc s) (suc b) (x ∷ xs) h =
    rw (sucs) (ap (λ ys. x ∷ ys) (take-split s b xs (omega (arith, h))))
  where
    sucs : suc b - suc s ≡ b - s
    sucs = omega arith

length-take_within : (n : ℕ) (xs : List ℕ) → n ≤ length xs → length (take n xs) ≡ n
length-take_within zero xs h = refl
length-take_within (suc n) [] h = absurd (omega arith)
length-take_within (suc n) (x ∷ xs) h = ap suc (length-take_within n xs (omega (arith, h)))

take-all : (xs : List ℕ) → take (length xs) xs ≡ xs
take-all [] = refl
take-all (x ∷ xs) = ap (λ ys. x ∷ ys) (take-all xs)

ends_line-complete_length : (xs : List ℕ) → ends_line xs ≡ true → complete_length xs ≡ length xs
ends_line-complete_length [] h = refl
ends_line-complete_length (b ∷ []) h = ground arith
ends_line-complete_length (b ∷ c ∷ bs) h = rw (ends_line-complete_length (c ∷ bs) h) refl

-- The last line end of a prefix is in its last bytes or before them.
complete_length-split :
    (s b : ℕ) (raw : List ℕ) (o : Option ℕ)
    → s ≤ b
    → b ≤ length raw
    → newline (read_chunk raw s b) ≡ o
    → complete_length (take b raw) ≡ either_part (complete_length (take s raw)) s (behind o)
complete_length-split s b raw o h k e = rw (take-split s b raw h) (
    rw (complete_length-append (take s raw) (read_chunk raw s b)) (
      rw (length-take_within s raw (omega (arith, h, k)))
        (rw (sym (newline-complete_length (read_chunk raw s b))) (rw e refl))))

suc_test : (n : ℕ) → (suc n == 0) ≡ false
suc_test n = ground arith

module _ (chunk : ℕ) (raw : List ℕ) (some_bytes : 1 ≤ chunk) where
  search_boundary-complete_length :
      (fuel boundary : ℕ)
      → boundary ≤ fuel
      → boundary ≤ length raw
      → search_boundary chunk raw fuel boundary ≡ complete_length (take boundary raw)
  unfolding search_boundary
  search_boundary-complete_length zero zero h k = refl
  search_boundary-complete_length zero (suc b) h k = absurd (omega arith)
  search_boundary-complete_length (suc fuel) zero h k = refl
  search_boundary-complete_length (suc fuel) (suc b) h k = rw (suc_test b) (
      round (newline (read_chunk raw (suc b - chunk) (suc b))) refl (
        search_boundary-complete_length fuel (suc b - chunk) (omega (arith, some_bytes))
          (omega (arith, k))))
    where
      round :
          (o : Option ℕ)
          → newline (read_chunk raw (suc b - chunk) (suc b)) ≡ o
          → search_boundary chunk raw fuel (suc b - chunk)
            ≡ complete_length (take (suc b - chunk) raw)
          → elim o [
            | some n ↦ (suc b - chunk) + n + 1
            | none ↦ search_boundary chunk raw fuel (suc b - chunk)
          ]
            ≡ complete_length (take (suc b) raw)
      round none e ih =
          rw (complete_length-split (suc b - chunk) (suc b) raw none (omega arith) k e) ih
      round (some n) e ih =
          rw (complete_length-split (suc b - chunk) (suc b) raw (some n) (omega arith) k e)
            (omega arith)

-- For any size of the chunks, the file is cut to its longest prefix that is empty or ends a line.
pub truncated_size-complete_length :
    (chunk : ℕ) (raw : List ℕ) → 1 ≤ chunk → truncated_size chunk raw ≡ complete_length raw
unfolding truncated_size
truncated_size-complete_length chunk raw h = elim (Bool-cases (ends_line raw)) [
  | inl y ↦ rw y (sym (ends_line-complete_length raw y))
  | inr n ↦
      rw
        (
          n,
          search_boundary-complete_length chunk raw h (length raw) (length raw) (omega arith)
              (omega arith),
          take-all raw,
        )
        refl
]
