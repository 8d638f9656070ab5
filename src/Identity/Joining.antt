-- ===== src/Identity/Joining.antt =====
-- Artifact ids that are joined by a slash, as the scoped stores of
-- packages/ac-jobs/src/ac_jobs/storage.py join them, under `validate_artifact_id` of
-- packages/ac-jobs/src/ac_jobs/identity.py.
use ac_foundation.Prelude.{
  Bool, Bool-cases, List, [], all, arith, false, inl, inr, length, refl, true, ℕ, ◌++◌, ◌==◌, ◌∷◌,
  ◌≡◌, ◌≤◌, ap, length-append, ◌∙◌,
}
use ac_foundation.Identity.{
  contains_code, ends_with, is_artifact_id, split_slash, starts_with, is_artifact_part,
}

split_slash-parts :
    (cs : List ℕ) → (part : List ℕ) × (parts : List (List ℕ)) × (split_slash cs ≡ part ∷ parts)
unfolding split_slash
split_slash-parts [] = ([], [], refl)
split_slash-parts (c ∷ cs) =
    let (part, parts, e) = split_slash-parts cs in
    elim (Bool-cases (c == b'/')) [
      | inl s ↦ ([], split_slash cs, ground arith)
      | inr n ↦ (c ∷ part, parts, ground (arith, e))
    ]

split_slash-append :
    (cs ds : List ℕ) → split_slash (cs ++ b'/' ∷ ds) ≡ split_slash cs ++ split_slash ds
unfolding split_slash
split_slash-append [] ds = refl
split_slash-append (c ∷ cs) ds =
    let rest = split_slash-append cs ds in
    let (part, parts, e) = split_slash-parts cs in
    elim (Bool-cases (c == b'/')) [ inl s ↦ ground (arith, rest) | inr n ↦ ground (arith, rest, e) ]

all-append :
    (p : List ℕ → Bool) (xs ys : List (List ℕ))
    → all p xs ≡ true
    → all p ys ≡ true
    → all p (xs ++ ys) ≡ true
all-append p [] ys h k = k
all-append p (x ∷ xs) ys h k = ground (arith, all-append p xs ys)

contains_code-join :
    (d : ℕ) (cs ds : List ℕ)
    → contains_code d cs ≡ false
    → d == b'/' ≡ false
    → contains_code d ds ≡ false
    → contains_code d (cs ++ b'/' ∷ ds) ≡ false
contains_code-join d [] ds h s k = ground arith
contains_code-join d (c ∷ cs) ds h s k = ground (arith, contains_code-join d cs ds)

ends_with-join :
    (d : ℕ) (cs ds : List ℕ) → 1 ≤ length ds → ends_with d (cs ++ b'/' ∷ ds) ≡ ends_with d ds
ends_with-join d cs [] h = absurd (omega (arith, h))
ends_with-join d [] (e ∷ ds) h = refl
ends_with-join d (c ∷ []) (e ∷ ds) h = refl
ends_with-join d (c ∷ c' ∷ cs) (e ∷ ds) h = ends_with-join d (c' ∷ cs) (e ∷ ds) h

starts_with-join :
    (d : ℕ) (cs ds : List ℕ) → 1 ≤ length cs → starts_with d (cs ++ ds) ≡ starts_with d cs
starts_with-join d [] ds h = absurd (omega (arith, h))
starts_with-join d (c ∷ cs) ds h = refl

-- What `is_artifact_id` tests.
record ArtifactId (cs : List ℕ) : Type 0 where
  nonempty : 1 ≤ length cs
  no_backslash : contains_code b'\\' cs ≡ false
  no_root : starts_with b'/' cs ≡ false
  no_end : ends_with b'/' cs ≡ false
  good_parts : all is_artifact_part (split_slash cs) ≡ true

ArtifactId-of : (cs : List ℕ) → is_artifact_id cs ≡ true → ArtifactId cs
unfolding is_artifact_id
ArtifactId-of cs h = record {
  nonempty = ground arith;
  no_backslash = ground arith;
  no_root = ground arith;
  no_end = ground arith;
  good_parts = ground arith;
}

is_artifact_id-of : (cs : List ℕ) → ArtifactId cs → length cs ≤ 512 → is_artifact_id cs ≡ true
unfolding is_artifact_id
is_artifact_id-of cs a short =
    ground (arith, a.nonempty, a.no_backslash, a.no_root, a.no_end, a.good_parts)

-- Two valid artifact ids that are joined by a slash are a valid artifact id, as long as the whole is
-- no longer than 512 characters.
pub is_artifact_id-join :
    (prefix value : List ℕ)
    → is_artifact_id prefix ≡ true
    → is_artifact_id value ≡ true
    → length (prefix ++ b'/' ∷ value) ≤ 512
    → is_artifact_id (prefix ++ b'/' ∷ value) ≡ true
is_artifact_id-join prefix value p v short =
    let a = ArtifactId-of prefix p in
    let b = ArtifactId-of value v in
    is_artifact_id-of (prefix ++ b'/' ∷ value)
      (record {
        nonempty = omega (arith, length-append prefix (b'/' ∷ value), a.nonempty);
        no_backslash = contains_code-join b'\\' prefix value a.no_backslash refl b.no_backslash;
        no_root = starts_with-join b'/' prefix (b'/' ∷ value) a.nonempty ∙ a.no_root;
        no_end = ends_with-join b'/' prefix value b.nonempty ∙ b.no_end;
        good_parts =
            ap (all is_artifact_part) (split_slash-append prefix value)
            ∙ all-append is_artifact_part (split_slash prefix) (split_slash value) a.good_parts
                b.good_parts;
      })
      short
