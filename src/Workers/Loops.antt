-- ===== src/Workers/Loops.antt =====
-- The retry loops of packages/ac-jobs/src/ac_jobs/group_workers.py, whatever a round does.
use native.Mathlib.Decide.{dec_lt}
use ac_foundation.Prelude.{
  Bool, Bool-cases, Option, arith, false, inl, inr, refl, some, subst, suc, zero, ℕ, ◌+◌, ◌<◌, ◌≡◌,
  ◌≢◌, ◌≤◌,
}
use ac_foundation.Workers.{
  GroupWorkerControl, Round, again, done, from_read, loop_rounds, raised, retry_on,
}
use ac_foundation.Errors.{JobsError, Result, err, ok}
use ac_foundation.Storage.{JsonFile}

-- What a round that ends says of its value.
abbrev pub RoundGives : {A : Type 0} → (A → Type 0) → Round A → Type 0
RoundGives P (done a) = P a
RoundGives P (raised e) = Unit
RoundGives P (again file) = Unit

pub retry_gives :
    {A : Type 0} (P : A → Type 0) (conflict : JobsError → Bool) (file : JsonFile) (m : Result A)
    → ((a : A) → m ≡ ok a → P a)
    → RoundGives P (retry_on conflict file m)
retry_gives P conflict file (ok a) h = h a refl
retry_gives P conflict file (err e) h = elim (Bool-cases (conflict e)) [
  | inl y ↦ rw y tt
  | inr n ↦ rw n tt
]

pub read_gives :
    {A : Type 0} (P : A → Type 0) (m : Result (Option GroupWorkerControl))
    (f : Option GroupWorkerControl → Round A)
    → ((c : Option GroupWorkerControl) → m ≡ ok c → RoundGives P (f c))
    → RoundGives P (from_read m f)
read_gives P (ok c) f h = h c refl
read_gives P (err e) f h = tt

module _ {A : Type 0} (P : A → Type 0) (round : JsonFile → JsonFile → Round A)
    (gives : (file file' : JsonFile) → RoundGives P (round file file')) where
  -- What every ending round gives, the loop gives.
  pub loop_gives :
      (others : ℕ → JsonFile → JsonFile) (fuel i : ℕ) (file : JsonFile) (a : A)
      → loop_rounds round others fuel i file ≡ some (ok a)
      → P a
  unfolding loop_rounds
  loop_gives others zero i file a h = absurd (ground arith)
  loop_gives others (suc fuel) i file a h =
      after (round file (others i file)) (gives file (others i file))
        (λ g k. loop_gives others fuel (i + 1) g a k) h
    where
      after :
          (r : Round A)
          → RoundGives P r
          → ((g : JsonFile) → loop_rounds round others fuel (i + 1) g ≡ some (ok a) → P a)
          → (elim r [
            | done b ↦ some (ok b)
            | raised e ↦ some (err e)
            | again g ↦ loop_rounds round others fuel (i + 1) g
          ])
            ≡ some (ok a)
          → P a
      after (done b) s rec k = subst P (ground arith) s
      after (raised e) s rec k = absurd (ground arith)
      after (again g) s rec k = rec g k

-- From round `k` on nobody else writes.
pub record QuietFrom (others : ℕ → JsonFile → JsonFile) (k : ℕ) : Type 0 where
  pub quiet : (i : ℕ) (file : JsonFile) → k ≤ i → others i file ≡ file

-- A round without interference does not ask for another.
pub record Decides {A : Type 0} (round : JsonFile → JsonFile → Round A) : Type 0 where
  pub decided : (file file' : JsonFile) → round file file ≢ again file'

module _ {A : Type 0} (round : JsonFile → JsonFile → Round A) (decides : Decides round) where
  -- With fuel for the noisy rounds and one more, the loop has a result.
  pub loop_ends :
      (others : ℕ → JsonFile → JsonFile) (k fuel i : ℕ) (file : JsonFile)
      → QuietFrom others k
      → i ≤ k
      → k < fuel + i
      → (r : Result A) × (loop_rounds round others fuel i file ≡ some r)
  unfolding loop_rounds
  loop_ends others k zero i file q h p = absurd (omega arith)
  loop_ends others k (suc fuel) i file q h p =
      after (round file (others i file)) refl
        (λ g below. loop_ends others k fuel (i + 1) g q (omega arith) (omega arith))
    where
      after :
          (r : Round A)
          → round file (others i file) ≡ r
          → ((g : JsonFile)
              → i < k
              → (out : Result A) × (loop_rounds round others fuel (i + 1) g ≡ some out))
          → (out : Result A) × ((elim r [
            | done a ↦ some (ok a)
            | raised e ↦ some (err e)
            | again g ↦ loop_rounds round others fuel (i + 1) g
          ])
              ≡ some out)
      after (done a) e rec = (ok a, refl)
      after (raised x) e rec = (err x, refl)
      after (again g) e rec = elim (dec_lt i k) [
        | yes below ↦ rec g below
        | no reached ↦ absurd (
            decides.decided file g
              (subst (λ f. round file f ≡ again g) (q.quiet i file (omega arith)) e))
      ]

pub retry_ends :
    {A : Type 0} (conflict : JobsError → Bool) (file : JsonFile) (m : Result A) (g : JsonFile)
    → ((e : JobsError) → m ≡ err e → conflict e ≡ false)
    → retry_on conflict file m ≢ again g
retry_ends conflict file (ok a) g h k = absurd (ground arith)
retry_ends conflict file (err e) g h k = absurd (ground (arith, h e refl))
