-- ===== src/LeasePool/Scan.antt =====
-- What one pass over the slots finds (`BoundedLeasePool.acquire` of
-- packages/ac-jobs/src/ac_jobs/lease_pool.py).
use ac_foundation.Prelude.{
  Bool, Bool-cases, Option, arith, false, inl, inr, is_none, none, refl, some, suc, true, zero, ℕ,
  ◌+◌, ◌<◌, ◌≡◌, ◌≤◌, ◌⊎◌, ◌==◌,
}
use ac_foundation.LeasePool.{first_slot, free_slot, scan, take_slot}

abbrev bit : Bool → ℕ
bit true = 1
bit false = 0

-- How many of the `n` slots from `slot` on are held.
abbrev pub held_from : (ℕ → Bool) → ℕ → ℕ → ℕ
held_from slots zero slot = 0
held_from slots (suc n) slot = bit (slots slot) + held_from slots n (slot + 1)

pub scan-held :
    (slots : ℕ → Bool) (n slot held : ℕ) (c : Option ℕ)
    → (scan slots n slot (held, c)).0 ≡ held + held_from slots n slot
unfolding scan
scan-held slots zero slot held c = omega arith
scan-held slots (suc n) slot held c =
    let taken = scan-held slots n (slot + 1) (held + 1) c in
    let free = scan-held slots n (slot + 1) held (first_slot c slot) in ground (arith, taken, free)

-- A candidate is the one that was there, or a free slot of the range.
abbrev IsFree : (ℕ → Bool) → ℕ → ℕ → Option ℕ → ℕ → Type 0
IsFree slots n slot c i = (c ≡ some i) ⊎ ((slots i ≡ false) × (slot ≤ i) × (i < slot + n))

IsFree-later :
    (slots : ℕ → Bool) (n slot i : ℕ) (c d : Option ℕ)
    → (d ≡ some i → IsFree slots (suc n) slot c i)
    → IsFree slots n (slot + 1) d i
    → IsFree slots (suc n) slot c i
IsFree-later slots n slot i c d k (inl h) = k h
IsFree-later slots n slot i c d k (inr (free, low, high)) =
    inr (free, omega (arith, low), omega (arith, high))

pub scan-IsFree :
    (slots : ℕ → Bool) (n slot held : ℕ) (c : Option ℕ) (i : ℕ)
    → (scan slots n slot (held, c)).1 ≡ some i
    → IsFree slots n slot c i
unfolding scan
scan-IsFree slots zero slot held c i h = inl h
scan-IsFree slots (suc n) slot held c i h = elim (Bool-cases (slots slot)) [
  | inl e ↦
      IsFree-later slots n slot i c c (λ k. inl k)
        (scan-IsFree slots n (slot + 1) (held + 1) c i (ground arith))
  | inr e ↦
      IsFree-later slots n slot i c (first_slot c slot) (first c e)
        (scan-IsFree slots n (slot + 1) held (first_slot c slot) i (ground arith))
]
  where
    first :
        (c : Option ℕ)
        → slots slot ≡ false
        → first_slot c slot ≡ some i
        → IsFree slots (suc n) slot c i
    first none e k = let same : slot ≡ i = cc in inr (cc, omega (arith, same), omega (arith, same))
    first (some x) e k = inl k

-- Without a candidate every slot is held.
pub scan-none :
    (slots : ℕ → Bool) (n slot held : ℕ) (c : Option ℕ)
    → (scan slots n slot (held, c)).1 ≡ none
    → (c ≡ none) × (held_from slots n slot ≡ n)
unfolding scan
scan-none slots zero slot held c h = (h, refl)
scan-none slots (suc n) slot held c h = elim (Bool-cases (slots slot)) [
  | inl e ↦
      let (is_none, full) = scan-none slots n (slot + 1) (held + 1) c (ground arith) in
      (is_none, ground (arith, full))
  | inr e ↦
      let (is_none, full) = scan-none slots n (slot + 1) held (first_slot c slot) (ground arith) in
      absurd (some_first c is_none)
]
  where
    some_first : (c : Option ℕ) → first_slot c slot ≡ none → ⊥
    some_first none k = cc
    some_first (some x) k = cc

-- A slot before the range is not counted.
take-before :
    (slots : ℕ → Bool) (n slot i : ℕ)
    → i < slot
    → held_from (take_slot i slots) n slot ≡ held_from slots n slot
take-before slots zero slot i h = refl
take-before slots (suc n) slot i h =
    let rest = take-before slots n (slot + 1) i (omega (arith, h)) in ground (arith, rest)

-- Taking a free slot of the range adds one.
pub take-within :
    (slots : ℕ → Bool) (n slot i : ℕ)
    → slots i ≡ false
    → slot ≤ i
    → i < slot + n
    → held_from (take_slot i slots) n slot ≡ suc (held_from slots n slot)
take-within slots zero slot i free low high = absurd (omega (arith, low, high))
take-within slots (suc n) slot i free low high = elim (Bool-cases (slot == i)) [
  | inl e ↦
      let same : slot ≡ i = ground arith in
      let rest = take-before slots n (slot + 1) i (omega (arith, same)) in
      ground (arith, rest, same)
  | inr e ↦
      let below : slot < i = ground arith in
      let rest =
        take-within slots n (slot + 1) i free (omega (arith, below)) (omega (arith, high)) in
      ground (arith, rest)
]

pub free-at_most :
    (slots : ℕ → Bool) (n slot i : ℕ)
    → held_from (free_slot i slots) n slot ≤ held_from slots n slot
free-at_most slots zero slot i = omega arith
free-at_most slots (suc n) slot i =
    let rest = free-at_most slots n (slot + 1) i in ground (arith, rest)
