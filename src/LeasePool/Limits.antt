-- ===== src/LeasePool/Limits.antt =====
-- How many slots of a pool are held (`acquire` and `release` of
-- packages/ac-jobs/src/ac_jobs/lease_pool.py).
use ac_foundation.Prelude.{
  Bool, Bool-cases, Option, ap, arith, false, inl, inr, ltb, none, some, suc, true, ℕ, ◌<◌, ◌≡◌,
  ◌≤◌, Option-cases, refl, subst₂, sym, ◌+◌, ◌∙◌, if◌then◌else◌,
}
use ac_foundation.LeasePool.{Pool, choose, scan, take_slot, acquire_round, release}
use ac_foundation.LeasePool.Scan.{
  held_from, scan-IsFree, scan-held, take-within, free-at_most, scan-none,
}

abbrev pub held : Pool → ℕ → ℕ
held p capacity = held_from p.slots capacity 0

-- What a round that takes a slot has found and done.
pub record Acquired (p q : Pool) (capacity limit slot : ℕ) : Type 0 where
  pub was_free : p.slots slot ≡ false
  pub in_range : slot < capacity
  pub one_more_held : held q capacity ≡ suc (held p capacity)
  pub within : held q capacity ≤ limit
  pub taken : q.slots slot ≡ true

take_slot-same : (slots : ℕ → Bool) (slot : ℕ) → take_slot slot slots slot ≡ true
take_slot-same slots slot = ground arith

abbrev with_slot : Pool → ℕ → Pool
with_slot p slot = record p { slots = take_slot slot p.slots }

take-Acquired :
    (p : Pool) (capacity limit slot : ℕ)
    → p.slots slot ≡ false
    → slot < capacity
    → held p capacity < limit
    → Acquired p (with_slot p slot) capacity limit slot
take-Acquired p capacity limit slot free inside room =
    let grows = take-within p.slots capacity 0 slot free (omega arith) (omega (arith, inside)) in
    record {
      was_free = free;
      in_range = inside;
      one_more_held = grows;
      within = omega (arith, grows, room);
      taken = take_slot-same p.slots slot;
    }

choose-some :
    (p q : Pool) (limit slot h i : ℕ)
    → choose limit p (h, some i) ≡ (some slot, q)
    → (h < limit) × (i ≡ slot) × (with_slot p i ≡ q)
unfolding choose
choose-some p q limit slot h i e = elim (Bool-cases (ltb h limit)) [
  | inl small ↦
      let pair : ◌≡◌ {A = Option ℕ × Pool} (some i, with_slot p i) (some slot, q) = ground arith in
      (ground arith, ground arith, ap (λ x. x.1) pair)
  | inr large ↦ absurd (ground arith)
]

choose-Acquired :
    (p q : Pool) (capacity limit slot : ℕ) (seen : ℕ × Option ℕ)
    → scan p.slots capacity 0 (0, none) ≡ seen
    → choose limit p seen ≡ (some slot, q)
    → Acquired p q capacity limit slot
choose-Acquired p q capacity limit slot (h, none) s e = unfold choose in absurd (ground arith)
choose-Acquired p q capacity limit slot (h, some i) s e =
    let (room, same, after) = choose-some p q limit slot h i e in
    let counted : h ≡ held p capacity =
      sym (ap (λ x. x.0) s) ∙ scan-held p.slots capacity 0 0 none ∙ omega arith in
    elim (scan-IsFree p.slots capacity 0 0 none i (ap (λ x. x.1) s)) [
      | inl k ↦ absurd cc
      | inr (free, low, high) ↦
          subst₂ (λ r j. Acquired p r capacity limit j) after same
            (take-Acquired p capacity limit i free (omega (arith, high))
              (omega (arith, room, counted)))
    ]

-- A round of `acquire` that takes a slot takes one of the pool's that nobody held; it then is held,
-- and with it no more slots are held than the limit allows.
pub acquire_round-Acquired :
    (capacity limit slot : ℕ) (p q : Pool)
    → acquire_round capacity limit p ≡ (some slot, q)
    → Acquired p q capacity limit slot
unfolding acquire_round
acquire_round-Acquired capacity limit slot p q e = elim (Bool-cases p.acquiring) [
  | inl busy ↦ absurd (ground arith)
  | inr idle ↦
      choose-Acquired p q capacity limit slot (scan p.slots capacity 0 (0, none)) refl
        (ground arith)
]

-- While no other process is at its round, a round takes a slot whenever fewer slots are held than
-- the limit, which is at most the capacity.
pub acquire_round-takes :
    (capacity limit : ℕ) (p : Pool)
    → p.acquiring ≡ false
    → held p capacity < limit
    → limit ≤ capacity
    → (slot : ℕ) × (q : Pool) × (acquire_round capacity limit p ≡ (some slot, q))
unfolding acquire_round choose
acquire_round-takes capacity limit p idle room fits =
    elim (Option-cases (scan p.slots capacity 0 (0, none)).1) [
      | inl k ↦
          let (x, full) = scan-none p.slots capacity 0 0 none k in
          absurd (omega (arith, full, room, fits))
      | inr (i, k) ↦ (
        i,
        with_slot p i,
        ap (λ b. if b then (none, p) else choose limit p (scan p.slots capacity 0 (0, none))) idle
            ∙ found i k,
      )
    ]
  where
    found :
        (i : ℕ)
        → (scan p.slots capacity 0 (0, none)).1 ≡ some i
        → choose limit p (scan p.slots capacity 0 (0, none)) ≡ (some i, with_slot p i)
    found i k =
        let counted = scan-held p.slots capacity 0 0 none in
        go (scan p.slots capacity 0 (0, none)) k counted
      where
        go :
            (seen : ℕ × Option ℕ)
            → seen.1 ≡ some i
            → seen.0 ≡ 0 + held p capacity
            → choose limit p seen ≡ (some i, with_slot p i)
        go (h, none) a b = cc
        go (h, some j) a b = let small : h < limit = omega (arith, b, room) in ground (arith, small)

-- What the processes that share a pool do to its slots, one after the other.
pub data Uses (capacity bound : ℕ) (start : Pool) : Pool → Type 0 where
  unused : Uses capacity bound start start
  acquired :
      {p q : Pool}
      → Uses capacity bound start p
      → (limit slot : ℕ) → limit ≤ bound
      → acquire_round capacity limit p ≡ (some slot, q)
      → Uses capacity bound start q
  released :
      {p : Pool}
      → Uses capacity bound start p
      → (slot : ℕ) → Uses capacity bound start (release slot p)

-- However many processes acquire slots, with limits of at most `bound`, and release them, in any
-- order: never more than `bound` slots are held.
pub uses-bounded :
    {capacity bound : ℕ} {start p : Pool}
    → held start capacity ≤ bound
    → Uses capacity bound start p
    → held p capacity ≤ bound
unfolding release
uses-bounded h unused = h
uses-bounded h (acquired u limit slot fits e) =
    omega (arith, (acquire_round-Acquired _ limit slot _ _ e).within, fits)
uses-bounded {capacity} h (released {p} u slot) =
    omega (arith, uses-bounded h u, free-at_most p.slots capacity 0 slot)
