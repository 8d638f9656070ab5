-- ===== src/LeasePool/Waiting.antt =====
-- The loop of `acquire` (packages/ac-jobs/src/ac_jobs/lease_pool.py): what it returns, and when.
use ac_foundation.Prelude.{
  Bool, Bool-cases, Option-cases, arith, false, inl, inr, none, some, subst, suc, sym, zero, ℕ, ◌+◌,
  ◌<◌, ◌==◌, ◌≡◌, ◌≤◌, ltb, ◌||◌,
}
use ac_foundation.LeasePool.{Pool, acquire_round, acquire_rounds, acquire}
use ac_foundation.Errors.{Result, Result-cases, err, ok, run_busy, value_error}
use ac_foundation.LeasePool.Limits.{acquire_round-takes, held}

pub record HasRoom (p : Pool) (capacity limit : ℕ) : Type 0 where
  pub idle : p.acquiring ≡ false
  pub below : held p capacity < limit

-- After round `k` the other processes leave room, whatever they found.
pub record LeavesRoom (others : ℕ → Pool → Pool) (k capacity limit : ℕ) : Type 0 where
  pub at : (p : Pool) → HasRoom (others k p) capacity limit

module _ (others : ℕ → Pool → Pool) (checkpoint : ℕ → Result (Unit {0})) (blocking : Bool)
    (capacity limit : ℕ) where
  abbrev Ends : ℕ → ℕ → Pool → Type 0
  Ends fuel i p =
      (r : Result (ℕ × Pool)) × (acquire_rounds others checkpoint blocking capacity limit fuel i p
        ≡ some r)

  -- One more round ends the loop or leaves it to the rest.
  round-Ends :
      (fuel i : ℕ) (p : Pool)
      → ((acquire_round capacity limit p).0 ≡ none
          → Ends fuel (i + 1) (others i (acquire_round capacity limit p).1))
      → Ends (suc fuel) i p
  unfolding acquire_rounds
  round-Ends fuel i p rest = elim (Result-cases (checkpoint i)) [
    | inr (e, c) ↦ (err e, ground arith)
    | inl (t, c) ↦ elim (Option-cases (acquire_round capacity limit p).0) [
      | inr (slot, found) ↦ (ok (slot, (acquire_round capacity limit p).1), ground arith)
      | inl nothing ↦ elim (Bool-cases blocking) [
        | inr b ↦ (err run_busy, ground arith)
        | inl b ↦ let (r, e) = rest nothing in (r, ground (arith, e))
      ]
    ]
  ]

  room-Ends :
      (fuel i : ℕ) (p : Pool) → limit ≤ capacity → HasRoom p capacity limit → Ends (suc fuel) i p
  room-Ends fuel i p fits room =
      let (slot, q, e) = acquire_round-takes capacity limit p room.idle room.below fits in
      round-Ends fuel i p (λ nothing. absurd (ground arith))

  rounds-Ends :
      (k fuel i : ℕ) (p : Pool)
      → limit ≤ capacity
      → LeavesRoom others k capacity limit
      → i ≤ k
      → k + 1 < fuel + i
      → Ends fuel i p
  rounds-Ends k zero i p fits room early enough = absurd (omega (arith, early, enough))
  rounds-Ends k (suc zero) i p fits room early enough = absurd (omega (arith, early, enough))
  rounds-Ends k (suc (suc fuel)) i p fits room early enough = elim (Bool-cases (i == k)) [
    | inl e ↦
        let same : i ≡ k = ground arith in
        round-Ends (suc fuel) i p (λ _. room-Ends fuel (i + 1) _ fits (
          subst (λ j. HasRoom (others j (acquire_round capacity limit p).1) capacity limit)
            (sym same) (room.at _)))
    | inr e ↦
        let below : i < k = ground arith in
        round-Ends (suc fuel) i p (λ _.
          rounds-Ends k (suc fuel) (i + 1) _ fits room (omega (arith, below))
            (omega (arith, enough)))
  ]

-- Whatever the checkpoints do: an `acquire` with a limit of at most the capacity returns a slot or
-- raises once the other processes have left room after a round.
pub acquire-ends :
    (others : ℕ → Pool → Pool) (checkpoint : ℕ → Result (Unit {0})) (blocking : Bool)
    (capacity limit k fuel : ℕ) (p : Pool)
    → LeavesRoom others k capacity limit
    → k + 1 < fuel
    → (r : Result (ℕ × Pool)) × (acquire others checkpoint blocking capacity (some limit) fuel p
        ≡ some r)
unfolding acquire
acquire-ends others checkpoint blocking capacity limit k fuel p room enough =
    elim (Bool-cases (limit == 0 || ltb capacity limit)) [
      | inl bad ↦ (err value_error, ground arith)
      | inr good ↦
          let fits : limit ≤ capacity = ground arith in
          let (r, e) =
            rounds-Ends others checkpoint blocking capacity limit k fuel 0 p fits room (omega arith)
              (omega (arith, enough)) in
          (r, ground (arith, e))
    ]
