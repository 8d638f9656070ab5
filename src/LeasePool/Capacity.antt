-- ===== src/LeasePool/Capacity.antt =====
-- The capacity that the openers of a pool agree on (`_bind_capacity` of
-- packages/ac-jobs/src/ac_jobs/lease_pool.py).
use ac_foundation.Errors.{>>=-eq-ok, Result, ok}
use ac_foundation.Prelude.{
  Bool-cases, arith, if◌then◌else◌, inl, inr, ltb, refl, subst, suc, zero, ℕ, ◌≡◌, ◌≤◌,
}
use ac_foundation.Json.{Fields}
use ac_foundation.Storage.{JsonFile, absent, damaged, holding}
use ac_foundation.LeasePool.{bind_capacity, open_pool, persisted_capacity, pool_document}
use ac_foundation.Repository.Directory.Rules.{persisted}

document-reads : (n : ℕ) → persisted_capacity (pool_document (suc n)) ≡ ok (suc n)
unfolding persisted_capacity
document-reads n = refl

-- After an opener is done, pool.json holds the capacity that it got.
pub record Bound (file : JsonFile) (requested capacity : ℕ) : Type 0 where
  pub fields : Fields
  pub in_file : file ≡ holding fields
  pub persisted : persisted_capacity fields ≡ ok capacity
  pub enough : requested ≤ capacity

bind-new : (n : ℕ) → Bound (holding (pool_document (suc n))) (suc n) (suc n)
bind-new n = record {
  fields = pool_document (suc n);
  in_file = refl;
  persisted = document-reads n;
  enough = omega arith;
}

settle : ℕ → Fields → ℕ → Result (JsonFile × ℕ)
settle requested fs persisted =
    if ltb persisted requested
    then ok (holding (pool_document requested), requested)
    else ok (holding fs, persisted)

settle-Bound :
    (n : ℕ) (fs : Fields) (persisted : ℕ) {file' : JsonFile} {c : ℕ}
    → persisted_capacity fs ≡ ok persisted
    → settle (suc n) fs persisted ≡ ok (file', c)
    → Bound file' (suc n) c
unfolding settle
settle-Bound n fs persisted {file'} {c} p h = elim (Bool-cases (ltb persisted (suc n))) [
  | inl small ↦
      let same : ◌≡◌ {A = JsonFile × ℕ} (holding (pool_document (suc n)), suc n) (file', c) =
        ground arith in
      subst (λ x. Bound x.0 (suc n) x.1) same (bind-new n)
  | inr large ↦
      let same : ◌≡◌ {A = JsonFile × ℕ} (holding fs, persisted) (file', c) = ground arith in
      subst (λ x. Bound x.0 (suc n) x.1) same
        (record { fields = fs; in_file = refl; persisted = p; enough = ground arith })
]

pub bind-Bound :
    (n : ℕ) (file : JsonFile) {file' : JsonFile} {c : ℕ}
    → bind_capacity (suc n) file ≡ ok (file', c)
    → Bound file' (suc n) c
unfolding bind_capacity settle
bind-Bound n absent {file'} {c} h =
    let same : ◌≡◌ {A = JsonFile × ℕ} (holding (pool_document (suc n)), suc n) (file', c) = cc in
    subst (λ x. Bound x.0 (suc n) x.1) same (bind-new n)
bind-Bound n damaged h = absurd (ground arith)
bind-Bound n (holding fs) h =
    let (p, e, k) = >>=-eq-ok (persisted_capacity fs) (settle (suc n) fs) h in
    settle-Bound n fs p e k

-- The next opener of a bound pool.
rebind :
    (requested later : ℕ) (file : JsonFile) (c : ℕ)
    → Bound file requested c
    → bind_capacity later file
      ≡ ok (if ltb c later then (holding (pool_document later), later) else (file, c))
unfolding bind_capacity
rebind requested later file c b = rw (b.in_file) (ground (arith, b.persisted))

-- The capacity of a pool never shrinks: an opener gets at least what it asked for, and whoever
-- opens the pool next gets the greater of that and of its own request.
pub open_pool-grows :
    (requested later : ℕ) (file : JsonFile) {file' : JsonFile} {c : ℕ}
    → open_pool requested file ≡ ok (file', c)
    → 1 ≤ later
    → (requested ≤ c)
      × (open_pool later file'
          ≡ ok (if ltb c later then (holding (pool_document later), later) else (file', c)))
unfolding open_pool
open_pool-grows zero later file h l = absurd (ground arith)
open_pool-grows (suc n) later file {file'} {c} h l =
    let b = bind-Bound n file (ground arith) in
    (b.enough, ground (arith, rebind (suc n) later file' c b))
