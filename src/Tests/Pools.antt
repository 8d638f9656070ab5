-- ===== src/Tests/Pools.antt =====
-- A pool of three slots.
use ac_foundation.LeasePool.Limits.{
  released, Uses, acquire_round-takes, acquired, held, unused, uses-bounded,
}
use ac_foundation.LeasePool.{
  Pool, acquire, acquire_round, bind_capacity, open_pool, persisted_capacity, pool_document,
  release, take_slot, scan,
}
use ac_foundation.Errors.{Result, ok}
use ac_foundation.LeasePool.Waiting.{acquire-ends}
use ac_foundation.Prelude.{arith, false, refl, some, true, ℕ, ◌==◌, ◌≡◌, ◌≤◌}
use ac_foundation.Storage.{holding}

abbrev three : Pool
three = record { pool_file = holding (pool_document 3); acquiring = false; slots = λ i. i == 0 }

-- Slot 0 is held, so slot 1 is taken.
second_slot : acquire_round 3 2 three ≡ (some 1, record three { slots = take_slot 1 three.slots })
unfolding acquire_round scan
second_slot = refl

acquire_round-takes_example : (slot : ℕ) × (q : Pool) × (acquire_round 3 2 three ≡ (some slot, q))
acquire_round-takes_example = acquire_round-takes 3 2 three refl (omega arith) (omega arith)

abbrev used : Pool
used = release 0 (record three { slots = take_slot 1 three.slots })

two_uses : Uses 3 2 three used
two_uses = released (acquired unused 2 1 (omega arith) second_slot) 0

uses-bounded_example : held used 3 ≤ 2
uses-bounded_example = uses-bounded (omega arith) two_uses

opened : open_pool 4 (holding (pool_document 3)) ≡ ok (holding (pool_document 4), 4)
unfolding open_pool bind_capacity persisted_capacity
opened = refl

acquire-ends_example :
    (r : Result (ℕ × Pool)) × (acquire (λ i p. three) (λ i. ok tt) true 3 (some 2) 2 three ≡ some r)
acquire-ends_example =
    acquire-ends (λ i p. three) (λ i. ok tt) true 3 2 0 2 three
      (record { at = λ p. record { idle = refl; below = omega arith } }) (omega arith)
