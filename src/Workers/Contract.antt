-- ===== src/Workers/Contract.antt =====
-- The codec of `_GroupWorkerContract` (packages/ac-jobs/src/ac_jobs/group_workers.py).
use ac_foundation.Json.{Fields, JsonValue, int, negsuc, pos, get}
use ac_foundation.Workers.{
  GroupWorkerControl, decode_control, encode_control, positive, worker_contract,
}
use ac_foundation.Storage.State.Laws.{RoundTrips}
use ac_foundation.Prelude.{
  String, arith, refl, suc, true, zero, ℕ, ◌≡◌, ◌≤◌, Bool-cases, inl, inr, ◌⊎◌,
}
use ac_foundation.Identity.{codes, matches_simple_id, validate_simple_id}
use ac_foundation.Errors.{ok, err, invalid_run_id}

-- A control that a group can work with.
pub record IsSound (c : GroupWorkerControl) : Type 0 where
  pub named : matches_simple_id (codes c.group_id) ≡ true
  pub some_worker : 1 ≤ c.target_workers
  pub within : c.target_workers ≤ c.capacity

pub simple_id_cases :
    (t : String)
    → (validate_simple_id t ≡ ok t) × (matches_simple_id (codes t) ≡ true)
      ⊎ (validate_simple_id t ≡ err invalid_run_id)
unfolding validate_simple_id
simple_id_cases t = elim (Bool-cases (matches_simple_id (codes t))) [
  | inl h ↦ inl (ground arith, h)
  | inr h ↦ inr (ground arith)
]

valid_of_id : (t : String) → matches_simple_id (codes t) ≡ true → validate_simple_id t ≡ ok t
unfolding validate_simple_id
valid_of_id t h = ground arith

positive_ok : (j : JsonValue) {n : ℕ} → positive j ≡ ok n → 1 ≤ n
positive_ok (int (pos (suc n))) h = ground arith
positive_ok (int (pos zero)) h = absurd (ground arith)
positive_ok (int (negsuc n)) h = absurd (ground arith)
positive_ok _ h = absurd (ground arith)

positive_suc : (n : ℕ) → 1 ≤ n → positive (int (pos n)) ≡ ok n
positive_suc zero h = absurd (omega arith)
positive_suc (suc n) h = refl

-- A control that is read from a document is sound.
pub decode-IsSound : (fs : Fields) (c : GroupWorkerControl) → decode_control fs ≡ ok c → IsSound c
unfolding decode_control
decode-IsSound fs c h = record {
  named = ground (arith, simple_id_cases c.group_id);
  some_worker = ground (arith, positive_ok (get "target_workers" fs) {n = c.target_workers});
  within = ground arith;
}

-- A sound control is read back as it was written.
pub IsSound-RoundTrips : (c : GroupWorkerControl) → IsSound c → RoundTrips worker_contract c
unfolding decode_control encode_control
IsSound-RoundTrips c s = record {
  decoded = ground (
    arith,
    valid_of_id c.group_id s.named,
    positive_suc c.target_workers s.some_worker,
    positive_suc c.capacity,
  );
}
