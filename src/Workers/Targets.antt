-- ===== src/Workers/Targets.antt =====
-- `set_group_workers` of packages/ac-jobs/src/ac_jobs/group_workers.py.
use ac_foundation.Prelude.{
  Bool-cases, Option, String, arith, inl, inr, ltb, none, refl, some, subst₂, suc, sym, ℕ, ◌==◌,
  ◌≡◌, ◌≤◌, ◌⊎◌,
}
use ac_foundation.Workers.{
  GroupWorkerControl, is_revision_conflict, retargeted, set_current, set_group_workers, set_round,
  with_previous, worker_contract,
}
use ac_foundation.Workers.Contract.{IsSound}
use ac_foundation.Storage.{JsonFile}
use ac_foundation.Errors.{Result, err, ok}
use ac_foundation.Workers.Loops.{RoundGives, loop_gives, read_gives, retry_gives}
use ac_foundation.Storage.State.{read_state}
use ac_foundation.Workers.Safety.{read_state-IsSound, swap_state-value}

-- How the returned pair of controls answers a request for `target` workers.
pub record Retargeted (p u : GroupWorkerControl) (target : ℕ) : Type 0 where
  pub as_asked : u.target_workers ≡ target
  pub sound : IsSound u
  pub same_capacity : u.capacity ≡ p.capacity
  pub same_group : u.group_id ≡ p.group_id
  pub revisions : (u ≡ p) ⊎ (u.revision ≡ suc p.revision)

abbrev RetargetedAt : ℕ → JsonFile × GroupWorkerControl × GroupWorkerControl → Type 0
RetargetedAt target (file, p, u) = Retargeted p u target

previous_of :
    (c : GroupWorkerControl) (m : Result (JsonFile × GroupWorkerControl))
    (a : JsonFile × GroupWorkerControl × GroupWorkerControl)
    → with_previous c m ≡ ok a
    → (a.1 ≡ c) × (m ≡ ok (a.0, a.2))
previous_of c (ok (file, v)) a h = (ground arith, ground arith)
previous_of c (err e) a h = absurd (ground arith)

retargeted_ok :
    (c : GroupWorkerControl) (target : ℕ)
    → IsSound c
    → 1 ≤ target
    → target ≤ c.capacity
    → Retargeted c (retargeted c target) target
retargeted_ok c target s p f = record {
  as_asked = refl;
  sound = record { named = s.named; some_worker = p; within = f };
  same_capacity = refl;
  same_group = refl;
  revisions = inr (omega arith);
}

current_retargets :
    (target : ℕ) (file file' : JsonFile) (current : Option GroupWorkerControl)
    → 1 ≤ target
    → read_state worker_contract file ≡ ok current
    → RoundGives (RetargetedAt target) (set_current target file' current)
unfolding set_current
current_retargets target file file' none p e = tt
current_retargets target file file' (some c) p e =
    let s = read_state-IsSound file c e in
    elim (Bool-cases (ltb c.capacity target)) [
      | inl large ↦ rw large tt
      | inr fits ↦ rw fits (elim (Bool-cases (target == c.target_workers)) [
        | inl same ↦ rw same (record {
          as_asked = ground arith;
          sound = s;
          same_capacity = refl;
          same_group = refl;
          revisions = inl refl;
        })
        | inr differs ↦ rw differs (
            retry_gives (RetargetedAt target) is_revision_conflict file' _ λ a h.
              let (pe, we) = previous_of c _ a h in
              subst₂ (λ x y. Retargeted x y target) (sym pe)
                (sym (swap_state-value file' c.revision (retargeted c target) we))
                (retargeted_ok c target s p (ground arith)))
      ])
    ]

-- Whatever others do to the file between its reads and writes: an update that
-- `set_group_workers` returns has the target that was asked for, within an unchanged capacity, for
-- the same group, and is the control that was read or its next revision.
pub set-Retargeted :
    (others : ℕ → JsonFile → JsonFile) (fuel : ℕ) (group_id : String) (target : ℕ) (file : JsonFile)
    {file' : JsonFile} {p u : GroupWorkerControl}
    → set_group_workers others fuel group_id target file ≡ some (ok (file', p, u))
    → Retargeted p u target
unfolding set_group_workers set_round
set-Retargeted others fuel group_id target file {file'} {p} {u} h =
    loop_gives (RetargetedAt target) (set_round target)
      (λ f g.
        read_gives (RetargetedAt target) (read_state worker_contract f) _
          (λ c. current_retargets target f g c (ground arith)))
      others fuel 0 file (file', p, u) (ground arith)
