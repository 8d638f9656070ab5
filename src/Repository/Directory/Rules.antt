-- ===== src/Repository/Directory/Rules.antt =====
-- Rules for actions on a run directory: what their return value and their exceptions say of
-- snapshot.json. One rule for each way to build an action.
use ac_foundation.Repository.Directory.{
  Action, RunDirectory, continue, emit, gets, lift, modify, pure, raise, store_swapped, swap,
  with_lease, ◌>>=◌, leased, create_snapshot, update_resume, update_stop,
}
use ac_foundation.Prelude.{Bool, String, arith, false, if◌then◌else◌, refl, true, ℕ, ◌≡◌}
use ac_foundation.Json.{Fields}
use ac_foundation.Errors.{JobsError, Result, err, ok}
use ac_foundation.Storage.{JsonFile}
use ac_foundation.Models.{RunSnapshot}
use ac_foundation.Snapshot.Store.History.{Writes, Writes-trans, no_write, one_more, created}
use ac_foundation.Snapshot.Store.{compare_and_swap, read, create_file}
use ac_foundation.Snapshot.Store.Laws.{compare_and_swap-Written}

-- Whatever way the action ends, snapshot.json has gone through validated writes only.
pub record OnlyWrites {ℓ} {A : Type ℓ} (m : Action A) : Type 0 where
  pub at : (d : RunDirectory) → Writes d.snapshot_file (m d).1.snapshot_file

module _ {ℓ} {A : Type ℓ} where
  pub OnlyWrites-pure : (a : A) → OnlyWrites (pure a)
  OnlyWrites-pure a = record { at = λ d. no_write }

  pub OnlyWrites-raise : (e : JobsError) → OnlyWrites (raise {A = A} e)
  OnlyWrites-raise e = record { at = λ d. no_write }

  pub OnlyWrites-lift : (r : Result A) → OnlyWrites (lift r)
  OnlyWrites-lift r = record { at = λ d. no_write }

  pub OnlyWrites-gets : (f : RunDirectory → A) → OnlyWrites (gets f)
  OnlyWrites-gets f = record { at = λ d. no_write }

  pub OnlyWrites-if :
      (b : Bool) (m n : Action A) → OnlyWrites m → OnlyWrites n → OnlyWrites (if b then m else n)
  OnlyWrites-if true m n h k = h
  OnlyWrites-if false m n h k = k

  pub OnlyWrites-with_lease : (m : Action A) → OnlyWrites m → OnlyWrites (with_lease m)
  unfolding with_lease
  OnlyWrites-with_lease m h = record { at = λ d. held d.lease_held d }
    where
      held : (b : Bool) (d : RunDirectory) → Writes d.snapshot_file (leased b m d).1.snapshot_file
      held true d = no_write
      held false d = h.at (record d { lease_held = true })

module _ {ℓ κ} {A : Type ℓ} {B : Type κ} where
  continue-Writes :
      (f : A → Action B) (r : Result A) (d : RunDirectory)
      → ((a : A) → OnlyWrites (f a))
      → Writes d.snapshot_file (continue r f d).1.snapshot_file
  continue-Writes f (ok a) d h = (h a).at d
  continue-Writes f (err e) d h = no_write

  pub OnlyWrites-bind :
      (m : Action A) (f : A → Action B)
      → OnlyWrites m
      → ((a : A) → OnlyWrites (f a))
      → OnlyWrites (m >>= f)
  OnlyWrites-bind m f h k = record {
    at = λ d. Writes-trans (h.at d) (continue-Writes f (m d).0 (m d).1 k);
  }

-- The updates of the other files.
pub OnlyWrites-set_spec :
    (file : JsonFile) → OnlyWrites (modify (λ d. record d { spec_file = file }))
OnlyWrites-set_spec file = record { at = λ d. no_write }

pub OnlyWrites-set_lease :
    (file : JsonFile) → OnlyWrites (modify (λ d. record d { lease_file = file }))
OnlyWrites-set_lease file = record { at = λ d. no_write }

pub OnlyWrites-set_resume :
    (path : String) (file : JsonFile)
    → OnlyWrites (modify (λ d. record d { resume_files = update_resume d.resume_files path file }))
OnlyWrites-set_resume path file = record { at = λ d. no_write }

pub OnlyWrites-set_stop :
    (attempt : ℕ) (file : JsonFile)
    → OnlyWrites (modify (λ d. record d { stop_files = update_stop d.stop_files attempt file }))
OnlyWrites-set_stop attempt file = record { at = λ d. no_write }

pub OnlyWrites-emit : (name : String) (body : Fields) → OnlyWrites (emit name body)
OnlyWrites-emit name body = record { at = λ d. no_write }

pub OnlyWrites-swap : (r : ℕ) (value : RunSnapshot) → OnlyWrites (swap r value)
unfolding swap
OnlyWrites-swap r value = record {
  at = λ d. swapped d (compare_and_swap d.snapshot_file r value) refl;
}
  where
    swapped :
        (d : RunDirectory) (m : Result (JsonFile × RunSnapshot))
        → compare_and_swap d.snapshot_file r value ≡ m
        → Writes d.snapshot_file (store_swapped m d).1.snapshot_file
    swapped d (ok (file, v)) e = one_more no_write r value v e
    swapped d (err x) e = no_write

pub OnlyWrites-create_snapshot : (value : RunSnapshot) → OnlyWrites (create_snapshot value)
unfolding create_snapshot
OnlyWrites-create_snapshot value = record {
  at = λ d. made d (create_file d.snapshot_file value) refl;
}
  where
    made :
        (d : RunDirectory) (m : Result (JsonFile × RunSnapshot))
        → create_file d.snapshot_file value ≡ m
        → Writes d.snapshot_file (store_swapped m d).1.snapshot_file
    made d (ok (file, v)) e = created no_write value v e
    made d (err x) e = no_write

-- A value that the action returns is the record that snapshot.json then holds.
pub record Persisted (m : Action RunSnapshot) : Type 0 where
  pub at : (d : RunDirectory) {s : RunSnapshot} → (m d).0 ≡ ok s → read (m d).1.snapshot_file ≡ ok s

pub Persisted-raise : (e : JobsError) → Persisted (raise e)
Persisted-raise e = record { at = λ d h. absurd (ground arith) }

pub Persisted-if :
    (b : Bool) (m n : Action RunSnapshot)
    → Persisted m
    → Persisted n
    → Persisted (if b then m else n)
Persisted-if true m n h k = h
Persisted-if false m n h k = k

pub Persisted-bind {ℓ} :
    {A : Type ℓ} (m : Action A) (f : A → Action RunSnapshot)
    → ((a : A) → Persisted (f a))
    → Persisted (m >>= f)
Persisted-bind {A} m f k = record { at = λ d h. after (m d).0 (m d).1 h }
  where
    after :
        (r : Result A) (d : RunDirectory) {s : RunSnapshot}
        → (continue r f d).0 ≡ ok s
        → read (continue r f d).1.snapshot_file ≡ ok s
    after (ok a) d h = (k a).at d h
    after (err e) d h = absurd (ground arith)

pub Persisted-swap : (r : ℕ) (value : RunSnapshot) → Persisted (swap r value)
unfolding swap
Persisted-swap r value = record {
  at = λ d h. swapped d (compare_and_swap d.snapshot_file r value) refl h;
}
  where
    swapped :
        (d : RunDirectory) (m : Result (JsonFile × RunSnapshot)) {s : RunSnapshot}
        → compare_and_swap d.snapshot_file r value ≡ m
        → (store_swapped m d).0 ≡ ok s
        → read (store_swapped m d).1.snapshot_file ≡ ok s
    swapped d (ok (file, v)) e h =
        let (p, ep, w, same) = compare_and_swap-Written d.snapshot_file r value e in
        ground (arith, w.reads_back)
    swapped d (err x) e h = absurd (ground arith)

pub Persisted-with_lease : (m : Action RunSnapshot) → Persisted m → Persisted (with_lease m)
unfolding with_lease
Persisted-with_lease m h = record { at = λ d k. held d.lease_held d k }
  where
    held :
        (b : Bool) (d : RunDirectory) {s : RunSnapshot}
        → (leased b m d).0 ≡ ok s
        → read (leased b m d).1.snapshot_file ≡ ok s
    held true d k = absurd (ground arith)
    held false d k = h.at (record d { lease_held = true }) k

pub ruleset only_writes = (
  OnlyWrites-pure, OnlyWrites-raise, OnlyWrites-lift, OnlyWrites-gets, OnlyWrites-if,
  OnlyWrites-with_lease, OnlyWrites-bind, OnlyWrites-emit, OnlyWrites-swap,
  OnlyWrites-create_snapshot, OnlyWrites-set_spec, OnlyWrites-set_lease, OnlyWrites-set_resume,
  OnlyWrites-set_stop,
)

pub ruleset persisted =
    (Persisted-raise, Persisted-if, Persisted-bind, Persisted-swap, Persisted-with_lease)
