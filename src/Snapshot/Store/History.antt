-- ===== src/Snapshot/Store/History.antt =====
-- What every history of successful writes of a run's record keeps (`_SnapshotStore` of
-- packages/ac-jobs/src/ac_jobs/engine.py).
use ac_foundation.Snapshot.Store.{compare_and_swap, read, create_file}
use ac_foundation.Models.{RunSnapshot, succeeded}
use ac_foundation.Prelude.{ap, arith, eq_iff, refl, subst, suc, ℕ, ◌+◌, ◌∙◌, ◌≡◌, ◌≤◌, sym}
use ac_foundation.Snapshot.Store.Laws.{compare_and_swap-Written}
use ac_foundation.Errors.{err, ok, revision_conflict}
use ac_foundation.Snapshot.{validate_step}
use ac_foundation.Storage.{JsonFile, absent, damaged, holding}

-- Zero or more successful compare-and-swaps and creations, one after the other, whoever made them.
pub data Writes (start : JsonFile) : JsonFile → Type 0 where
  no_write : Writes start start
  one_more :
      {file file' : JsonFile}
      → Writes start file
      → (expected_revision : ℕ) (value returned : RunSnapshot)
      → compare_and_swap file expected_revision value ≡ ok (file', returned)
      → Writes start file'
  created :
      {file file' : JsonFile}
      → Writes start file
      → (value returned : RunSnapshot) → create_file file value ≡ ok (file', returned)
      → Writes start file'

-- `create` writes only where there is no file.
pub create_file-keeps :
    (file : JsonFile) (s value : RunSnapshot) {file' : JsonFile} {returned : RunSnapshot}
    → read file ≡ ok s
    → create_file file value ≡ ok (file', returned)
    → file' ≡ file
unfolding create_file read
create_file-keeps absent s value e h = cc
create_file-keeps damaged s value e h = ground arith
create_file-keeps (holding fs) s value e h = ground arith

-- The compare-and-swaps of a history.
abbrev pub count : {start file : JsonFile} → Writes start file → ℕ
count no_write = 0
count (one_more w r v x e) = suc (count w)
count (created w v x e) = count w

-- What is fixed, and what only grows, between a record and a later one of the same run.
pub record Extends (s s' : RunSnapshot) (steps : ℕ) : Type 0 where
  pub same_run : s'.run_id ≡ s.run_id
  pub same_birth : s'.created_at ≡ s.created_at
  pub revisions : s'.revision ≡ s.revision + steps
  pub attempts : s.attempt ≤ s'.attempt
  pub attempts_bounded : s'.attempt ≤ s.attempt + steps
  pub epochs : s.recovery_epoch ≤ s'.recovery_epoch
  pub epochs_bounded : s'.recovery_epoch + s.attempt ≤ s.recovery_epoch + s'.attempt

Extends-step :
    (s p n : RunSnapshot) (k : ℕ)
    → Extends s p k
    → n.revision ≡ suc p.revision
    → validate_step p n ≡ ok tt
    → Extends s n (suc k)
unfolding validate_step
Extends-step s p n k e r v = record {
  same_run = ground (arith, eq_iff n.run_id p.run_id, eq_iff n.created_at p.created_at);
  same_birth = ground (arith, eq_iff n.run_id p.run_id, eq_iff n.created_at p.created_at);
  revisions = omega arith;
  attempts = ground arith;
  attempts_bounded = ground arith;
  epochs = ground arith;
  epochs_bounded = ground arith;
}

-- After any history of writes the record is readable, of the same run and creation time, its
-- revision has grown by one for each write, its attempt and recovery epoch have not fallen, and no
-- more recoveries than attempts, and no more attempts than writes, were added.
pub writes-Extends :
    {start : JsonFile} (s : RunSnapshot) {file : JsonFile}
    → read start ≡ ok s
    → (w : Writes start file) → (s' : RunSnapshot) × (read file ≡ ok s') × Extends s s' (count w)
writes-Extends s e no_write = (s, e, ground arith)
writes-Extends s e (one_more {file = f} w r v x c) =
    let (p, ep, ext) = writes-Extends s e w in
    let (q, eq, wr, same) = compare_and_swap-Written f r v c in
    let joined : q ≡ p = cc in
    (
      v,
      wr.reads_back,
      Extends-step s p v (count w) ext
          (subst (λ y. v.revision ≡ suc y.revision) joined (cc (wr.next_revision, wr.at_revision)))
          (subst (λ y. validate_step y v ≡ ok tt) joined wr.step),
    )
writes-Extends s e (created {file = f} {file' = f'} w v x c) =
    let (p, ep, ext) = writes-Extends s e w in
    let same : f' ≡ f = create_file-keeps f p v ep c in
    (p, subst (λ g. read g ≡ ok p) (sym same) ep, ext)

no_step_from_succeeded : (p n : RunSnapshot) → p.status ≡ succeeded → validate_step p n ≡ ok tt → ⊥
unfolding validate_step
no_step_from_succeeded p n s v = ground arith

-- A succeeded run is final: no later compare-and-swap on its record goes through.
pub succeeded_is_final :
    {start file : JsonFile} (s : RunSnapshot)
    → read start ≡ ok s
    → s.status ≡ succeeded
    → (w : Writes start file) → (file ≡ start) × (count w ≡ 0)
succeeded_is_final s e st no_write = (refl, refl)
succeeded_is_final {start} s e st (one_more {file = f} w r v x c) =
    let same : f ≡ start = (succeeded_is_final s e st w).0 in
    let (q, eq, wr, z) = compare_and_swap-Written f r v c in
    let at_start : read start ≡ ok q = subst (λ g. read g ≡ ok q) same eq in
    let joined : q ≡ s = cc in
    absurd (no_step_from_succeeded q v (ap (λ y. y.status) joined ∙ st) wr.step)
succeeded_is_final {start} s e st (created {file = f} w v x c) =
    let (same, none_counted) = succeeded_is_final s e st w in
    (create_file-keeps f s v (subst (λ g. read g ≡ ok s) (sym same) e) c ∙ same, none_counted)

stale_revision :
    (file : JsonFile) (r : ℕ) (current v : RunSnapshot)
    → read file ≡ ok current
    → current.revision ≡ suc r
    → compare_and_swap file r v ≡ err revision_conflict
unfolding compare_and_swap
stale_revision file r current v e h = ground arith

-- No lost update: of two writers that read the same revision the second is refused, whatever it
-- wanted to write.
pub second_writer-conflict :
    (file : JsonFile) (expected_revision : ℕ) (v v' : RunSnapshot) {file' : JsonFile}
    {returned : RunSnapshot}
    → compare_and_swap file expected_revision v ≡ ok (file', returned)
    → compare_and_swap file' expected_revision v' ≡ err revision_conflict
second_writer-conflict file r v v' {file'} h =
    let (p, ep, wr, z) = compare_and_swap-Written file r v h in
    stale_revision file' r v v' wr.reads_back wr.next_revision

pub Writes-trans : {a b c : JsonFile} → Writes a b → Writes b c → Writes a c
Writes-trans w no_write = w
Writes-trans w (one_more v r x y e) = one_more (Writes-trans w v) r x y e
Writes-trans w (created v x y e) = created (Writes-trans w v) x y e

pub Writes_of_eq : {a b : JsonFile} → b ≡ a → Writes a b
Writes_of_eq {a} e = subst (λ f. Writes a f) (sym e) no_write
