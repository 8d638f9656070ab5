-- ===== src/Working/Kept.antt =====
-- References that could be read, while `find` of packages/ac-jobs/src/ac_jobs/working.py publishes
-- edited working files.
use ac_foundation.ArtifactStore.{
  ArtifactDirectory, Bytes, Hashing, bytes_eq, logical_id, publish_bytes,
}
use ac_foundation.Models.{ArtifactRef}
use ac_foundation.Prelude.{
  Bool-cases, Option, String, inl, inr, none, refl, some, suc, zero, ℕ, ◌≡◌,
}
use ac_foundation.Working.{
  EditableStore, RunFiles, find_current, find_file, find_working, found, immutable_id, in_immutable,
  publish_working, recheck,
}
use ac_foundation.Errors.{Result, Result-cases, err, ok}
use ac_foundation.ArtifactStore.Immutability.{publish-read_bytes}
use ac_foundation.ArtifactStore.Reading.{read_bytes}

found-immutable :
    (files : RunFiles) (m : Result ArtifactRef × ArtifactDirectory)
    → (found (in_immutable files m)).1.immutable ≡ m.1
found-immutable files (ok r, d) = refl
found-immutable files (err e, d) = refl

module _ (h : Hashing) (ref : ArtifactRef) (c : Bytes) where
  abbrev ReadsAs : ArtifactDirectory → Type 0
  ReadsAs d = read_bytes h d ref ≡ ok c

  publish_working-reads :
      (id : String) (content : Bytes) (media_type : Result String) (files : RunFiles)
      → ReadsAs files.immutable
      → ReadsAs (publish_working h id content media_type files).1.immutable
  unfolding publish_working publish_bytes
  publish_working-reads id content (err e) files p = p
  publish_working-reads id content (ok media_type) files p =
      rw (found-immutable files (publish_bytes h none id content media_type files.immutable))
        (publish-read_bytes h none id content media_type none files.immutable ref c p)

  recheck-reads :
      (current : ArtifactRef) (id : String) (content : Bytes) (published : Result Bytes)
      (files : RunFiles)
      → ReadsAs files.immutable
      → ReadsAs (recheck h current id content published files).1.immutable
  unfolding recheck
  recheck-reads current id content (err e) files p = p
  recheck-reads current id content (ok old) files p = elim (Bool-cases (bytes_eq old content)) [
    | inl y ↦ rw y p
    | inr n ↦ rw n (publish_working-reads id content (ok current.media_type) files p)
  ]

  find_current-reads :
      (epoch : ℕ) (logical : String) (content : Bytes) (m : Result (Option ArtifactRef))
      (files : RunFiles)
      → ReadsAs files.immutable
      → ReadsAs (find_current h epoch logical content m files).1.immutable
  unfolding find_current
  find_current-reads epoch logical content (err e) files p = p
  find_current-reads epoch logical content (ok (some current)) files p =
      recheck-reads current (immutable_id epoch logical) content _ files p
  find_current-reads epoch logical content (ok none) files p =
      publish_working-reads (immutable_id epoch logical) content _ files p

  find_file-reads :
      (epoch : ℕ) (logical : String) (o : Option Bytes) (files : RunFiles)
      → ReadsAs files.immutable
      → ReadsAs (find_file h epoch logical o files).1.immutable
  unfolding find_file
  find_file-reads epoch logical none files p = p
  find_file-reads zero logical (some content) files p = p
  find_file-reads (suc epoch) logical (some content) files p =
      find_current-reads (suc epoch) logical content _ files p

-- Whatever `find` publishes, a reference that could be read still reads as the same content.
pub find_working-read_bytes :
    (h : Hashing) (store : EditableStore) (artifact_id : String) (files : RunFiles)
    (ref : ArtifactRef) (c : Bytes)
    → read_bytes h files.immutable ref ≡ ok c
    → read_bytes h (find_working h store artifact_id files).1.immutable ref ≡ ok c
unfolding find_working
find_working-read_bytes h store artifact_id files ref c p =
    elim (Result-cases (logical_id store.prefix artifact_id)) [
      | inl (l, e) ↦ rw e (find_file-reads h ref c store.recovery_epoch l (files.working l) files p)
      | inr (x, e) ↦ rw e p
    ]
