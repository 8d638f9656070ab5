-- ===== src/Working/Edits.antt =====
-- What `find` and `publish_bytes` of `EditableArtifactStore` (packages/ac-jobs/src/ac_jobs/working.py)
-- return for working files that an agent may have edited.
use ac_foundation.Models.{ArtifactRef}
use ac_foundation.ArtifactStore.{
  Bytes, Hashing, ArtifactDirectory, bytes_eq, logical_id, publish_bytes,
}
use ac_foundation.Prelude.{
  Option, String, none, refl, some, suc, ℕ, ◌≡◌, Bool-cases, ap, inl, inr, subst, sym, ◌∙◌,
}
use ac_foundation.Errors.{Result, err, ok}
use ac_foundation.Working.{
  RunFiles, find_current, immutable_id, publish_working, recheck, EditableStore, find_file,
  find_working, found, in_immutable,
}
use ac_foundation.Storage.{absent}
use ac_foundation.ArtifactStore.Reading.{find, read_bytes}
use ac_foundation.Snapshot.Store.{read}
use ac_foundation.ArtifactStore.RoundTrip.{bytes_eq_sound}
use ac_foundation.ArtifactStore.Fresh.{publish_bytes-Fresh}
use ac_foundation.ArtifactStore.Conflicts.{publish_bytes-no_other}
use ac_foundation.ArtifactStore.Finding.{find-none, find-some}

module _ (h : Hashing) (epoch : ℕ) (logical : String) (content : Bytes) (files : RunFiles) where
  abbrev id : String
  id = immutable_id (suc epoch) logical

  -- The result is a reference of this content, or an exception.
  abbrev pub Found : Result (Option ArtifactRef) × RunFiles → Type 0
  Found (err e, after) = Unit
  Found (ok none, after) = ⊥
  Found (ok (some ref), after) = read_bytes h after.immutable ref ≡ ok content

  found-Found :
      (m : Result ArtifactRef × ArtifactDirectory)
      → ((ref : ArtifactRef) → m.0 ≡ ok ref → read_bytes h m.1 ref ≡ ok content)
      → Found (found (in_immutable files m))
  found-Found (err e, d) k = tt
  found-Found (ok ref, d) k = k ref refl

  publish_working-Found :
      (media_type : Result String)
      → files.immutable.manifests (h.id_sha256 id) ≡ absent
      → Found (publish_working h id content media_type files)
  unfolding publish_working
  publish_working-Found (err e) free = tt
  publish_working-Found (ok media_type) free =
      found-Found _
        (λ ref p. (publish_bytes-Fresh h id content media_type files.immutable ref free p).1)

  recheck-Found :
      (current : ArtifactRef) (published : Result Bytes)
      → read_bytes h files.immutable current ≡ published
      → current.artifact_id ≡ id
      → Found (recheck h current id content published files)
  unfolding recheck
  recheck-Found current (err e) read same = tt
  recheck-Found current (ok published) read same = elim (Bool-cases (bytes_eq published content)) [
    | inl y ↦ rw y (read ∙ ap ok (bytes_eq_sound published content y))
    | inr n ↦ rw n (
        found-Found _ (λ ref p. absurd (
          publish_bytes-no_other h files.immutable current ref published content current.media_type
            read n
            (subst
              (λ s. (publish_bytes h none s content current.media_type files.immutable).0 ≡ ok ref)
              (sym same) p))))
  ]

  find_current-Found :
      (m : Result (Option ArtifactRef))
      → find h none files.immutable id ≡ m
      → Found (find_current h (suc epoch) logical content m files)
  unfolding find_current
  find_current-Found (err e) e' = tt
  find_current-Found (ok none) e = publish_working-Found _ (find-none h files.immutable id e)
  find_current-Found (ok (some current)) e =
      recheck-Found current _ refl (find-some h files.immutable id current e)

-- In a recovery epoch, `find` of a logical id with a working file returns a reference of the content
-- that this file has now, edited or not, or raises; it never returns None.
pub find_working-Found :
    (h : Hashing) (store : EditableStore) (epoch : ℕ) (artifact_id logical : String)
    (content : Bytes) (files : RunFiles)
    → store.recovery_epoch ≡ suc epoch
    → logical_id store.prefix artifact_id ≡ ok logical
    → files.working logical ≡ some content
    → Found h epoch logical content files (find_working h store artifact_id files)
unfolding find_working find_file
find_working-Found h store epoch artifact_id logical content files e named there =
    rw (named, e, there) (find_current-Found h epoch logical content files _ refl)
