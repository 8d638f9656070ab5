-- ===== src/Working/Recovery.antt =====
-- Working files of packages/ac-jobs/src/ac_jobs/working.py over the recovery epochs: files that are
-- new to an epoch, files that change within one, and what is published already.
use ac_foundation.ArtifactStore.{
  ArtifactDirectory, Bytes, Hashing, bytes_eq, logical_id, publish_bytes, publish,
}
use ac_foundation.Models.{ArtifactRef}
use ac_foundation.Working.{
  EditableStore, RunFiles, find_current, find_file, find_working, immutable_id, known_media_type,
  publish_working, recheck, found, in_immutable, publish_editable, put_working, written,
  publish_logical,
}
use ac_foundation.Prelude.{
  String, false, none, refl, some, str_eq, subst, suc, ℕ, ◌≡◌, ◌⊎◌, ap, sym, zero, eq_refl,
}
use ac_foundation.Storage.{absent}
use ac_foundation.Errors.{artifact_conflict, err, ok, JobsError, Result}
use ac_foundation.ArtifactStore.Reading.{find, find_existing, read_bytes}
use ac_foundation.Snapshot.Codec.{known}
use ac_foundation.ArtifactStore.RoundTrip.{published_ref, publish-read_back, bytes_eq_refl}
use ac_foundation.Identity.{validate_artifact_id}
use ac_foundation.ArtifactStore.Conflicts.{publish_bytes-conflict}
use ac_foundation.ArtifactStore.Fresh.{publish_bytes-Fresh}
use ac_foundation.ArtifactStore.Finding.{find-Readable}

find-absent :
    (h : Hashing) (d : ArtifactDirectory) (id : String)
    → validate_artifact_id id ≡ ok id
    → d.manifests (h.id_sha256 id) ≡ absent
    → find h none d id ≡ ok none
unfolding find logical_id find_existing
find-absent h d id valid free = rw valid (rw free refl)

found-ok :
    (files : RunFiles) (m : Result ArtifactRef × ArtifactDirectory) (ref : ArtifactRef)
    → m.0 ≡ ok ref
    → ((found (in_immutable files m)).0 ≡ ok (some ref))
      × ((found (in_immutable files m)).1.immutable ≡ m.1)
found-ok files (ok r, d) ref p = let same : r ≡ ref = cc in (ap (λ x. ok (some x)) same, refl)
found-ok files (err e, d) ref p = absurd cc

found-err :
    (files : RunFiles) (m : Result ArtifactRef × ArtifactDirectory) (e : JobsError)
    → m.0 ≡ err e
    → (found (in_immutable files m)).0 ≡ err e
found-err files (ok r, d) e p = absurd cc
found-err files (err x, d) e p = let same : x ≡ e = cc in ap err same

logical_id-valid : (id : String) → validate_artifact_id id ≡ ok id → logical_id none id ≡ ok id
unfolding logical_id
logical_id-valid id valid = rw valid refl

-- A working file whose logical id is not published in this recovery epoch yet is published under the
-- epoch's own id, with the media type that the latest earlier epoch gave it, and is read back by the
-- reference that `find` returns.
pub find_working-republished :
    (h : Hashing) (store : EditableStore) (epoch : ℕ) (artifact_id logical media_type : String)
    (content : Bytes) (files : RunFiles)
    → store.recovery_epoch ≡ suc epoch
    → logical_id store.prefix artifact_id ≡ ok logical
    → files.working logical ≡ some content
    → validate_artifact_id (immutable_id (suc epoch) logical)
      ≡ ok (immutable_id (suc epoch) logical)
    → files.immutable.manifests (h.id_sha256 (immutable_id (suc epoch) logical)) ≡ absent
    → known_media_type h files.immutable (suc epoch) logical ≡ ok media_type
    → str_eq media_type "" ≡ false
    → (files.immutable.objects (h.content_sha256 content) ≡ none)
      ⊎ (files.immutable.objects (h.content_sha256 content) ≡ some content)
    → let out = find_working h store artifact_id files in
      let ref = published_ref h (immutable_id (suc epoch) logical) content media_type in
      (out.0 ≡ ok (some ref)) × (read_bytes h out.1.immutable ref ≡ ok content)
unfolding find_working find_file find_current publish_working publish_bytes
find_working-republished h store epoch artifact_id logical media_type content files e named there
      valid free known typed room =
    let id = immutable_id (suc epoch) logical in
    let (returned, reads) =
      publish-read_back h none id id content media_type none files.immutable
        (logical_id-valid id valid) typed free room in
    let (p, q) =
      found-ok files (publish h none id content media_type none files.immutable) _ returned in
    rw (named, e, there)
      (rw (find-absent h files.immutable id valid free) (
        rw known (
          p,
          subst (λ d. read_bytes h d (published_ref h id content media_type) ≡ ok content) (sym q)
              reads,
        )))

-- A working file that is edited after it was published in the same recovery epoch is an artifact
-- conflict.
pub find_working-conflict :
    (h : Hashing) (store : EditableStore) (epoch : ℕ) (artifact_id logical : String)
    (content old : Bytes) (current : ArtifactRef) (files : RunFiles)
    → store.recovery_epoch ≡ suc epoch
    → logical_id store.prefix artifact_id ≡ ok logical
    → files.working logical ≡ some content
    → current.artifact_id ≡ immutable_id (suc epoch) logical
    → read_bytes h files.immutable current ≡ ok old
    → bytes_eq old content ≡ false
    → str_eq current.media_type "" ≡ false
    → (find_working h store artifact_id files).0 ≡ err artifact_conflict
unfolding find_working find_file find_current recheck publish_working
find_working-conflict h store epoch artifact_id logical content old current files e named there same
      published other typed =
    let now : find h none files.immutable (immutable_id (suc epoch) logical) ≡ ok (some current) =
      subst (λ s. find h none files.immutable s ≡ ok (some current)) same
        (find-Readable h files.immutable current old published) in
    rw (named, e, there)
      (rw now (
        rw published (
          rw other (
            found-err files _ artifact_conflict (
              subst
                (λ s.
                  (publish_bytes h none s content current.media_type files.immutable).0
                  ≡ err artifact_conflict)
                same
                (publish_bytes-conflict h files.immutable current old content current.media_type
                  published other typed))))))

module _ (h : Hashing) (epoch : ℕ) (logical : String) (content : Bytes) (ref : ArtifactRef) where
  find_file-published :
      (files : RunFiles)
      → find h none files.immutable (immutable_id epoch logical) ≡ ok (some ref)
      → read_bytes h files.immutable ref ≡ ok content
      → find_file h epoch logical (some content) files ≡ (ok (some ref), files)
  unfolding find_file find_current recheck immutable_id
  find_file-published files p q = at_epoch epoch p
    where
      at_epoch :
          (n : ℕ)
          → find h none files.immutable (immutable_id n logical) ≡ ok (some ref)
          → find_file h n logical (some content) files ≡ (ok (some ref), files)
      at_epoch zero p = ap (λ r. (r, files)) p
      at_epoch (suc n) p = rw p (rw q (rw (bytes_eq_refl content) refl))

  written-found :
      (files : RunFiles) (m : Result ArtifactRef × ArtifactDirectory)
      → (m.0 ≡ ok ref
          → (find h none m.1 (immutable_id epoch logical) ≡ ok (some ref))
            × (read_bytes h m.1 ref ≡ ok content))
      → (written logical content (in_immutable files m)).0 ≡ ok ref
      → let after = (written logical content (in_immutable files m)).1 in
        find_file h epoch logical (after.working logical) after ≡ (ok (some ref), after)
  written-found files (err e, d) k p = absurd cc
  written-found files (ok r, d) k p =
      let (q, reads) = k p in
      rw (eq_refl logical) (
        find_file-published
          (record files { immutable = d; working = put_working files.working logical content }) q
          reads)

-- A publication of the editable store whose id is free in this epoch is found again by the same id:
-- the same reference, and no file changes.
pub publish_editable-find :
    (h : Hashing) (store : EditableStore) (artifact_id logical media_type : String)
    (content : Bytes) (files : RunFiles) (ref : ArtifactRef)
    → logical_id store.prefix artifact_id ≡ ok logical
    → files.immutable.manifests (h.id_sha256 (immutable_id store.recovery_epoch logical)) ≡ absent
    → (publish_editable h store artifact_id content media_type files).0 ≡ ok ref
    → let after = (publish_editable h store artifact_id content media_type files).1 in
      find_working h store artifact_id after ≡ (ok (some ref), after)
unfolding publish_editable find_working find_file find_current recheck
publish_editable-find h store artifact_id logical media_type content files ref named free p =
    rw named (
      written-found h store.recovery_epoch logical content ref files _ published (
        subst (λ r. (publish_logical h store.recovery_epoch content media_type r files).0 ≡ ok ref)
          named p))
  where
    id : String
    id = immutable_id store.recovery_epoch logical

    published :
        (publish_bytes h none id content media_type files.immutable).0 ≡ ok ref
        → (find h none (publish_bytes h none id content media_type files.immutable).1 id
            ≡ ok (some ref))
          × (read_bytes h (publish_bytes h none id content media_type files.immutable).1 ref
              ≡ ok content)
    published q =
        let (same, reads) =
          publish_bytes-Fresh h id content media_type files.immutable ref free q in
        (
          subst
              (λ s.
                find h none (publish_bytes h none id content media_type files.immutable).1 s
                ≡ ok (some ref))
              (ap (λ (r : ArtifactRef). r.artifact_id) same) (find-Readable h _ ref content reads),
          reads,
        )
