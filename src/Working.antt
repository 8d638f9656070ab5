-- ===== src/Working.antt =====
-- `EditableArtifactStore` of packages/ac-jobs/src/ac_jobs/working.py: artifacts of a run whose working
-- copy an agent may edit, published anew in each recovery epoch. A working file is a content under
-- the logical id; that one logical id may be a folder of another is left out.
pub mod Edits
pub mod Recovery
pub mod Kept
use Prim.Native.Char.{code}
use ac_foundation.Models.{ArtifactDigest, ArtifactRef, ArtifactSourceRef, digest_eq}
use ac_foundation.ArtifactStore.{
  ArtifactDirectory, Bytes, Hashing, bytes_eq, logical_id, publish_bytes, scoped,
}
use ac_foundation.Prelude.{
  Bool, Option, String, false, if◌then◌else◌, none, some, str_eq, suc, true, zero, ℕ, ◌&&◌, ◌==◌,
}
use ac_foundation.Errors.{Result, artifact_conflict, err, ok, ◌>>=◌, ◌>>◌}
use ac_foundation.Text.{append_text, decimal}
use ac_foundation.ArtifactStore.Reading.{find, read_bytes, read_source}
use ac_foundation.Identity.{validate_artifact_id}

-- The directory of a run as the store sees it: the immutable artifacts, and working/artifacts/.
pub record RunFiles : Type 0 where
  pub immutable : ArtifactDirectory
  pub working : String → Option Bytes

pub record EditableStore : Type 0 where
  pub prefix : Option String
  pub recovery_epoch : ℕ

abbrev pub recovery_prefix : ℕ → String
recovery_prefix epoch = append_text "recovery-" (append_text (decimal epoch) "/")

-- `_immutable_id`
unfoldable pub immutable_id : ℕ → String → String
immutable_id zero logical = logical
immutable_id (suc epoch) logical = append_text (recovery_prefix (suc epoch)) logical

abbrev or_else : Option ArtifactRef → Result String → Result String
or_else none rest = rest
or_else (some ref) rest = ok ref.media_type

-- `_known_media_type`: the epochs below `epoch`, the latest first.
unfoldable pub known_media_type : Hashing → ArtifactDirectory → ℕ → String → Result String
known_media_type h d zero logical = ok "application/octet-stream"
known_media_type h d (suc epoch) logical = do
  ref ← find h none d (immutable_id epoch logical)
  or_else ref (known_media_type h d epoch logical)

abbrev in_immutable : {A : Type 0} → RunFiles → Result A × ArtifactDirectory → Result A × RunFiles
in_immutable files (r, d) = (r, record files { immutable = d })

abbrev found : Result ArtifactRef × RunFiles → Result (Option ArtifactRef) × RunFiles
found (err e, files) = (err e, files)
found (ok ref, files) = (ok (some ref), files)

-- `publish_bytes` of the immutable store for a working file whose media type is known.
unfoldable pub publish_working :
    Hashing → String → Bytes → Result String → RunFiles → Result (Option ArtifactRef) × RunFiles
publish_working h id content (err e) files = (err e, files)
publish_working h id content (ok media_type) files =
    found (in_immutable files (publish_bytes h none id content media_type files.immutable))

-- A working file that is published in this epoch already, with the content that it had.
unfoldable pub recheck :
    Hashing
    → ArtifactRef
    → String
    → Bytes
    → Result Bytes
    → RunFiles
    → Result (Option ArtifactRef) × RunFiles
unfolding publish_working
recheck h current id content (err e) files = (err e, files)
recheck h current id content (ok published) files =
    let edited = publish_working h id content (ok current.media_type) files in
    if bytes_eq published content then (ok (some current), files) else edited

-- `find`, once the published artifact of this epoch is looked up.
unfoldable pub find_current :
    Hashing
    → ℕ
    → String
    → Bytes
    → Result (Option ArtifactRef)
    → RunFiles
    → Result (Option ArtifactRef) × RunFiles
unfolding publish_working recheck
find_current h epoch logical content (err e) files = (err e, files)
find_current h epoch logical content (ok (some current)) files =
    recheck h current (immutable_id epoch logical) content (read_bytes h files.immutable current)
      files
find_current h epoch logical content (ok none) files =
    publish_working h (immutable_id epoch logical) content
      (known_media_type h files.immutable epoch logical) files

-- `find`, for the working file of a logical id.
unfoldable pub find_file :
    Hashing → ℕ → String → Option Bytes → RunFiles → Result (Option ArtifactRef) × RunFiles
unfolding find_current
find_file h epoch logical none files = (ok none, files)
find_file h zero logical (some content) files = (find h none files.immutable logical, files)
find_file h (suc epoch) logical (some content) files =
    find_current h (suc epoch) logical content
      (find h none files.immutable (immutable_id (suc epoch) logical)) files

abbrev find_logical :
    Hashing → ℕ → Result String → RunFiles → Result (Option ArtifactRef) × RunFiles
find_logical h epoch (err e) files = (err e, files)
find_logical h epoch (ok logical) files = find_file h epoch logical (files.working logical) files

-- `find`
unfoldable pub find_working :
    Hashing → EditableStore → String → RunFiles → Result (Option ArtifactRef) × RunFiles
unfolding find_file
find_working h store artifact_id files =
    find_logical h store.recovery_epoch (logical_id store.prefix artifact_id) files

abbrev pub put_working : (String → Option Bytes) → String → Bytes → String → Option Bytes
put_working working logical content j = if str_eq j logical then some content else working j

abbrev written : String → Bytes → Result ArtifactRef × RunFiles → Result ArtifactRef × RunFiles
written logical content (err e, files) = (err e, files)
written logical content (ok ref, files) =
    (ok ref, record files { working = put_working files.working logical content })

abbrev publish_logical :
    Hashing → ℕ → Bytes → String → Result String → RunFiles → Result ArtifactRef × RunFiles
publish_logical h epoch content media_type (err e) files = (err e, files)
publish_logical h epoch content media_type (ok logical) files = written logical content (
    in_immutable files
      (publish_bytes h none (immutable_id epoch logical) content media_type files.immutable))

-- `publish_bytes`
unfoldable pub publish_editable :
    Hashing → EditableStore → String → Bytes → String → RunFiles → Result ArtifactRef × RunFiles
publish_editable h store artifact_id content media_type files =
    publish_logical h store.recovery_epoch content media_type (logical_id store.prefix artifact_id)
      files

-- What `scoped` makes: a store of the same kind, or an immutable one with its prefix.
pub data ScopedStore : Type 0 where
  editable : EditableStore → ScopedStore
  execution_state : String → ScopedStore

abbrev combined_prefix : Option String → String → String
combined_prefix none prefix = prefix
combined_prefix (some own) prefix = append_text own (append_text "/" prefix)

-- `text.startswith(start)`
unfoldable pub starts_text : String → String → Bool
starts_text String.[] t = true
starts_text (String.◌∷◌ c s) String.[] = false
starts_text (String.◌∷◌ c s) (String.◌∷◌ e t) = code c == code e && starts_text s t

abbrev scope_combined : EditableStore → String → Result ScopedStore
scope_combined store combined =
    let own = scoped none (immutable_id store.recovery_epoch combined) in
    if starts_text "llm/tasks/" combined
    then own >>= (λ prefix. ok (execution_state prefix))
    else ok (editable (record store { prefix = some combined }))

-- `scoped`
unfoldable pub scoped_editable : EditableStore → String → Result ScopedStore
unfolding starts_text immutable_id
scoped_editable store prefix = do
  _ ← validate_artifact_id prefix
  scope_combined store (combined_prefix store.prefix prefix)

abbrev adopt_read :
    Hashing
    → EditableStore
    → String
    → ArtifactDigest
    → Result (ArtifactRef × Bytes)
    → RunFiles
    → Result ArtifactRef × RunFiles
adopt_read h store artifact_id expected (err e) files = (err e, files)
adopt_read h store artifact_id expected (ok (ref, content)) files =
    let published = publish_editable h store artifact_id content ref.media_type files in
    if digest_eq ref.digest expected then published else (err artifact_conflict, files)

-- `adopt`
unfoldable pub adopt_editable :
    Hashing
    → EditableStore
    → Option (String → ArtifactDirectory)
    → ArtifactSourceRef
    → String
    → ArtifactDigest
    → RunFiles
    → Result ArtifactRef × RunFiles
adopt_editable h store runs source artifact_id expected files =
    adopt_read h store artifact_id expected (read_source h runs source) files
