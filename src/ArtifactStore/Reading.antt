-- ===== src/ArtifactStore/Reading.antt =====
-- The reads of `ImmutableArtifactStore` (packages/ac-jobs/src/ac_jobs/storage.py): `read_bytes`,
-- `verify`, `find`, `read_source` and `adopt`.
use ac_foundation.Models.{ArtifactDigest, ArtifactRef, ArtifactSourceRef, digest_eq, ref_eq}
use ac_foundation.ArtifactStore.{
  ArtifactDirectory, Bytes, Hashing, digest_of, logical_id, object_path, publish,
}
use ac_foundation.Json.{Fields, JsonValue, end, field, get, obj, require_fields, str}
use ac_foundation.Storage.{JsonFile, absent, read_json_object}
use ac_foundation.Prelude.{List, Option, String, [], none, not, some, str_eq, ◌∷◌}
use ac_foundation.Errors.{
  Result, artifact_conflict, corrupt_state, err, ok, os_error, raise_if, unsupported_schema,
  value_error, ◌>>=◌, ◌>>◌,
}
use ac_foundation.Snapshot.Codec.{corrupt_value, is_text, text}
use ac_foundation.Artifacts.{decode_artifact_digest, encode_artifact_digest}
use ac_foundation.Identity.{validate_artifact_id, validate_simple_id}

abbrev pub manifest_fields : List String
manifest_fields =
    "schema_version" ∷ "artifact_id" ∷ "digest" ∷ "media_type" ∷ "relative_path" ∷ "reused_from"
    ∷ []

-- `_read_manifest`
unfoldable pub read_manifest : Hashing → ArtifactDirectory → String → Result Fields
read_manifest h d artifact_id = do
  _ ← validate_artifact_id artifact_id
  fs ← read_json_object (d.manifests (h.id_sha256 artifact_id))
  require_fields fs manifest_fields []
  raise_if (not (is_text "ac.jobs.artifact.v1" (get "schema_version" fs))) unsupported_schema
  raise_if (not (is_text artifact_id (get "artifact_id" fs))) corrupt_state
  ok fs

-- `_digest_from_json`
abbrev pub digest_from_json : JsonValue → Result ArtifactDigest
digest_from_json v = corrupt_value (decode_artifact_digest v)

-- `_ref_from_manifest`
unfoldable pub ref_from_manifest : Fields → Result ArtifactRef
ref_from_manifest fs = do
  artifact_id ← text (get "artifact_id" fs)
  media_type ← text (get "media_type" fs)
  relative_path ← text (get "relative_path" fs)
  digest ← digest_from_json (get "digest" fs)
  raise_if (not (str_eq relative_path (object_path digest.value))) corrupt_state
  ok (record {
    artifact_id = artifact_id;
    digest = digest;
    media_type = media_type;
    relative_path = relative_path;
  })

-- The file of the object; a missing one raises OSError.
abbrev pub object_bytes : Option Bytes → Result Bytes
object_bytes none = err os_error
object_bytes (some content) = ok content

-- `read_bytes`
unfoldable pub read_bytes : Hashing → ArtifactDirectory → ArtifactRef → Result Bytes
unfolding read_manifest ref_from_manifest
read_bytes h d ref = do
  fs ← read_manifest h d ref.artifact_id
  canonical ← ref_from_manifest fs
  raise_if (not (ref_eq canonical ref)) corrupt_state
  content ← object_bytes (d.objects canonical.digest.value)
  raise_if (not (digest_eq (digest_of h content) ref.digest)) corrupt_state
  ok content

-- `verify`
unfoldable pub verify : Hashing → ArtifactDirectory → ArtifactRef → Result (Unit {0})
verify h d ref = do _ ← read_bytes h d ref; ok tt

unfoldable pub find_existing :
    Hashing → ArtifactDirectory → String → JsonFile → Result (Option ArtifactRef)
find_existing h d logical absent = ok none
find_existing h d logical file = do
  fs ← read_manifest h d logical
  ref ← ref_from_manifest fs
  verify h d ref
  ok (some ref)

-- `find`
unfoldable pub find :
    Hashing → Option String → ArtifactDirectory → String → Result (Option ArtifactRef)
unfolding find_existing verify
find h prefix d artifact_id = do
  logical ← logical_id prefix artifact_id
  find_existing h d logical (d.manifests (h.id_sha256 logical))

-- `read_source`: the directory of the source run under the repository root, which the store may
-- lack, and `VerifiedArtifact` as the reference and the content.
unfoldable pub read_source :
    Hashing → Option (String → ArtifactDirectory) → ArtifactSourceRef → Result (ArtifactRef × Bytes)
unfolding read_manifest ref_from_manifest read_bytes
read_source h none source = err value_error
read_source h (some runs) source = do
  _ ← validate_simple_id source.source_run_id
  _ ← validate_artifact_id source.source_artifact_id
  fs ← read_manifest h (runs source.source_run_id) source.source_artifact_id
  ref ← ref_from_manifest fs
  raise_if (not (digest_eq ref.digest source.expected_digest)) artifact_conflict
  content ← read_bytes h (runs source.source_run_id) ref
  ok (ref, content)

abbrev provenance : ArtifactSourceRef → Fields → Fields
provenance source digest =
    field "source_run_id" (str source.source_run_id)
      (field "source_artifact_id" (str source.source_artifact_id) (field "digest" (obj digest) end))

-- `adopt`, up to the call of `_publish`
unfoldable pub adopt_verified :
    Hashing
    → Option (String → ArtifactDirectory)
    → ArtifactSourceRef
    → ArtifactDigest
    → Result (ArtifactRef × Bytes × Fields)
unfolding read_source
adopt_verified h runs source expected = do
  found ← read_source h runs source
  raise_if (not (digest_eq found.0.digest expected)) artifact_conflict
  digest ← encode_artifact_digest found.0.digest
  ok (found.0, found.1, provenance source digest)

abbrev pub publish_adopted :
    Hashing
    → Option String
    → String
    → Result (ArtifactRef × Bytes × Fields)
    → ArtifactDirectory
    → Result ArtifactRef × ArtifactDirectory
publish_adopted h prefix artifact_id (err e) d = (err e, d)
publish_adopted h prefix artifact_id (ok (ref, content, origin)) d =
    publish h prefix artifact_id content ref.media_type (some origin) d

-- `adopt`
unfoldable pub adopt :
    Hashing
    → Option String
    → Option (String → ArtifactDirectory)
    → ArtifactSourceRef
    → String
    → ArtifactDigest
    → ArtifactDirectory
    → Result ArtifactRef × ArtifactDirectory
unfolding adopt_verified publish
adopt h prefix runs source artifact_id expected d =
    publish_adopted h prefix artifact_id (adopt_verified h runs source expected) d
