-- ===== src/ArtifactStore.antt =====
-- `ImmutableArtifactStore` of packages/ac-jobs/src/ac_jobs/storage.py: content-addressed objects and
-- one immutable manifest for each artifact id of a run. `publish` is here, the operations
-- that read are in Reading. Each lock of the source is held for the
-- whole of the read or write that it guards.
pub mod Reading
pub mod Immutability
pub mod RoundTrip
pub mod Readable
pub mod Finding
pub mod Conflicts
pub mod Fresh
use ac_foundation.Models.{ArtifactDigest, ArtifactRef, ArtifactSourceRef, digest_eq, ref_eq}
use ac_foundation.Prelude.{
  Bool, List, Option, String, [], false, if◌then◌else◌, length, none, not, some, str_eq, true, ℕ,
  ◌&&◌, ◌==◌, ◌∷◌, ◌≡◌, ◌++◌,
}
use ac_foundation.Json.{Fields, JsonValue, end, field, get, null, obj, require_fields, str}
use ac_foundation.Storage.{JsonFile, absent, holding, read_json_object}
use ac_foundation.Errors.{
  Result, artifact_conflict, corrupt_state, err, ok, os_error, raise_if, unsupported_schema,
  value_error, ◌>>=◌, ◌>>◌,
}
use ac_foundation.Text.{append_text, take_text}
use ac_foundation.Snapshot.Codec.{corrupt_value, is_text, text}
use ac_foundation.Artifacts.{decode_artifact_digest, encode_artifact_digest, is_hex, is_sha256_hex}
use ac_foundation.Json.Equality.{json_eq}
use ac_foundation.Identity.{validate_artifact_id, validate_simple_id}

-- A content is a list of bytes.
abbrev pub Bytes : Type 0
Bytes = List ℕ

-- SHA-256 in hexadecimal, of a content and of the UTF-8 of an artifact id.
pub record Hashing : Type 0 where
  pub content_sha256 : Bytes → String
  pub id_sha256 : String → String
  pub is_hex : (content : Bytes) → is_sha256_hex (content_sha256 content) ≡ true

-- The artifacts of one run: objects by the name of their file, manifests likewise.
pub record ArtifactDirectory : Type 0 where
  pub objects : String → Option Bytes
  pub manifests : String → JsonFile

abbrev pub bytes_eq : Bytes → Bytes → Bool
bytes_eq [] [] = true
bytes_eq (x ∷ xs) (y ∷ ys) = x == y && bytes_eq xs ys
bytes_eq _ _ = false

-- `_logical_id`
unfoldable pub logical_id : Option String → String → Result String
logical_id none artifact_id = do
  _ ← validate_artifact_id artifact_id
  validate_artifact_id artifact_id
logical_id (some prefix) artifact_id = do
  _ ← validate_artifact_id artifact_id
  validate_artifact_id (append_text prefix (append_text "/" artifact_id))

-- `_relative(_object_path(content_sha256))`
unfoldable pub object_path : String → String
object_path sha =
    append_text "artifacts/objects/sha256/" (append_text (take_text 2 sha) (append_text "/" sha))

abbrev pub digest_of : Hashing → Bytes → ArtifactDigest
digest_of h content = record {
  algorithm = "sha256";
  value = h.content_sha256 content;
  size_bytes = length content;
}

abbrev pub reused_json : Option Fields → JsonValue
reused_json none = null
reused_json (some fs) = obj fs

abbrev pub manifest_document : String → Fields → String → String → Option Fields → Fields
manifest_document artifact_id digest media_type relative_path reused_from =
    field "schema_version" (str "ac.jobs.artifact.v1") (
      field "artifact_id" (str artifact_id) (
        field "digest" (obj digest) (
          field "media_type" (str media_type) (
            field "relative_path" (str relative_path)
              (field "reused_from" (reused_json reused_from) end)))))

abbrev pub put_object : (String → Option Bytes) → String → Bytes → String → Option Bytes
put_object objects sha content j = if str_eq j sha then some content else objects j

abbrev pub put_manifest : (String → JsonFile) → String → JsonFile → String → JsonFile
put_manifest manifests k file j = if str_eq j k then file else manifests j

-- The object's part of `_publish`, under its lock.
unfoldable pub store_object :
    String → Bytes → Option Bytes → ArtifactDirectory → Result (Unit {0}) × ArtifactDirectory
store_object sha content none d = (ok tt, record d { objects = put_object d.objects sha content })
store_object sha content (some existing) d =
    (raise_if (not (bytes_eq existing content)) artifact_conflict, d)

-- The manifest's part of `_publish`, under its lock.
unfoldable pub store_manifest :
    String → Fields → JsonFile → ArtifactDirectory → Result (Unit {0}) × ArtifactDirectory
store_manifest k manifest absent d =
    (ok tt, record d { manifests = put_manifest d.manifests k (holding manifest) })
store_manifest k manifest file d = (
  do
    existing ← read_json_object file
    raise_if (not (json_eq (obj existing) (obj manifest))) artifact_conflict,
  d,
)

unfoldable pub finish_publish :
    Hashing
    → String
    → Bytes
    → String
    → Option Fields
    → Fields
    → Result (Unit {0}) × ArtifactDirectory
    → Result ArtifactRef × ArtifactDirectory
unfolding store_manifest
finish_publish h logical content media_type reused_from digest (err e, d) = (err e, d)
finish_publish h logical content media_type reused_from digest (ok t, d) =
    let path = object_path (h.content_sha256 content) in
    let k = h.id_sha256 logical in
    let manifest = manifest_document logical digest media_type path reused_from in
    let (r, e) = store_manifest k manifest (d.manifests k) d in
    (
      r
          >> ok (record {
            artifact_id = logical;
            digest = digest_of h content;
            media_type = media_type;
            relative_path = path;
          }),
      e,
    )

-- What `_publish` tests and computes before it writes: the logical id and the digest document.
unfoldable pub prepare_publish :
    Hashing → Option String → String → Bytes → String → Result (String × Fields)
prepare_publish h prefix artifact_id content media_type = do
  logical ← logical_id prefix artifact_id
  raise_if (str_eq media_type "") value_error
  digest ← encode_artifact_digest (digest_of h content)
  ok (logical, digest)

unfoldable pub publish_prepared :
    Hashing
    → Bytes
    → String
    → Option Fields
    → Result (String × Fields)
    → ArtifactDirectory
    → Result ArtifactRef × ArtifactDirectory
unfolding finish_publish store_object
publish_prepared h content media_type reused_from (err e) d = (err e, d)
publish_prepared h content media_type reused_from (ok (logical, digest)) d =
    let sha = h.content_sha256 content in
    finish_publish h logical content media_type reused_from digest
      (store_object sha content (d.objects sha) d)

-- `_publish`
unfoldable pub publish :
    Hashing
    → Option String
    → String
    → Bytes
    → String
    → Option Fields
    → ArtifactDirectory
    → Result ArtifactRef × ArtifactDirectory
unfolding publish_prepared prepare_publish
publish h prefix artifact_id content media_type reused_from d =
    publish_prepared h content media_type reused_from
      (prepare_publish h prefix artifact_id content media_type) d

-- `publish_bytes`
unfoldable pub publish_bytes :
    Hashing
    → Option String
    → String
    → Bytes
    → String
    → ArtifactDirectory
    → Result ArtifactRef × ArtifactDirectory
publish_bytes h prefix artifact_id content media_type d =
    publish h prefix artifact_id content media_type none d

-- `scoped`: the prefix of the new store.
unfoldable pub scoped : Option String → String → Result String
scoped none prefix = do _ ← validate_artifact_id prefix; validate_artifact_id prefix
scoped (some own) prefix = do
  _ ← validate_artifact_id prefix
  validate_artifact_id (append_text own (append_text "/" prefix))

-- `publish_json`; `canonical` is `canonical_json_bytes` of identity.py.
unfoldable pub publish_json :
    Hashing
    → (JsonValue → Bytes)
    → Option String
    → String
    → JsonValue
    → ArtifactDirectory
    → Result ArtifactRef × ArtifactDirectory
publish_json h canonical prefix artifact_id value d =
    publish h prefix artifact_id (canonical value ++ b'\n' ∷ []) "application/json" none d
