-- ===== src/Artifacts.antt =====
-- packages/ac-jobs/src/ac_jobs/artifacts.py: the wire form of an artifact's identity.
use ac_foundation.Prelude.{
  ℕ, String, ◌≡◌, Bool, ◌&&◌, ◌||◌, not, List, [], ◌∷◌, all, length, leb, ◌==◌, str_eq, eq_iff,
  arith, inl, inr,
}
use ac_foundation.Errors.{Result, ok, err, value_error, ◌>>=◌, ◌>>◌, raise_if, Result-cases}
use ac_foundation.Json.{pos, JsonValue, int, str, obj, Fields, end, field, get, keys, subset}
use ac_foundation.Identity.{codes}
use ac_foundation.Models.{ArtifactDigest, ArtifactRef}

-- `_HEX`
abbrev pub is_hex : ℕ → Bool
is_hex c = (leb b'0' c && leb c b'9') || (leb b'a' c && leb c b'f')

-- `len(digest) == 64` and only hexadecimal digits
unfoldable pub is_sha256_hex : String → Bool
is_sha256_hex digest = length (codes digest) == 64 && all is_hex (codes digest)

abbrev pub as_text : JsonValue → Result String
as_text (str s) = ok s
as_text _ = err value_error

abbrev pub as_size : JsonValue → Result ℕ
as_size (int (pos n)) = ok n
as_size _ = err value_error

abbrev pub as_object : JsonValue → Result Fields
as_object (obj fs) = ok fs
as_object _ = err value_error

-- `set(value) == expected`
abbrev pub has_shape : List String → Fields → Bool
has_shape expected fs = subset (keys fs) expected && subset expected (keys fs)

-- `_validate_digest`, on a digest whose fields have their types
unfoldable pub validate_digest : ArtifactDigest → Result (Unit {0})
validate_digest d =
    raise_if (not (str_eq d.algorithm "sha256") || not (is_sha256_hex d.value)) value_error

unfoldable pub encode_artifact_digest : ArtifactDigest → Result Fields
unfolding validate_digest
encode_artifact_digest d = do
  validate_digest d
  ok (
      field "algorithm" (str d.algorithm)
        (field "value" (str d.value) (field "size_bytes" (int (pos d.size_bytes)) end)))

unfoldable pub decode_artifact_digest : JsonValue → Result ArtifactDigest
unfolding validate_digest
decode_artifact_digest v = do
  fs ← as_object v
  raise_if (not (has_shape ("algorithm" ∷ "value" ∷ "size_bytes" ∷ []) fs)) value_error
  algorithm ← as_text (get "algorithm" fs)
  digest ← as_text (get "value" fs)
  size ← as_size (get "size_bytes" fs)
  validate_digest (record { algorithm = algorithm; value = digest; size_bytes = size })
  ok (record { algorithm = "sha256"; value = digest; size_bytes = size })

unfoldable pub encode_artifact_ref : ArtifactRef → Result Fields
encode_artifact_ref r = do
  digest ← encode_artifact_digest r.digest
  ok (
      field "artifact_id" (str r.artifact_id) (
        field "digest" (obj digest) (
          field "media_type" (str r.media_type) (field "relative_path" (str r.relative_path) end))))

unfoldable pub decode_artifact_ref : JsonValue → Result ArtifactRef
decode_artifact_ref v = do
  fs ← as_object v
  raise_if (not (has_shape ("artifact_id" ∷ "digest" ∷ "media_type" ∷ "relative_path" ∷ []) fs))
      value_error
  artifact_id ← as_text (get "artifact_id" fs)
  media_type ← as_text (get "media_type" fs)
  relative_path ← as_text (get "relative_path" fs)
  digest ← decode_artifact_digest (get "digest" fs)
  ok (record {
    artifact_id = artifact_id;
    digest = digest;
    media_type = media_type;
    relative_path = relative_path;
  })

pub digest_round_trip :
    (d : ArtifactDigest) {fs : Fields}
    → encode_artifact_digest d ≡ ok fs
    → decode_artifact_digest (obj fs) ≡ ok d
unfolding encode_artifact_digest decode_artifact_digest
digest_round_trip d h = ground (arith, eq_iff d.algorithm "sha256")

-- An artifact reference that the encoder accepts is read back as it was.
pub decode-encode-artifact_ref :
    (r : ArtifactRef) {fs : Fields}
    → encode_artifact_ref r ≡ ok fs
    → decode_artifact_ref (obj fs) ≡ ok r
unfolding encode_artifact_ref decode_artifact_ref
decode-encode-artifact_ref r h = elim (Result-cases (encode_artifact_digest r.digest)) [
  | inl (d, e) ↦ ground (arith, digest_round_trip r.digest e)
  | inr (x, e) ↦ ground arith
]
