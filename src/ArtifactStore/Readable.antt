-- ===== src/ArtifactStore/Readable.antt =====
-- What it takes for `read_bytes` of packages/ac-jobs/src/ac_jobs/storage.py to return a content: the
-- manifest and the object behind a reference.
use ac_foundation.Errors.{>>=-eq-ok, JobsError, corrupt_state, ok, raise_if, unsupported_schema}
use ac_foundation.Models.{ArtifactDigest, ArtifactRef, digest_eq, ref_eq}
use ac_foundation.ArtifactStore.{ArtifactDirectory, Bytes, Hashing, digest_of}
use ac_foundation.Prelude.{
  Bool, Option, String, [], ap, arith, not, some, sym, true, ◌∙◌, ◌≡◌, eq_iff, subst,
}
use ac_foundation.Json.{Fields, get, require_fields}
use ac_foundation.Storage.{JsonFile, absent, damaged, holding, read_json_object}
use ac_foundation.Snapshot.Codec.{is_text}
use ac_foundation.ArtifactStore.Reading.{
  object_bytes, read_bytes, read_manifest, ref_from_manifest, manifest_fields,
}
use ac_foundation.Identity.{validate_artifact_id}

-- The files behind a reference that reads as `content`.
pub record Readable (h : Hashing) (d : ArtifactDirectory) (ref : ArtifactRef) (content : Bytes)
    : Type 0 where
  pub fields : Fields
  pub manifest : d.manifests (h.id_sha256 ref.artifact_id) ≡ holding fields
  pub valid : validate_artifact_id ref.artifact_id ≡ ok ref.artifact_id
  pub reads : read_manifest h d ref.artifact_id ≡ ok fields
  pub refers : ref_from_manifest fields ≡ ok ref
  pub object : d.objects ref.digest.value ≡ some content
  pub digest : digest_of h content ≡ ref.digest

digest_eq_sound : (a b : ArtifactDigest) → digest_eq a b ≡ true → a ≡ b
unfolding digest_eq
digest_eq_sound a b h =
    let e1 : a.algorithm ≡ b.algorithm = ground (arith, eq_iff a.algorithm b.algorithm) in
    let e2 : a.value ≡ b.value = ground (arith, eq_iff a.value b.value) in
    let e3 : a.size_bytes ≡ b.size_bytes = ground arith in
    λ i. record { algorithm = e1 i; value = e2 i; size_bytes = e3 i }

ref_eq_sound : (a b : ArtifactRef) → ref_eq a b ≡ true → a ≡ b
unfolding ref_eq
ref_eq_sound a b h =
    let e1 : a.artifact_id ≡ b.artifact_id = ground (arith, eq_iff a.artifact_id b.artifact_id) in
    let e2 = digest_eq_sound a.digest b.digest (ground arith) in
    let e3 : a.media_type ≡ b.media_type = ground (arith, eq_iff a.media_type b.media_type) in
    let e4 : a.relative_path ≡ b.relative_path =
      ground (arith, eq_iff a.relative_path b.relative_path) in
    λ i. record { artifact_id = e1 i; digest = e2 i; media_type = e3 i; relative_path = e4 i }

holding-read : (file : JsonFile) (fs : Fields) → read_json_object file ≡ ok fs → file ≡ holding fs
holding-read absent fs h = cc
holding-read damaged fs h = cc
holding-read (holding gs) fs h = cc

pub validate_artifact_id-same : (v w : String) → validate_artifact_id v ≡ ok w → v ≡ w
unfolding validate_artifact_id
validate_artifact_id-same v w h = ground arith

pub raise_if-false :
    (b : Bool) (e : JobsError) {t : Unit {0}} → raise_if (not b) e ≡ ok t → b ≡ true
raise_if-false b e h = ground arith

object_bytes-some : (o : Option Bytes) (c : Bytes) → object_bytes o ≡ ok c → o ≡ some c
object_bytes-some o c h = ground arith

pub read_manifest-parts :
    (h : Hashing) (d : ArtifactDirectory) (id : String) (fs : Fields)
    → read_manifest h d id ≡ ok fs
    → (validate_artifact_id id ≡ ok id)
      × (d.manifests (h.id_sha256 id) ≡ holding fs)
      × (is_text id (get "artifact_id" fs) ≡ true)
unfolding read_manifest
read_manifest-parts h d id fs e =
    let (v, p, q) = >>=-eq-ok (validate_artifact_id id) _ e in
    let (gs, r, s) = >>=-eq-ok (read_json_object (d.manifests (h.id_sha256 id))) _ q in
    let (t, r1, s1) = >>=-eq-ok (require_fields gs manifest_fields []) _ s in
    let (t2, r2, s2) =
      >>=-eq-ok
        (raise_if (not (is_text "ac.jobs.artifact.v1" (get "schema_version" gs)))
          unsupported_schema)
        _ s1 in
    let (t3, r3, s3) =
      >>=-eq-ok (raise_if (not (is_text id (get "artifact_id" gs))) corrupt_state) _ s2 in
    let same : gs ≡ fs = cc in
    (
      p ∙ ap ok (sym (validate_artifact_id-same id v p)),
      holding-read _ gs r ∙ ap holding same,
      subst (λ f. is_text id (get "artifact_id" f) ≡ true) same
          (raise_if-false (is_text id (get "artifact_id" gs)) corrupt_state r3),
    )

-- `read_bytes` returns only what stands behind the reference.
pub Readable-of :
    (h : Hashing) (d : ArtifactDirectory) (ref : ArtifactRef) (content : Bytes)
    → read_bytes h d ref ≡ ok content
    → Readable h d ref content
unfolding read_bytes
Readable-of h d ref content e =
    let (fs, p, q) = >>=-eq-ok (read_manifest h d ref.artifact_id) _ e in
    let (canonical, p1, q1) = >>=-eq-ok (ref_from_manifest fs) _ q in
    let (t, p2, q2) = >>=-eq-ok (raise_if (not (ref_eq canonical ref)) corrupt_state) _ q1 in
    let (c, p3, q3) = >>=-eq-ok (object_bytes (d.objects canonical.digest.value)) _ q2 in
    let (t4, p4, q4) =
      >>=-eq-ok (raise_if (not (digest_eq (digest_of h c) ref.digest)) corrupt_state) _ q3 in
    let same : canonical ≡ ref = ref_eq_sound canonical ref (raise_if-false _ corrupt_state p2) in
    let bytes : c ≡ content = cc in
    let (valid, there, named) = read_manifest-parts h d ref.artifact_id fs p in
    record {
      fields = fs;
      manifest = there;
      valid = valid;
      reads = p;
      refers = p1 ∙ ap ok same;
      object =
          ap (λ (r : ArtifactRef). d.objects r.digest.value) (sym same)
          ∙ object_bytes-some _ c p3
          ∙ ap some bytes;
      digest =
          ap (digest_of h) (sym bytes) ∙ digest_eq_sound _ _ (raise_if-false _ corrupt_state p4);
    }
