-- ===== src/ArtifactStore/RoundTrip.antt =====
-- `_publish` and then `read_bytes` of packages/ac-jobs/src/ac_jobs/storage.py.
use ac_foundation.Prelude.{
  &&-eq-true, Option, String, [], none, refl, some, true, ◌==◌, ◌∷◌, ◌≡◌, ap, arith, eq_refl,
  if◌then◌else◌, ◌∙◌, false, inl, inr, length, str_eq, ◌⊎◌,
}
use ac_foundation.Errors.{>>=-eq-ok, ok, Result, err}
use ac_foundation.Models.{ArtifactDigest, ArtifactRef, digest_eq, ref_eq}
use ac_foundation.ArtifactStore.{
  ArtifactDirectory, Bytes, bytes_eq, logical_id, store_object, Hashing, digest_of,
  manifest_document, object_path, finish_publish, store_manifest, put_manifest, prepare_publish,
  publish, publish_prepared,
}
use ac_foundation.Identity.{validate_artifact_id}
use ac_foundation.Json.{Fields, end, field, int, pos, str}
use ac_foundation.Artifacts.{encode_artifact_digest, digest_round_trip, validate_digest}
use ac_foundation.Storage.{holding, absent}
use ac_foundation.ArtifactStore.Reading.{read_bytes, read_manifest, ref_from_manifest}

pub bytes_eq_sound : (xs ys : Bytes) → bytes_eq xs ys ≡ true → xs ≡ ys
bytes_eq_sound [] [] h = refl
bytes_eq_sound [] (y ∷ ys) h = cc
bytes_eq_sound (x ∷ xs) [] h = cc
bytes_eq_sound (x ∷ xs) (y ∷ ys) h =
    let (p, q) = &&-eq-true (x == y) (bytes_eq xs ys) h in
    let e = bytes_eq_sound xs ys q in let same : x ≡ y = ground arith in cc

digest_eq_refl : (d : ArtifactDigest) → digest_eq d d ≡ true
unfolding digest_eq
digest_eq_refl d = ground (arith, eq_refl d.algorithm, eq_refl d.value)

pub ref_eq_refl : (r : ArtifactRef) → ref_eq r r ≡ true
unfolding ref_eq
ref_eq_refl r = ground (
  arith,
  eq_refl r.artifact_id,
  eq_refl r.media_type,
  eq_refl r.relative_path,
  digest_eq_refl r.digest,
)

validate_artifact_id-ok :
    (v w : String) → validate_artifact_id v ≡ ok w → validate_artifact_id w ≡ ok w
unfolding validate_artifact_id
validate_artifact_id-ok v w h = ground arith

pub logical_id-ok :
    (prefix : Option String) (artifact_id logical : String)
    → logical_id prefix artifact_id ≡ ok logical
    → validate_artifact_id logical ≡ ok logical
unfolding logical_id
logical_id-ok none artifact_id logical h =
    let (a, p, q) = >>=-eq-ok (validate_artifact_id artifact_id) _ h in
    validate_artifact_id-ok _ logical q
logical_id-ok (some prefix) artifact_id logical h =
    let (a, p, q) = >>=-eq-ok (validate_artifact_id artifact_id) _ h in
    validate_artifact_id-ok _ logical q

pub store_object-holds :
    (sha : String) (content : Bytes) (o : Option Bytes) (d : ArtifactDirectory)
    → d.objects sha ≡ o
    → (store_object sha content o d).0 ≡ ok tt
    → ((store_object sha content o d).1.objects sha ≡ some content)
      × ((store_object sha content o d).1.manifests ≡ d.manifests)
unfolding store_object
store_object-holds sha content none d free h =
    (ap (λ b. if b then some content else d.objects sha) (eq_refl sha), refl)
store_object-holds sha content (some existing) d free h =
    let same : existing ≡ content = bytes_eq_sound existing content (ground arith) in
    (free ∙ ap some same, refl)

abbrev pub published_ref : Hashing → String → Bytes → String → ArtifactRef
published_ref h logical content media_type = record {
  artifact_id = logical;
  digest = digest_of h content;
  media_type = media_type;
  relative_path = object_path (h.content_sha256 content);
}

module _ (h : Hashing) (d : ArtifactDirectory) (logical : String) (content : Bytes)
    (media_type : String) (digest : Fields) (reused_from : Option Fields)
    (encoded : encode_artifact_digest (digest_of h content) ≡ ok digest) where
  abbrev manifest : Fields
  manifest =
      manifest_document logical digest media_type (object_path (h.content_sha256 content))
        reused_from

  read_manifest-of :
      validate_artifact_id logical ≡ ok logical
      → d.manifests (h.id_sha256 logical) ≡ holding manifest
      → read_manifest h d logical ≡ ok manifest
  unfolding read_manifest
  read_manifest-of valid there = rw (valid, there, eq_refl logical) refl

  ref_from_manifest-of :
      ref_from_manifest manifest ≡ ok (published_ref h logical content media_type)
  unfolding ref_from_manifest
  ref_from_manifest-of =
      rw
        (
          digest_round_trip (digest_of h content) encoded,
          eq_refl (object_path (h.content_sha256 content)),
        )
        refl

  read_bytes-of :
      validate_artifact_id logical ≡ ok logical
      → d.manifests (h.id_sha256 logical) ≡ holding manifest
      → d.objects (h.content_sha256 content) ≡ some content
      → read_bytes h d (published_ref h logical content media_type) ≡ ok content
  unfolding read_bytes
  read_bytes-of valid there stored =
      rw
        (
          read_manifest-of valid there,
          ref_from_manifest-of,
          ref_eq_refl (published_ref h logical content media_type),
          stored,
          digest_eq_refl (digest_of h content),
        )
        refl

-- The directory once the manifest is written, under an id that is free.
abbrev with_manifest : ArtifactDirectory → String → Fields → ArtifactDirectory
with_manifest d k fs = record d { manifests = put_manifest d.manifests k (holding fs) }

store_manifest-free :
    (k : String) (fs : Fields) (d : ArtifactDirectory)
    → d.manifests k ≡ absent
    → store_manifest k fs (d.manifests k) d ≡ (ok tt, with_manifest d k fs)
unfolding store_manifest
store_manifest-free k fs d free = rw free refl

module _ (h : Hashing) (logical : String) (content : Bytes) (media_type : String) (digest : Fields)
    (reused_from : Option Fields)
    (encoded : encode_artifact_digest (digest_of h content) ≡ ok digest)
    (valid : validate_artifact_id logical ≡ ok logical) where
  abbrev pub Published : Result ArtifactRef × ArtifactDirectory → Type 0
  Published out =
      (out.0 ≡ ok (published_ref h logical content media_type))
      × (read_bytes h out.1 (published_ref h logical content media_type) ≡ ok content)

  -- The end of a publication whose object is in place.
  finish_publish-Published :
      (d : ArtifactDirectory)
      → d.manifests (h.id_sha256 logical) ≡ absent
      → d.objects (h.content_sha256 content) ≡ some content
      → Published (finish_publish h logical content media_type reused_from digest (ok tt, d))
  unfolding finish_publish
  finish_publish-Published d free stored =
      rw
        (store_manifest-free (h.id_sha256 logical)
          (manifest h d logical content media_type digest reused_from encoded) d free)
        (
          refl,
          read_bytes-of h _ logical content media_type digest reused_from encoded valid
              (ap
                (λ b.
                  if b
                  then holding (manifest h d logical content media_type digest reused_from encoded)
                  else d.manifests (h.id_sha256 logical))
                (eq_refl (h.id_sha256 logical)))
              stored,
        )

  pub finish_stored-Published :
      (d : ArtifactDirectory) (m : Result (Unit {0}) × ArtifactDirectory)
      → d.manifests (h.id_sha256 logical) ≡ absent
      → m.0 ≡ ok tt
      → m.1.objects (h.content_sha256 content) ≡ some content
      → m.1.manifests ≡ d.manifests
      → Published (finish_publish h logical content media_type reused_from digest m)
  finish_stored-Published d (ok t, e) free wrote stored same =
      finish_publish-Published e (ap (λ f. f (h.id_sha256 logical)) same ∙ free) stored
  finish_stored-Published d (err x, e) free wrote stored same = cc

unfoldable pub digest_document : Hashing → Bytes → Fields
digest_document h content = field "algorithm" (str "sha256") (
    field "value" (str (h.content_sha256 content))
      (field "size_bytes" (int (pos (length content))) end))

pub encode_artifact_digest-of :
    (h : Hashing) (content : Bytes)
    → encode_artifact_digest (digest_of h content) ≡ ok (digest_document h content)
unfolding encode_artifact_digest validate_digest digest_document
encode_artifact_digest-of h content = rw (h.is_hex content) refl

pub bytes_eq_refl : (xs : Bytes) → bytes_eq xs xs ≡ true
bytes_eq_refl [] = refl
bytes_eq_refl (x ∷ xs) = ground (arith, bytes_eq_refl xs)

store_object-ok :
    (sha : String) (content : Bytes) (o : Option Bytes) (d : ArtifactDirectory)
    → (o ≡ none) ⊎ (o ≡ some content)
    → (store_object sha content o d).0 ≡ ok tt
unfolding store_object
store_object-ok sha content none d h = refl
store_object-ok sha content (some c) d (inl p) = cc
store_object-ok sha content (some c) d (inr p) =
    let same : c ≡ content = cc in rw (same, bytes_eq_refl content) refl

-- A publication under a free id succeeds when the media type is not empty and the object's file is
-- free or holds the same content. Its reference has the logical id, and the content is read back by
-- it.
pub publish-read_back :
    (h : Hashing) (prefix : Option String) (artifact_id logical : String) (content : Bytes)
    (media_type : String) (reused_from : Option Fields) (d : ArtifactDirectory)
    → logical_id prefix artifact_id ≡ ok logical
    → str_eq media_type "" ≡ false
    → d.manifests (h.id_sha256 logical) ≡ absent
    → (d.objects (h.content_sha256 content) ≡ none)
      ⊎ (d.objects (h.content_sha256 content) ≡ some content)
    → let out = publish h prefix artifact_id content media_type reused_from d in
      (out.0 ≡ ok (published_ref h logical content media_type))
      × (read_bytes h out.1 (published_ref h logical content media_type) ≡ ok content)
unfolding publish publish_prepared prepare_publish
publish-read_back h prefix artifact_id logical content media_type reused_from d named typed free
      room =
    let stored = store_object-ok _ content _ d room in
    let (holds, same) = store_object-holds (h.content_sha256 content) content _ d refl stored in
    rw (named, typed, encode_artifact_digest-of h content)
      (finish_stored-Published h logical content media_type (digest_document h content) reused_from
        (encode_artifact_digest-of h content) (logical_id-ok prefix artifact_id logical named) d _
        free stored holds same)
