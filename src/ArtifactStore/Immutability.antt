-- ===== src/ArtifactStore/Immutability.antt =====
-- What a publication does to the artifacts that are already there: `_publish` and `adopt` of
-- packages/ac-jobs/src/ac_jobs/storage.py.
use ac_foundation.Prelude.{
  eq_iff, Bool-cases, Option, String, inl, inr, none, refl, some, str_eq, ◌≡◌, ap, if◌then◌else◌,
  not, ◌∙◌,
}
use ac_foundation.ArtifactStore.{
  ArtifactDirectory, Bytes, Hashing, finish_publish, publish, publish_prepared, put_manifest,
  put_object, store_manifest, store_object,
}
use ac_foundation.Json.{Fields}
use ac_foundation.Storage.{JsonFile, absent, damaged, holding, read_json_object}
use ac_foundation.Errors.{Result, err, ok, >>=-eq-ok, corrupt_state, raise_if, ◌>>=◌}
use ac_foundation.Models.{ArtifactDigest, ArtifactRef, ArtifactSourceRef, ref_eq}
use ac_foundation.ArtifactStore.Reading.{
  adopt, adopt_verified, read_bytes, read_manifest, ref_from_manifest, object_bytes,
  publish_adopted,
}
use ac_foundation.Identity.{validate_artifact_id}

-- All that the first directory holds, the second holds unchanged.
pub Keeps : ArtifactDirectory → ArtifactDirectory → Type 0
Keeps d e =
    ((j : String) (c : Bytes) → d.objects j ≡ some c → e.objects j ≡ some c)
    × ((k : String) (fs : Fields) → d.manifests k ≡ holding fs → e.manifests k ≡ holding fs)

Keeps-refl : (d : ArtifactDirectory) → Keeps d d
unfolding Keeps
Keeps-refl d = (λ j c h. h, λ k fs h. h)

Keeps-trans : (d e f : ArtifactDirectory) → Keeps d e → Keeps e f → Keeps d f
unfolding Keeps
Keeps-trans d e f p q = (λ j c h. q.0 j c (p.0 j c h), λ k fs h. q.1 k fs (p.1 k fs h))

put_object-new :
    (objects : String → Option Bytes) (sha : String) (content : Bytes) (j : String) (c : Bytes)
    → objects sha ≡ none
    → objects j ≡ some c
    → put_object objects sha content j ≡ some c
put_object-new objects sha content j c free h = elim (Bool-cases (str_eq j sha)) [
  | inl p ↦ let e = (eq_iff j sha).0 p in cc
  | inr p ↦ ap (λ b. if b then some content else objects j) p ∙ h
]

put_manifest-new :
    (manifests : String → JsonFile) (k : String) (file : JsonFile) (j : String) (fs : Fields)
    → manifests k ≡ absent
    → manifests j ≡ holding fs
    → put_manifest manifests k file j ≡ holding fs
put_manifest-new manifests k file j fs free h = elim (Bool-cases (str_eq j k)) [
  | inl p ↦ let e = (eq_iff j k).0 p in cc
  | inr p ↦ ap (λ b. if b then file else manifests j) p ∙ h
]

store_object-Keeps :
    (sha : String) (content : Bytes) (o : Option Bytes) (d : ArtifactDirectory)
    → d.objects sha ≡ o
    → Keeps d (store_object sha content o d).1
unfolding store_object Keeps
store_object-Keeps sha content none d h =
    (λ j c. put_object-new d.objects sha content j c h, λ k fs p. p)
store_object-Keeps sha content (some existing) d h = (λ j c p. p, λ k fs p. p)

store_manifest-Keeps :
    (k : String) (manifest : Fields) (file : JsonFile) (d : ArtifactDirectory)
    → d.manifests k ≡ file
    → Keeps d (store_manifest k manifest file d).1
unfolding store_manifest Keeps
store_manifest-Keeps k manifest absent d h =
    (λ j c p. p, λ j fs. put_manifest-new d.manifests k (holding manifest) j fs h)
store_manifest-Keeps k manifest damaged d h = (λ j c p. p, λ k fs p. p)
store_manifest-Keeps k manifest (holding fs) d h = (λ j c p. p, λ k fs p. p)

finish_publish-Keeps :
    (h : Hashing) (logical : String) (content : Bytes) (media_type : String)
    (reused_from : Option Fields) (digest : Fields) (m : Result (Unit {0}) × ArtifactDirectory)
    → Keeps m.1 (finish_publish h logical content media_type reused_from digest m).1
unfolding finish_publish
finish_publish-Keeps h logical content media_type reused_from digest (err e, d) = Keeps-refl d
finish_publish-Keeps h logical content media_type reused_from digest (ok t, d) =
    store_manifest-Keeps (h.id_sha256 logical) _ _ d refl

publish_prepared-Keeps :
    (h : Hashing) (content : Bytes) (media_type : String) (reused_from : Option Fields)
    (m : Result (String × Fields)) (d : ArtifactDirectory)
    → Keeps d (publish_prepared h content media_type reused_from m d).1
unfolding publish_prepared
publish_prepared-Keeps h content media_type reused_from (err e) d = Keeps-refl d
publish_prepared-Keeps h content media_type reused_from (ok (logical, digest)) d =
    Keeps-trans d _ _ (store_object-Keeps (h.content_sha256 content) content _ d refl)
      (finish_publish-Keeps h logical content media_type reused_from digest _)

publish-Keeps :
    (h : Hashing) (prefix : Option String) (artifact_id : String) (content : Bytes)
    (media_type : String) (reused_from : Option Fields) (d : ArtifactDirectory)
    → Keeps d (publish h prefix artifact_id content media_type reused_from d).1
unfolding publish
publish-Keeps h prefix artifact_id content media_type reused_from d =
    publish_prepared-Keeps h content media_type reused_from _ d

-- A chain of results that succeeds still succeeds when its parts do.
>>=-keeps :
    {A B : Type 0} (m n : Result A) (f g : A → Result B) (b : B)
    → ((a : A) → m ≡ ok a → n ≡ ok a)
    → ((a : A) → f a ≡ ok b → g a ≡ ok b)
    → (m >>= f) ≡ ok b
    → (n >>= g) ≡ ok b
>>=-keeps m n f g b p q h =
    let (a, first, rest) = >>=-eq-ok m f h in ap (λ m. m >>= g) (p a first) ∙ q a rest

read_file-Keeps :
    (d e : ArtifactDirectory) (k : String) (fs : Fields)
    → Keeps d e
    → read_json_object (d.manifests k) ≡ ok fs
    → read_json_object (e.manifests k) ≡ ok fs
unfolding Keeps
read_file-Keeps d e k fs keeps h = go (d.manifests k) refl h
  where
    go :
        (file : JsonFile)
        → d.manifests k ≡ file
        → read_json_object file ≡ ok fs
        → read_json_object (e.manifests k) ≡ ok fs
    go absent p h = cc
    go damaged p h = cc
    go (holding gs) p h = ap read_json_object (keeps.1 k gs p) ∙ h

object-Keeps :
    (d e : ArtifactDirectory) (j : String) (c : Bytes)
    → Keeps d e
    → object_bytes (d.objects j) ≡ ok c
    → object_bytes (e.objects j) ≡ ok c
unfolding Keeps
object-Keeps d e j c keeps h = go (d.objects j) refl h
  where
    go :
        (o : Option Bytes)
        → d.objects j ≡ o
        → object_bytes o ≡ ok c
        → object_bytes (e.objects j) ≡ ok c
    go none p h = cc
    go (some x) p h = ap object_bytes (keeps.0 j x p) ∙ h

read_manifest-Keeps :
    (h : Hashing) (d e : ArtifactDirectory) (artifact_id : String) (fs : Fields)
    → Keeps d e
    → read_manifest h d artifact_id ≡ ok fs
    → read_manifest h e artifact_id ≡ ok fs
unfolding read_manifest
read_manifest-Keeps h d e artifact_id fs keeps =
    >>=-keeps (validate_artifact_id artifact_id) _ _ _ fs (λ a p. p)
      (λ a.
        >>=-keeps (read_json_object (d.manifests (h.id_sha256 artifact_id))) _ _ _ fs
          (λ a. read_file-Keeps d e _ a keeps) (λ a p. p))

read_bytes-Keeps :
    (h : Hashing) (d e : ArtifactDirectory) (ref : ArtifactRef) (c : Bytes)
    → Keeps d e
    → read_bytes h d ref ≡ ok c
    → read_bytes h e ref ≡ ok c
unfolding read_bytes
read_bytes-Keeps h d e ref c keeps =
    >>=-keeps (read_manifest h d ref.artifact_id) _ _ _ c
      (λ fs. read_manifest-Keeps h d e _ fs keeps)
      (λ fs.
        >>=-keeps (ref_from_manifest fs) _ _ _ c (λ a p. p)
          (λ canonical.
            >>=-keeps (raise_if (not (ref_eq canonical ref)) corrupt_state) _ _ _ c (λ a p. p)
              (λ t.
                >>=-keeps (object_bytes (d.objects canonical.digest.value)) _ _ _ c
                  (λ a. object-Keeps d e _ a keeps) (λ a p. p))))

-- Whatever is published, and whether the publication succeeds or fails part way, a reference that
-- could be read still reads as the same content.
pub publish-read_bytes :
    (h : Hashing) (prefix : Option String) (artifact_id : String) (content : Bytes)
    (media_type : String) (reused_from : Option Fields) (d : ArtifactDirectory) (ref : ArtifactRef)
    (c : Bytes)
    → read_bytes h d ref ≡ ok c
    → read_bytes h (publish h prefix artifact_id content media_type reused_from d).1 ref ≡ ok c
publish-read_bytes h prefix artifact_id content media_type reused_from d ref c =
    read_bytes-Keeps h d _ ref c
      (publish-Keeps h prefix artifact_id content media_type reused_from d)

-- An adoption, too, leaves every readable reference readable with its content, whether it succeeds
-- or fails.
pub adopt-read_bytes :
    (h : Hashing) (prefix : Option String) (runs : Option (String → ArtifactDirectory))
    (source : ArtifactSourceRef) (artifact_id : String) (expected : ArtifactDigest)
    (d : ArtifactDirectory) (ref : ArtifactRef) (c : Bytes)
    → read_bytes h d ref ≡ ok c
    → read_bytes h (adopt h prefix runs source artifact_id expected d).1 ref ≡ ok c
unfolding adopt
adopt-read_bytes h prefix runs source artifact_id expected d ref c =
    go (adopt_verified h runs source expected)
  where
    go :
        (m : Result (ArtifactRef × Bytes × Fields))
        → read_bytes h d ref ≡ ok c
        → read_bytes h (publish_adopted h prefix artifact_id m d).1 ref ≡ ok c
    go (err e) p = p
    go (ok (found, content, origin)) p =
        publish-read_bytes h prefix artifact_id content found.media_type (some origin) d ref c p
