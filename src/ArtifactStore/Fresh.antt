-- ===== src/ArtifactStore/Fresh.antt =====
-- A publication of packages/ac-jobs/src/ac_jobs/storage.py that returns, under an id that was free.
use ac_foundation.Errors.{>>=-eq-ok, JobsError, Result, err, ok, raise_if, value_error}
use ac_foundation.ArtifactStore.{
  ArtifactDirectory, Bytes, Hashing, digest_of, finish_publish, logical_id, prepare_publish,
  publish, publish_bytes, publish_prepared,
}
use ac_foundation.Models.{ArtifactRef}
use ac_foundation.Prelude.{Bool, String, ap, arith, false, none, refl, str_eq, ◌∙◌, ◌≡◌, subst, sym}
use ac_foundation.Json.{Fields}
use ac_foundation.Storage.{absent}
use ac_foundation.Artifacts.{encode_artifact_digest}
use ac_foundation.ArtifactStore.RoundTrip.{
  published_ref, finish_stored-Published, logical_id-ok, store_object-holds,
}
use ac_foundation.ArtifactStore.Reading.{read_bytes}
use ac_foundation.ArtifactStore.Finding.{logical_id-none}

raise_if-not_raised : (b : Bool) (e : JobsError) {t : Unit {0}} → raise_if b e ≡ ok t → b ≡ false
raise_if-not_raised b e h = ground arith

ok-injective : {a b : ArtifactRef} → ok a ≡ ok b → a ≡ b
ok-injective h = cc

module _ (h : Hashing) (id : String) (content : Bytes) (media_type : String) (d : ArtifactDirectory)
    (ref : ArtifactRef) where
  prepare_publish-parts :
      (logical : String) (digest : Fields)
      → prepare_publish h none id content media_type ≡ ok (logical, digest)
      → (logical_id none id ≡ ok logical)
        × (encode_artifact_digest (digest_of h content) ≡ ok digest)
  unfolding prepare_publish
  prepare_publish-parts logical digest e =
      let (l, p, q) = >>=-eq-ok (logical_id none id) _ e in
      let (t, p1, q1) = >>=-eq-ok (raise_if (str_eq media_type "") value_error) _ q in
      let (g, p2, q2) = >>=-eq-ok (encode_artifact_digest (digest_of h content)) _ q1 in
      let same : (l, g) ≡ (logical, digest) = cc in
      (
        p ∙ ap (λ (x : String × Fields). ok x.0) same,
        p2 ∙ ap (λ (x : String × Fields). ok x.1) same,
      )

  finish_publish-stored :
      (logical : String) (digest : Fields) (m : Result (Unit {0}) × ArtifactDirectory)
      → (finish_publish h logical content media_type none digest m).0 ≡ ok ref
      → m.0 ≡ ok tt
  unfolding finish_publish
  finish_publish-stored logical digest (ok t, e) p = refl
  finish_publish-stored logical digest (err x, e) p = absurd cc

  Fresh : Result ArtifactRef × ArtifactDirectory → Type 0
  Fresh out = (ref ≡ published_ref h id content media_type) × (read_bytes h out.1 ref ≡ ok content)

  publish_prepared-Fresh :
      (m : Result (String × Fields))
      → prepare_publish h none id content media_type ≡ m
      → d.manifests (h.id_sha256 id) ≡ absent
      → (publish_prepared h content media_type none m d).0 ≡ ok ref
      → Fresh (publish_prepared h content media_type none m d)
  unfolding publish_prepared Fresh
  publish_prepared-Fresh (err x) e free p = absurd cc
  publish_prepared-Fresh (ok (logical, digest)) e free p =
      let (named, encoded) = prepare_publish-parts logical digest e in
      let same = logical_id-none id logical named in
      let stored = finish_publish-stored logical digest _ p in
      let (holds, files) = store_object-holds (h.content_sha256 content) content _ d refl stored in
      let (returned, reads) =
        finish_stored-Published h logical content media_type digest none encoded
          (logical_id-ok none id logical named) d _
          (subst (λ s. d.manifests (h.id_sha256 s) ≡ absent) same free) stored holds files in
      let is_ref : ref ≡ published_ref h logical content media_type =
        ok-injective (sym p ∙ returned) in
      (
        is_ref ∙ ap (λ s. published_ref h s content media_type) (sym same),
        subst
            (λ r.
              read_bytes h (publish_prepared h content media_type none (ok (logical, digest)) d).1 r
              ≡ ok content)
            (sym is_ref) reads,
      )

  -- The reference that it returns is of this content, which is read back by it.
  pub publish_bytes-Fresh :
      d.manifests (h.id_sha256 id) ≡ absent
      → (publish_bytes h none id content media_type d).0 ≡ ok ref
      → (ref ≡ published_ref h id content media_type)
        × (read_bytes h (publish_bytes h none id content media_type d).1 ref ≡ ok content)
  unfolding publish_bytes publish Fresh
  publish_bytes-Fresh = publish_prepared-Fresh _ refl
