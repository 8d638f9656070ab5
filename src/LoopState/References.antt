-- ===== src/LoopState/References.antt =====
-- The artifact references in a loop state or a transcript, and the references that can be written
-- (`encode_artifact_ref` and `decode_artifact_ref` of packages/ac-jobs/src/ac_jobs/artifacts.py).
use ac_foundation.Errors.{>>=-cases, ok, raise_if, raise_if-ok, value_error, value_injective}
use ac_foundation.Models.{ArtifactDigest, ArtifactRef}
use ac_foundation.Prelude.{
  Bool, [], arith, false, not, refl, str_eq, subst, true, ◌&&◌, ◌||◌, ◌∷◌, ◌≡◌,
}
use ac_foundation.Json.{JsonValue, get}
use ac_foundation.Artifacts.{
  as_object, as_size, as_text, decode_artifact_digest, decode_artifact_ref, encode_artifact_digest,
  encode_artifact_ref, has_shape, is_sha256_hex, validate_digest,
}
use ac_foundation.LoopState.Codec.{ref_document}

-- A reference whose digest is one of SHA-256.
abbrev pub ref_valid : ArtifactRef → Bool
ref_valid r = str_eq r.digest.algorithm "sha256" && is_sha256_hex r.digest.value

digest_tests : (a b : Bool) → (a && b) ≡ true → (not a || not b) ≡ false
digest_tests a b h = ground arith

tests_digest : (a b : Bool) → (not a || not b) ≡ false → b ≡ true
tests_digest a b h = ground arith

pub ref_document-total :
    (r : ArtifactRef) → ref_valid r ≡ true → (v : JsonValue) × (ref_document r ≡ ok v)
unfolding ref_document encode_artifact_ref encode_artifact_digest validate_digest
ref_document-total r g =
    rw (digest_tests (str_eq r.digest.algorithm "sha256") (is_sha256_hex r.digest.value) g)
      (_, refl)

decode_artifact_digest-valid :
    (v : JsonValue) (d : ArtifactDigest)
    → decode_artifact_digest v ≡ ok d
    → (d.algorithm ≡ "sha256") × (is_sha256_hex d.value ≡ true)
unfolding decode_artifact_digest validate_digest
decode_artifact_digest-valid v d h = >>=-cases (as_object v) _ h (λ fs _ h1.
    >>=-cases
      (raise_if (not (has_shape ("algorithm" ∷ "value" ∷ "size_bytes" ∷ []) fs)) value_error) _ h1
      (λ _ _ h2. >>=-cases (as_text (get "algorithm" fs)) _ h2 (λ algorithm _ h3.
        >>=-cases (as_text (get "value" fs)) _ h3 (λ value _ h4.
          >>=-cases (as_size (get "size_bytes" fs)) _ h4 (λ size _ h5.
            >>=-cases
              (raise_if (not (str_eq algorithm "sha256") || not (is_sha256_hex value)) value_error)
              _ h5
              (λ _ e h6.
                subst (λ d. (d.algorithm ≡ "sha256") × (is_sha256_hex d.value ≡ true))
                  (value_injective h6)
                  (
                    refl,
                    tests_digest (str_eq algorithm "sha256") (is_sha256_hex value)
                        (raise_if-ok _ value_error e),
                  )))))))

pub decode_artifact_ref-valid :
    (v : JsonValue) (r : ArtifactRef) → decode_artifact_ref v ≡ ok r → ref_valid r ≡ true
unfolding decode_artifact_ref
decode_artifact_ref-valid v r h = >>=-cases (as_object v) _ h (λ fs _ h1.
    >>=-cases
      (raise_if
        (not (has_shape ("artifact_id" ∷ "digest" ∷ "media_type" ∷ "relative_path" ∷ []) fs))
        value_error)
      _ h1
      (λ _ _ h2. >>=-cases (as_text (get "artifact_id" fs)) _ h2 (λ id _ h3.
        >>=-cases (as_text (get "media_type" fs)) _ h3 (λ media _ h4.
          >>=-cases (as_text (get "relative_path" fs)) _ h4 (λ path _ h5.
            >>=-cases (decode_artifact_digest (get "digest" fs)) _ h5 (λ d e h6.
              let (p, q) = decode_artifact_digest-valid (get "digest" fs) d e in
              subst (λ r. ref_valid r ≡ true) (value_injective h6) (rw p (rw q refl))))))))
