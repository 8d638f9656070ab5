-- ===== src/Tests/Artifacts.antt =====
-- Concrete artifacts.
use ac_foundation.ArtifactStore.{ArtifactDirectory, Hashing, digest_of, logical_id, publish}
use ac_foundation.Models.{ArtifactRef, ArtifactSourceRef}
use ac_foundation.Prelude.{String, [], inl, none, refl, some, ◌∷◌, ◌≡◌, true}
use ac_foundation.Storage.{absent}
use ac_foundation.ArtifactStore.Reading.{read_bytes}
use ac_foundation.ArtifactStore.Immutability.{publish-read_bytes}
use ac_foundation.Artifacts.{encode_artifact_ref, is_sha256_hex, encode_artifact_digest}
use ac_foundation.Json.{end, Fields}
use ac_foundation.Errors.{ok, Result, err}
use ac_foundation.ArtifactStore.RoundTrip.{publish-read_back, published_ref}
use ac_foundation.Text.{append_text}
use ac_foundation.Identity.{
  is_artifact_id, is_artifact_part, matches_simple_id, split_slash, validate_artifact_id, codes,
}

abbrev pub sha : String
sha = "00112233445566778899aabbccddeeff00112233445566778899aabbccddeeff"

abbrev pub fields_or_end : Result Fields → Fields
fields_or_end (ok fs) = fs
fields_or_end (err e) = end

pub sha-IsHex : is_sha256_hex sha ≡ true
unfolding is_sha256_hex
sha-IsHex = refl

-- A digest that does not depend on the content.
abbrev pub one_hash : Hashing
one_hash = record { content_sha256 = λ c. sha; id_sha256 = λ t. t; is_hex = λ c. sha-IsHex }

abbrev pub no_artifacts : ArtifactDirectory
no_artifacts = record { objects = λ j. none; manifests = λ k. absent }

named : logical_id (some "unit") "report" ≡ ok "unit/report"
unfolding logical_id validate_artifact_id is_artifact_id split_slash is_artifact_part
    matches_simple_id append_text
named = refl

publish-read_back_example :
    let out = publish one_hash (some "unit") "report" (1 ∷ 2 ∷ []) "text/plain" none no_artifacts in
    (out.0 ≡ ok (published_ref one_hash "unit/report" (1 ∷ 2 ∷ []) "text/plain"))
    × (read_bytes one_hash out.1 (published_ref one_hash "unit/report" (1 ∷ 2 ∷ []) "text/plain")
        ≡ ok (1 ∷ 2 ∷ []))
publish-read_back_example =
    publish-read_back one_hash (some "unit") "report" "unit/report" (1 ∷ 2 ∷ []) "text/plain" none
      no_artifacts named refl refl (inl refl)

abbrev pub with_report : ArtifactDirectory
with_report =
    (publish one_hash (some "unit") "report" (1 ∷ 2 ∷ []) "text/plain" none no_artifacts).1

abbrev pub report : ArtifactRef
report = published_ref one_hash "unit/report" (1 ∷ 2 ∷ []) "text/plain"

pub report_readable : read_bytes one_hash with_report report ≡ ok (1 ∷ 2 ∷ [])
report_readable =
    (publish-read_back one_hash (some "unit") "report" "unit/report" (1 ∷ 2 ∷ []) "text/plain" none
      no_artifacts named refl refl (inl refl)).1

publish-read_bytes_example :
    read_bytes one_hash
      (publish one_hash (some "unit") "report" (9 ∷ []) "text/plain" none with_report).1
      report
    ≡ ok (1 ∷ 2 ∷ [])
publish-read_bytes_example =
    publish-read_bytes one_hash (some "unit") "report" (9 ∷ []) "text/plain" none with_report report
      (1 ∷ 2 ∷ []) report_readable

abbrev source : ArtifactSourceRef
source = record {
  source_run_id = "run-1";
  source_artifact_id = "unit/report";
  expected_digest = digest_of one_hash (1 ∷ 2 ∷ []);
}

report_encodes : encode_artifact_ref report ≡ ok (fields_or_end (encode_artifact_ref report))
unfolding encode_artifact_ref encode_artifact_digest is_sha256_hex
report_encodes = refl

valid_names : (is_artifact_id (codes "unit") ≡ true) × (is_artifact_id (codes "report") ≡ true)
unfolding is_artifact_id split_slash is_artifact_part matches_simple_id
valid_names = (refl, refl)
