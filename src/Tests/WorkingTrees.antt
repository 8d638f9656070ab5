-- ===== src/Tests/WorkingTrees.antt =====
-- Working files in a recovery epoch.
use ac_foundation.Models.{ArtifactRef}
use ac_foundation.Working.{
  EditableStore, RunFiles, find_working, immutable_id, known_media_type, publish_editable,
}
use ac_foundation.Working.Edits.{Found, find_working-Found}
use ac_foundation.Errors.{Result, ok}
use ac_foundation.Prelude.{String, [], none, refl, some, ◌∷◌, ◌≡◌}
use ac_foundation.Working.Recovery.{publish_editable-find}
use ac_foundation.ArtifactStore.{logical_id, publish_bytes, publish}
use ac_foundation.Tests.Artifacts.{no_artifacts, one_hash}
use ac_foundation.ArtifactStore.RoundTrip.{published_ref}
use ac_foundation.ArtifactStore.Reading.{find}
use ac_foundation.Identity.{
  validate_artifact_id, is_artifact_id, is_artifact_part, matches_simple_id, split_slash,
}
use ac_foundation.Text.{append_text, decimal}
use ac_foundation.Artifacts.{encode_artifact_digest, is_sha256_hex}

abbrev second_epoch : EditableStore
second_epoch = record { prefix = none; recovery_epoch = 1 }

abbrev plain : String
plain = "application/octet-stream"

abbrev edited : RunFiles
edited = record { immutable = no_artifacts; working = λ j. some (7 ∷ []) }

report_named : logical_id none "report" ≡ ok "report"
unfolding logical_id validate_artifact_id is_artifact_id split_slash is_artifact_part
    matches_simple_id
report_named = refl

report_id : validate_artifact_id (immutable_id 1 "report") ≡ ok (immutable_id 1 "report")
unfolding validate_artifact_id is_artifact_id immutable_id append_text decimal split_slash
    is_artifact_part matches_simple_id
report_id = refl

report_media : known_media_type one_hash no_artifacts 1 "report" ≡ ok plain
unfolding known_media_type find logical_id validate_artifact_id is_artifact_id immutable_id
    split_slash is_artifact_part matches_simple_id
report_media = refl

find_working-Found_example :
    Found one_hash 0 "report" (7 ∷ []) edited (find_working one_hash second_epoch "report" edited)
find_working-Found_example =
    find_working-Found one_hash second_epoch 0 "report" "report" (7 ∷ []) edited refl report_named
      refl

-- The file is edited again, after it was published.
abbrev edited_again : RunFiles
edited_again = record {
  immutable = (find_working one_hash second_epoch "report" edited).1.immutable;
  working = λ j. some (8 ∷ []);
}

abbrev published : Result ArtifactRef × RunFiles
published = publish_editable one_hash second_epoch "report" (7 ∷ []) plain edited

report_returned : published.0 ≡ ok (published_ref one_hash (immutable_id 1 "report") (7 ∷ []) plain)
unfolding publish_editable logical_id validate_artifact_id is_artifact_id split_slash
    is_artifact_part matches_simple_id publish_bytes publish immutable_id append_text decimal
    encode_artifact_digest is_sha256_hex
report_returned = refl

publish_editable-find_example :
    find_working one_hash second_epoch "report" published.1
    ≡ (ok (some (published_ref one_hash (immutable_id 1 "report") (7 ∷ []) plain)), published.1)
publish_editable-find_example =
    publish_editable-find one_hash second_epoch "report" "report" plain (7 ∷ []) edited
      (published_ref one_hash (immutable_id 1 "report") (7 ∷ []) plain) report_named refl
      report_returned
