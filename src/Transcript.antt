-- ===== src/Transcript.antt =====
-- The turns of a transcript of proposers and reviewers,
-- packages/ac-proposer-reviewer/src/ac_proposer_reviewer/dialogue.py.
pub mod Decoding
use ac_foundation.Models.{ArtifactRef}
use ac_foundation.Prelude.{Bool, List, String, [], if◌then◌else◌, not, str_eq, true, ℕ, ◌∷◌}
use ac_foundation.Json.{Fields, JsonValue, arr, end, field, get, int, obj, pos, str}
use ac_foundation.Errors.{Result, err, ok, raise_if, type_error, value_error, ◌>>=◌, ◌>>◌}
use ac_foundation.LoopState.Codec.{
  as_array, decode_list, encode_list, pause_role, positive_round, ref_document, text_json,
}
use ac_foundation.Artifacts.{as_object, decode_artifact_ref, has_shape}

-- `TranscriptTurn`
pub record TranscriptTurn : Type 0 where
  pub role : String
  pub worker_id : String
  pub round_number : ℕ
  pub content_ref : ArtifactRef
  pub addressed_worker_ids : List String

abbrev pub turn_schema : String
turn_schema = "ac.proposer_reviewer.transcript_turn.v1"

-- `encode_transcript_turn`
unfoldable pub encode_transcript_turn : TranscriptTurn → Result Fields
unfolding ref_document
encode_transcript_turn t = do
  content_ref ← ref_document t.content_ref
  ids ← encode_list text_json t.addressed_worker_ids
  ok (
      field "schema_version" (str turn_schema) (
        field "role" (str t.role) (
          field "worker_id" (str t.worker_id) (
            field "round" (int (pos t.round_number))
              (field "content_ref" content_ref (field "addressed_worker_ids" (arr ids) end))))))

-- `value != _TRANSCRIPT_TURN_SCHEMA`
abbrev pub other_schema : JsonValue → Bool
other_schema (str t) = not (str_eq t turn_schema)
other_schema _ = true

-- `role not in {"proposer", "reviewer"}`: a list or a dict cannot be hashed, which raises TypeError.
abbrev pub turn_role : JsonValue → Result String
turn_role (str t) = if pause_role t then ok t else err value_error
turn_role (arr vs) = err type_error
turn_role (obj fs) = err type_error
turn_role _ = err value_error

abbrev pub is_filled : String → Bool
is_filled t = not (str_eq t "")

-- A text that is not empty.
abbrev pub filled_text : JsonValue → Result String
filled_text (str t) = if is_filled t then ok t else err value_error
filled_text _ = err value_error

abbrev pub turn_fields : List String
turn_fields =
    "schema_version" ∷ "role" ∷ "worker_id" ∷ "round" ∷ "content_ref" ∷ "addressed_worker_ids" ∷ []

-- `decode_transcript_turn`
unfoldable pub decode_transcript_turn : JsonValue → Result TranscriptTurn
decode_transcript_turn v = do
  fs ← as_object v
  raise_if (not (has_shape turn_fields fs)) value_error
  raise_if (other_schema (get "schema_version" fs)) value_error
  role ← turn_role (get "role" fs)
  worker_id ← filled_text (get "worker_id" fs)
  round_number ← positive_round (get "round" fs)
  raw_ids ← as_array (get "addressed_worker_ids" fs)
  ids ← decode_list filled_text raw_ids
  content_ref ← decode_artifact_ref (get "content_ref" fs)
  ok (record {
    role = role;
    worker_id = worker_id;
    round_number = round_number;
    content_ref = content_ref;
    addressed_worker_ids = ids;
  })
