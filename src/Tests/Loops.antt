-- ===== src/Tests/Loops.antt =====
-- A loop of one proposer and one reviewer: its first state, a round that waits for a quota, the
-- round when it is completed, and the end.
use ac_foundation.Tests.Fixtures.{external_wait}
use ac_foundation.Json.{Fields, end, JsonValue, arr, cons, field, int, nil, obj, pos, str}
use ac_foundation.LoopState.Codec.{HexTexts, decode_loop, encode_loop}
use ac_foundation.LoopState.RoundTrip.{IsValid, decode-encode_loop}
use ac_foundation.LoopState.{LoopState, PauseRecord, SessionRef, reviewer_stop}
use ac_foundation.Errors.{err, ok, value_error, type_error}
use ac_foundation.Prelude.{String, [], none, refl, some, true, ◌∷◌, ◌≡◌, ◌≤◌}
use ac_foundation.LoopState.Steps.{created, next, history-bounds, next, validate_loop}
use ac_foundation.Transcript.{
  TranscriptTurn, decode_transcript_turn, encode_transcript_turn, turn_schema,
}
use ac_foundation.Snapshot.Store.{read}
use ac_foundation.LoopState.Decoding.{reencode_loop}
use ac_foundation.Transcript.Decoding.{reencode_transcript_turn}
use ac_foundation.Artifacts.{decode_artifact_digest, decode_artifact_ref, is_sha256_hex}
use ac_foundation.Identity.{matches_simple_id}

abbrev any_text : HexTexts
any_text = record { parses = λ t. true }

abbrev digest_text : String
digest_text = "0123456789abcdef0123456789abcdef0123456789abcdef0123456789abcdef"

abbrev session : SessionRef
session = record { session_key = "s-1"; accepted_prefix_sha256 = digest_text }

abbrev waiting : PauseRecord
waiting = record {
  role = "proposer";
  worker_id = "w-1";
  round_number = 1;
  task_id = "t-1";
  awaiting = external_wait;
}

abbrev first_state : LoopState
first_state = record {
  revision = 0;
  loop_id = "loop";
  rounds_completed = 0;
  proposal_refs = [];
  current_proposer_ids = [];
  review_ref = none;
  proposer_sessions = [];
  reviewer_session = none;
  transcript_refs = [];
  pauses = [];
  termination = none;
}

abbrev waiting_state : LoopState
waiting_state = record first_state {
  revision = 1;
  current_proposer_ids = "w-1" ∷ [];
  proposer_sessions = ("w-1", session) ∷ [];
  pauses = ("w-1", waiting) ∷ [];
}

abbrev completed_state : LoopState
completed_state = record waiting_state { revision = 2; rounds_completed = 1; pauses = [] }

abbrev ended_state : LoopState
ended_state = record completed_state {
  revision = 3;
  reviewer_session = some session;
  termination = some reviewer_stop;
}

started : validate_loop none first_state ≡ ok tt
unfolding validate_loop
started = refl

paused_step : validate_loop (some first_state) waiting_state ≡ ok tt
unfolding validate_loop
paused_step = refl

completed_step : validate_loop (some waiting_state) completed_state ≡ ok tt
unfolding validate_loop
completed_step = refl

ended_step : validate_loop (some completed_state) ended_state ≡ ok tt
unfolding validate_loop
ended_step = refl

pause_kept :
    validate_loop (some first_state) (record waiting_state { rounds_completed = 1 })
    ≡ err value_error
unfolding validate_loop
pause_kept = refl

history-bounds_example :
    (ended_state.loop_id ≡ "loop")
    × (first_state.revision ≡ 0)
    × (first_state.rounds_completed ≡ 0)
    × (ended_state.rounds_completed ≤ ended_state.revision)
history-bounds_example =
    history-bounds (next (next (next (created started) paused_step) completed_step) ended_step)

waiting_state-IsValid : IsValid any_text waiting_state
unfolding matches_simple_id
waiting_state-IsValid = record {
  proposals = refl;
  review = refl;
  transcript = refl;
  sessions = refl;
  reviewer = refl;
  paused = refl;
}

decode-encode_loop_example :
    (fs : Fields) × (encode_loop waiting_state ≡ ok fs)
    × (decode_loop any_text fs ≡ ok waiting_state)
decode-encode_loop_example = decode-encode_loop any_text waiting_state waiting_state-IsValid

reencode_loop_example :
    (fs : Fields) × (encode_loop waiting_state ≡ ok fs)
    × (decode_loop any_text fs ≡ ok waiting_state)
reencode_loop_example =
    let (fs, _, read) = decode-encode_loop any_text waiting_state waiting_state-IsValid in
    reencode_loop any_text fs waiting_state read

abbrev turn : TranscriptTurn
turn = record {
  role = "reviewer";
  worker_id = "w-2";
  round_number = 1;
  content_ref = record {
    artifact_id = "unit/report";
    digest = record { algorithm = "sha256"; value = digest_text; size_bytes = 2 };
    media_type = "text/plain";
    relative_path = "artifacts/report";
  };
  addressed_worker_ids = "w-1" ∷ [];
}

abbrev digest_document : JsonValue
digest_document = obj (
    field "algorithm" (str "sha256")
      (field "value" (str digest_text) (field "size_bytes" (int (pos 2)) end)))

abbrev turn_document_of : JsonValue → JsonValue
turn_document_of role = obj (
    field "schema_version" (str turn_schema) (
      field "role" role (
        field "worker_id" (str "w-2") (
          field "round" (int (pos 1)) (
            field "content_ref"
              (obj (
                field "artifact_id" (str "unit/report") (
                  field "digest" digest_document (
                    field "media_type" (str "text/plain")
                      (field "relative_path" (str "artifacts/report") end)))))
              (field "addressed_worker_ids" (arr (cons (str "w-1") nil)) end))))))

turn_decodes : decode_transcript_turn (turn_document_of (str "reviewer")) ≡ ok turn
unfolding decode_transcript_turn decode_artifact_ref decode_artifact_digest is_sha256_hex
turn_decodes = refl

reencode_transcript_turn_example :
    (fs : Fields) × (encode_transcript_turn turn ≡ ok fs)
    × (decode_transcript_turn (obj fs) ≡ ok turn)
reencode_transcript_turn_example =
    reencode_transcript_turn (turn_document_of (str "reviewer")) turn turn_decodes

-- A role that is a list raises TypeError.
unhashable_role : decode_transcript_turn (turn_document_of (arr nil)) ≡ err type_error
unfolding decode_transcript_turn
unhashable_role = refl
