-- ===== src/LoopState/Codec.antt =====
-- The documents of a loop state, packages/ac-proposer-reviewer/src/ac_proposer_reviewer/state.py:
-- `_LoopStateContract.encode` and `decode` and what they call.
use ac_foundation.Models.{ArtifactRef, ResumeReason, reason_of}
use ac_foundation.Prelude.{
  Bool, List, Option, String, [], if◌then◌else◌, length, none, not, some, str_eq, suc, ℕ, ◌&&◌,
  ◌==◌, ◌||◌, ◌∷◌,
}
use ac_foundation.Json.{
  Fields, Items, JsonValue, arr, bool, cons, end, field, get, int, nil, null, obj, pos, str,
}
use ac_foundation.LoopState.{
  LoopState, LoopTermination, PauseRecord, SessionRef, termination_of, termination_value,
}
use ac_foundation.Errors.{Result, err, foreign, ok, raise_if, value_error, ◌>>=◌, ◌>>◌}
use ac_foundation.Artifacts.{
  as_object, as_size, as_text, decode_artifact_ref, encode_artifact_ref, has_shape,
}
use ac_foundation.Snapshot.Codec.{awaiting_document, ref_json}
use ac_foundation.Identity.{codes, matches_simple_id}

-- A comprehension over the items of a dict, and over a list.
module _ {A : Type 0} (encode : A → Result JsonValue) where
  abbrev pub encode_map : List (String × A) → Result Fields
  encode_map [] = ok end
  encode_map ((k, a) ∷ items) = do v ← encode a; fs ← encode_map items; ok (field k v fs)

  abbrev pub encode_list : List A → Result Items
  encode_list [] = ok nil
  encode_list (a ∷ xs) = do v ← encode a; vs ← encode_list xs; ok (cons v vs)

  abbrev pub encode_optional : Option A → Result JsonValue
  encode_optional none = ok null
  encode_optional (some a) = encode a

module _ {A : Type 0} (decode : JsonValue → Result A) where
  abbrev pub decode_map : Fields → Result (List (String × A))
  decode_map end = ok []
  decode_map (field k v fs) = do a ← decode v; items ← decode_map fs; ok ((k, a) ∷ items)

  abbrev pub decode_list : Items → Result (List A)
  decode_list nil = ok []
  decode_list (cons v vs) = do a ← decode v; xs ← decode_list vs; ok (a ∷ xs)

  abbrev pub decode_optional : JsonValue → Result (Option A)
  decode_optional null = ok none
  decode_optional v = decode v >>= (λ a. ok (some a))

-- `artifact_ref_to_document` of artifacts.py
unfoldable pub ref_document : ArtifactRef → Result JsonValue
ref_document r = do fs ← encode_artifact_ref r; ok (obj fs)

-- `_session_document`
abbrev pub session_document : SessionRef → Result JsonValue
session_document s = ok (
    obj (
      field "session_key" (str s.session_key)
        (field "accepted_prefix_sha256" (str s.accepted_prefix_sha256) end)))

-- `_pause_document`
unfoldable pub pause_document : PauseRecord → Result JsonValue
pause_document p = do
  request_ref ← ref_json p.awaiting.request_ref
  ok (
      obj (
        field "role" (str p.role) (
          field "worker_id" (str p.worker_id) (
            field "round" (int (pos p.round_number)) (
              field "task_id" (str p.task_id)
                (field "awaiting" (obj (awaiting_document p.awaiting request_ref)) end))))))

abbrev pub text_json : String → Result JsonValue
text_json t = ok (str t)

abbrev pub termination_json : LoopTermination → Result JsonValue
termination_json t = ok (str (termination_value t))

-- `_LoopStateContract.encode`
unfoldable pub encode_loop : LoopState → Result Fields
unfolding ref_document pause_document
encode_loop s = do
  proposal_refs ← encode_map ref_document s.proposal_refs
  ids ← encode_list text_json s.current_proposer_ids
  review_ref ← encode_optional ref_document s.review_ref
  sessions ← encode_map session_document s.proposer_sessions
  reviewer_session ← encode_optional session_document s.reviewer_session
  transcript ← encode_list ref_document s.transcript_refs
  pauses ← encode_map pause_document s.pauses
  termination ← encode_optional termination_json s.termination
  ok (
      field "revision" (int (pos s.revision)) (
        field "loop_id" (str s.loop_id) (
          field "rounds_completed" (int (pos s.rounds_completed)) (
            field "proposal_refs" (obj proposal_refs) (
              field "current_proposer_ids" (arr ids) (
                field "review_ref" review_ref (
                  field "proposer_sessions" (obj sessions) (
                    field "reviewer_session" reviewer_session (
                      field "transcript_refs" (arr transcript)
                        (field "pauses" (obj pauses) (field "termination" termination end)))))))))))

-- Whether `int(value, 16)` accepts a text.
pub record HexTexts : Type 0 where
  pub parses : String → Bool

-- `SessionRef.__post_init__`
abbrev pub session_valid : HexTexts → SessionRef → Bool
session_valid hex s =
    matches_simple_id (codes s.session_key)
    && length (codes s.accepted_prefix_sha256) == 64
    && hex.parses s.accepted_prefix_sha256

-- `_session_from_document`
unfoldable pub session_from_document : HexTexts → JsonValue → Result SessionRef
session_from_document hex v = do
  fs ← as_object v
  raise_if (not (has_shape ("session_key" ∷ "accepted_prefix_sha256" ∷ []) fs)) value_error
  session_key ← as_text (get "session_key" fs)
  digest ← as_text (get "accepted_prefix_sha256" fs)
  let s : SessionRef = record { session_key = session_key; accepted_prefix_sha256 = digest }
  raise_if (not (session_valid hex s)) (foreign "InvalidRequestError")
  ok s

-- `_pause_id`
abbrev pub pause_id : JsonValue → Result String
pause_id (str t) = if matches_simple_id (codes t) then ok t else err value_error
pause_id _ = err value_error

abbrev pub positive_round : JsonValue → Result ℕ
positive_round (int (pos (suc n))) = ok (suc n)
positive_round _ = err value_error

abbrev pub pause_role : String → Bool
pause_role t = str_eq t "proposer" || str_eq t "reviewer"

abbrev pub as_flag : JsonValue → Result Bool
as_flag (bool b) = ok b
as_flag _ = err value_error

abbrev pub as_optional_text : JsonValue → Result (Option String)
as_optional_text null = ok none
as_optional_text (str t) = ok (some t)
as_optional_text _ = err value_error

abbrev pub as_reason : Option ResumeReason → Result ResumeReason
as_reason none = err value_error
as_reason (some r) = ok r

abbrev pub pause_fields : List String
pause_fields = "role" ∷ "worker_id" ∷ "round" ∷ "task_id" ∷ "awaiting" ∷ []

abbrev pub pause_awaiting_fields : List String
pause_awaiting_fields =
    "reason" ∷ "resume_key" ∷ "input_required" ∷ "request_ref" ∷ "response_contract" ∷ "details"
    ∷ []

-- `_pause_from_document`
unfoldable pub pause_from_document : JsonValue → Result PauseRecord
pause_from_document v = do
  fs ← as_object v
  raise_if (not (has_shape pause_fields fs)) value_error
  awaiting ← as_object (get "awaiting" fs)
  raise_if (not (has_shape pause_awaiting_fields awaiting)) value_error
  role ← as_text (get "role" fs)
  raise_if (not (pause_role role)) value_error
  worker_id ← pause_id (get "worker_id" fs)
  round_number ← positive_round (get "round" fs)
  task_id ← pause_id (get "task_id" fs)
  reason_text ← as_text (get "reason" awaiting)
  reason ← as_reason (reason_of reason_text)
  resume_key ← pause_id (get "resume_key" awaiting)
  input_required ← as_flag (get "input_required" awaiting)
  response_contract ← as_optional_text (get "response_contract" awaiting)
  details ← as_object (get "details" awaiting)
  request_ref ← decode_optional decode_artifact_ref (get "request_ref" awaiting)
  ok (record {
    role = role;
    worker_id = worker_id;
    round_number = round_number;
    task_id = task_id;
    awaiting = record {
      reason = reason;
      resume_key = resume_key;
      input_required = input_required;
      request_ref = request_ref;
      response_contract = response_contract;
      details = details;
    };
  })

abbrev pub as_array : JsonValue → Result Items
as_array (arr vs) = ok vs
as_array _ = err value_error

abbrev pub termination_from : JsonValue → Result LoopTermination
termination_from v = as_text v >>= termination_of

abbrev pub loop_fields : List String
loop_fields =
    "revision" ∷ "loop_id" ∷ "rounds_completed" ∷ "proposal_refs" ∷ "current_proposer_ids"
    ∷ "review_ref" ∷ "proposer_sessions" ∷ "reviewer_session" ∷ "transcript_refs" ∷ "pauses"
    ∷ "termination" ∷ []

-- `_LoopStateContract.decode`
unfoldable pub decode_loop : HexTexts → Fields → Result LoopState
unfolding session_from_document pause_from_document
decode_loop hex fs = do
  raise_if (not (has_shape loop_fields fs)) value_error
  revision ← as_size (get "revision" fs)
  rounds_completed ← as_size (get "rounds_completed" fs)
  loop_id ← as_text (get "loop_id" fs)
  raw_proposals ← as_object (get "proposal_refs" fs)
  raw_ids ← as_array (get "current_proposer_ids" fs)
  ids ← decode_list as_text raw_ids
  raw_sessions ← as_object (get "proposer_sessions" fs)
  raw_pauses ← as_object (get "pauses" fs)
  raw_transcript ← as_array (get "transcript_refs" fs)
  raw_termination ← as_optional_text (get "termination" fs)
  proposal_refs ← decode_map decode_artifact_ref raw_proposals
  review_ref ← decode_optional decode_artifact_ref (get "review_ref" fs)
  sessions ← decode_map (session_from_document hex) raw_sessions
  reviewer_session ← decode_optional (session_from_document hex) (get "reviewer_session" fs)
  transcript ← decode_list decode_artifact_ref raw_transcript
  pauses ← decode_map pause_from_document raw_pauses
  termination ← decode_optional termination_from (get "termination" fs)
  ok (record {
    revision = revision;
    loop_id = loop_id;
    rounds_completed = rounds_completed;
    proposal_refs = proposal_refs;
    current_proposer_ids = ids;
    review_ref = review_ref;
    proposer_sessions = sessions;
    reviewer_session = reviewer_session;
    transcript_refs = transcript;
    pauses = pauses;
    termination = termination;
  })
