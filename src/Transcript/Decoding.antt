-- ===== src/Transcript/Decoding.antt =====
-- What `decode_transcript_turn` of packages/ac-proposer-reviewer/src/ac_proposer_reviewer/dialogue.py
-- accepts.
use ac_foundation.Errors.{
  >>=-cases, >>=-eq-ok, ok, passed_test, raise_if, value_error, value_injective,
}
use ac_foundation.Prelude.{Bool, String, all, leb, not, refl, subst, true, ◌&&◌, ◌≡◌}
use ac_foundation.Json.{Fields, JsonValue, arr, bool, float, get, int, null, obj, str}
use ac_foundation.Transcript.{
  TranscriptTurn, decode_transcript_turn, encode_transcript_turn, filled_text, is_filled,
  other_schema, turn_fields, turn_role,
}
use ac_foundation.LoopState.Codec.{
  as_array, decode_list, encode_list, pause_role, positive_round, ref_document, text_json,
}
use ac_foundation.Artifacts.{as_object, decode_artifact_ref, has_shape}
use ac_foundation.LoopState.References.{decode_artifact_ref-valid, ref_document-total, ref_valid}
use ac_foundation.LoopState.Collections.{
  decode_list-encode_list, decode_list-good, encode_list-total, positive_round-positive,
}
use ac_foundation.LoopState.Pauses.{ref-reads, round_positive}

-- A turn with the ids, the role, the round and the digest that the decoder asks for.
abbrev pub turn_valid : TranscriptTurn → Bool
turn_valid t =
    pause_role t.role
    && is_filled t.worker_id
    && leb 1 t.round_number
    && all is_filled t.addressed_worker_ids
    && ref_valid t.content_ref

filled-reads :
    (t : String) (v : JsonValue) → is_filled t ≡ true → text_json t ≡ ok v → filled_text v ≡ ok t
filled-reads t v g h = subst (λ w. filled_text w ≡ ok t) (value_injective h) (rw g refl)

turn_tests :
    (a b c d e : Bool)
    → (a && b && c && d && e) ≡ true
    → (a ≡ true) × (b ≡ true) × (c ≡ true) × (d ≡ true) × (e ≡ true)
turn_tests true true true true true h = (refl, refl, refl, refl, refl)
turn_tests _ _ _ _ _ h = cc

turn_read_back :
    (t : TranscriptTurn) (fs : Fields)
    → turn_valid t ≡ true
    → encode_transcript_turn t ≡ ok fs
    → decode_transcript_turn (obj fs) ≡ ok t
unfolding encode_transcript_turn decode_transcript_turn
turn_read_back t fs g h =
    let (r, e1, h1) = >>=-eq-ok (ref_document t.content_ref) _ h in
    let (ids, e2, h2) = >>=-eq-ok (encode_list text_json t.addressed_worker_ids) _ h1 in
    let (role, worker, round, addressed, _) =
      turn_tests (pause_role t.role) (is_filled t.worker_id) (leb 1 t.round_number)
        (all is_filled t.addressed_worker_ids) (ref_valid t.content_ref) g in
    subst (λ gs. decode_transcript_turn (obj gs) ≡ ok t) (value_injective h2)
      (rw role (
        rw worker (
          rw (round_positive t.round_number round) (
            rw
              (decode_list-encode_list is_filled text_json filled_text filled-reads
                t.addressed_worker_ids ids addressed e2)
              (rw (ref-reads t.content_ref r refl e1) refl)))))

encode_transcript_turn-total :
    (t : TranscriptTurn) → turn_valid t ≡ true → (fs : Fields) × (encode_transcript_turn t ≡ ok fs)
unfolding encode_transcript_turn
encode_transcript_turn-total t g =
    let (_, _, _, addressed, ref) =
      turn_tests (pause_role t.role) (is_filled t.worker_id) (leb 1 t.round_number)
        (all is_filled t.addressed_worker_ids) (ref_valid t.content_ref) g in
    let (_, e1) = ref_document-total t.content_ref ref in
    let (_, e2) =
      encode_list-total is_filled text_json (λ u h. (_, refl)) t.addressed_worker_ids addressed in
    rw e1 (rw e2 (_, refl))

-- A valid turn is encoded, and its document is decoded to the same turn.
pub decode-encode_transcript_turn :
    (t : TranscriptTurn)
    → turn_valid t ≡ true
    → (fs : Fields) × (encode_transcript_turn t ≡ ok fs) × (decode_transcript_turn (obj fs) ≡ ok t)
decode-encode_transcript_turn t g =
    let (fs, e) = encode_transcript_turn-total t g in (fs, e, turn_read_back t fs g e)

role_of : (v : JsonValue) (t : String) → turn_role v ≡ ok t → pause_role t ≡ true
role_of (str s) t h = passed_test pause_role s t value_error h
role_of (arr vs) t h = cc
role_of (obj fs) t h = cc
role_of null t h = cc
role_of (bool b) t h = cc
role_of (int z) t h = cc
role_of (float x) t h = cc

text_of : (v : JsonValue) (t : String) → filled_text v ≡ ok t → is_filled t ≡ true
text_of (str s) t h = passed_test is_filled s t value_error h
text_of (arr vs) t h = cc
text_of (obj fs) t h = cc
text_of null t h = cc
text_of (bool b) t h = cc
text_of (int z) t h = cc
text_of (float x) t h = cc

all_tests :
    (a b c d e : Bool)
    → a ≡ true
    → b ≡ true
    → c ≡ true
    → d ≡ true
    → e ≡ true
    → (a && b && c && d && e) ≡ true
all_tests a b c d e ha hb hc hd he = rw ha (rw hb (rw hc (rw hd he)))

-- Every turn that is decoded is valid.
pub decode_transcript_turn-valid :
    (v : JsonValue) (t : TranscriptTurn) → decode_transcript_turn v ≡ ok t → turn_valid t ≡ true
unfolding decode_transcript_turn
decode_transcript_turn-valid v t h = >>=-cases (as_object v) _ h (λ fs _ h1.
    >>=-cases (raise_if (not (has_shape turn_fields fs)) value_error) _ h1 (λ _ _ h2.
      >>=-cases (raise_if (other_schema (get "schema_version" fs)) value_error) _ h2 (λ _ _ h3.
        >>=-cases (turn_role (get "role" fs)) _ h3 (λ role e1 h4.
          >>=-cases (filled_text (get "worker_id" fs)) _ h4 (λ worker e2 h5.
            >>=-cases (positive_round (get "round" fs)) _ h5 (λ round e3 h6.
              >>=-cases (as_array (get "addressed_worker_ids" fs)) _ h6 (λ raw _ h7.
                >>=-cases (decode_list filled_text raw) _ h7 (λ ids e4 h8.
                  >>=-cases (decode_artifact_ref (get "content_ref" fs)) _ h8 (λ ref e5 h9.
                    subst (λ u. turn_valid u ≡ true) (value_injective h9)
                      (all_tests (pause_role role) (is_filled worker) (leb 1 round)
                        (all is_filled ids) (ref_valid ref) (role_of (get "role" fs) role e1)
                        (text_of (get "worker_id" fs) worker e2)
                        (positive_round-positive (get "round" fs) round e3)
                        (decode_list-good is_filled filled_text text_of raw ids e4)
                        (decode_artifact_ref-valid (get "content_ref" fs) ref e5)))))))))))

-- A turn that was decoded can be encoded, and its document is decoded to the same turn.
pub reencode_transcript_turn :
    (v : JsonValue) (t : TranscriptTurn)
    → decode_transcript_turn v ≡ ok t
    → (fs : Fields) × (encode_transcript_turn t ≡ ok fs) × (decode_transcript_turn (obj fs) ≡ ok t)
reencode_transcript_turn v t h =
    decode-encode_transcript_turn t (decode_transcript_turn-valid v t h)
