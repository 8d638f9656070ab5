-- ===== src/LoopState/Decoding.antt =====
-- Loop states that were decoded, and their encoding (packages/ac-proposer-reviewer/src/
-- ac_proposer_reviewer/state.py).
use ac_foundation.Errors.{
  >>=-cases, foreign, ok, passed_test, raise_if, raise_if-ok, value_error, value_injective,
}
use ac_foundation.Prelude.{Bool, String, [], false, leb, not, refl, subst, true, ◌&&◌, ◌∷◌, ◌≡◌}
use ac_foundation.Json.{Fields, JsonValue, arr, bool, float, get, int, null, obj, str}
use ac_foundation.LoopState.Codec.{
  HexTexts, as_array, as_flag, as_optional_text, as_reason, decode_list, decode_loop, decode_map,
  decode_optional, encode_loop, loop_fields, pause_awaiting_fields, pause_fields,
  pause_from_document, pause_id, pause_role, positive_round, session_from_document, session_valid,
  termination_from,
}
use ac_foundation.LoopState.RoundTrip.{IsValid, decode-encode_loop}
use ac_foundation.LoopState.{LoopState, PauseRecord, SessionRef}
use ac_foundation.Artifacts.{as_object, as_size, as_text, decode_artifact_ref, has_shape}
use ac_foundation.Identity.{codes, matches_simple_id}
use ac_foundation.LoopState.References.{decode_artifact_ref-valid, ref_valid}
use ac_foundation.LoopState.Collections.{
  decode_list-good, decode_map-good, decode_optional-good, good_optional, positive_round-positive,
}
use ac_foundation.LoopState.Pauses.{pause_valid}
use ac_foundation.Models.{reason_of}

not_refused : (b : Bool) → not b ≡ false → b ≡ true
not_refused true h = refl
not_refused false h = cc

session_from_document-valid :
    (hex : HexTexts) (v : JsonValue) (s : SessionRef)
    → session_from_document hex v ≡ ok s
    → session_valid hex s ≡ true
unfolding session_from_document
session_from_document-valid hex v s h = >>=-cases (as_object v) _ h (λ fs _ h1.
    >>=-cases
      (raise_if (not (has_shape ("session_key" ∷ "accepted_prefix_sha256" ∷ []) fs)) value_error) _
      h1
      (λ _ _ h2. >>=-cases (as_text (get "session_key" fs)) _ h2 (λ key _ h3.
        >>=-cases (as_text (get "accepted_prefix_sha256" fs)) _ h3 (λ digest _ h4.
          let made : SessionRef = record { session_key = key; accepted_prefix_sha256 = digest } in
          >>=-cases (raise_if (not (session_valid hex made)) (foreign "InvalidRequestError")) _ h4
            (λ _ e h5.
              subst (λ r. session_valid hex r ≡ true) (value_injective h5)
                (not_refused (session_valid hex made)
                  (raise_if-ok _ (foreign "InvalidRequestError") e)))))))

pause_id-matches :
    (v : JsonValue) (t : String) → pause_id v ≡ ok t → matches_simple_id (codes t) ≡ true
pause_id-matches (str s) t h = passed_test (λ u. matches_simple_id (codes u)) s t value_error h
pause_id-matches (arr vs) t h = cc
pause_id-matches (obj fs) t h = cc
pause_id-matches null t h = cc
pause_id-matches (bool b) t h = cc
pause_id-matches (int z) t h = cc
pause_id-matches (float x) t h = cc

all_tests :
    (a b c d e f : Bool)
    → a ≡ true
    → b ≡ true
    → c ≡ true
    → d ≡ true
    → e ≡ true
    → f ≡ true
    → (a && b && c && d && e && f) ≡ true
all_tests a b c d e f ha hb hc hd he hf = rw ha (rw hb (rw hc (rw hd (rw he hf))))

pause_from_document-valid :
    (v : JsonValue) (p : PauseRecord) → pause_from_document v ≡ ok p → pause_valid p ≡ true
unfolding pause_from_document
pause_from_document-valid v p h = >>=-cases (as_object v) _ h (λ fs _ h1.
    >>=-cases (raise_if (not (has_shape pause_fields fs)) value_error) _ h1 (λ _ _ h2.
      >>=-cases (as_object (get "awaiting" fs)) _ h2 (λ aw _ h3.
        >>=-cases (raise_if (not (has_shape pause_awaiting_fields aw)) value_error) _ h3 (λ _ _ h4.
          >>=-cases (as_text (get "role" fs)) _ h4 (λ role _ h5.
            >>=-cases (raise_if (not (pause_role role)) value_error) _ h5 (λ _ e1 h6.
              >>=-cases (pause_id (get "worker_id" fs)) _ h6 (λ worker e2 h7.
                >>=-cases (positive_round (get "round" fs)) _ h7 (λ round e3 h8.
                  >>=-cases (pause_id (get "task_id" fs)) _ h8 (λ task e4 h9.
                    >>=-cases (as_text (get "reason" aw)) _ h9 (λ text _ h10.
                      >>=-cases (as_reason (reason_of text)) _ h10 (λ reason _ h11.
                        >>=-cases (pause_id (get "resume_key" aw)) _ h11 (λ key e5 h12.
                          >>=-cases (as_flag (get "input_required" aw)) _ h12 (λ needed _ h13.
                            >>=-cases (as_optional_text (get "response_contract" aw)) _ h13
                              (λ contract _ h14.
                                >>=-cases (as_object (get "details" aw)) _ h14 (λ details _ h15.
                                  >>=-cases
                                    (decode_optional decode_artifact_ref (get "request_ref" aw)) _
                                    h15
                                    (λ ref e6 h16.
                                      subst (λ q. pause_valid q ≡ true) (value_injective h16)
                                        (all_tests (pause_role role)
                                          (matches_simple_id (codes worker)) (leb 1 round)
                                          (matches_simple_id (codes task))
                                          (matches_simple_id (codes key))
                                          (good_optional ref_valid ref)
                                          (not_refused (pause_role role)
                                            (raise_if-ok _ value_error e1))
                                          (pause_id-matches (get "worker_id" fs) worker e2)
                                          (positive_round-positive (get "round" fs) round e3)
                                          (pause_id-matches (get "task_id" fs) task e4)
                                          (pause_id-matches (get "resume_key" aw) key e5)
                                          (decode_optional-good ref_valid decode_artifact_ref
                                            decode_artifact_ref-valid (get "request_ref" aw) ref
                                            e6))))))))))))))))))

-- Every loop state that is decoded is valid.
pub decode_loop-IsValid :
    (hex : HexTexts) (fs : Fields) (s : LoopState) → decode_loop hex fs ≡ ok s → IsValid hex s
unfolding decode_loop
decode_loop-IsValid hex fs s h =
    >>=-cases (raise_if (not (has_shape loop_fields fs)) value_error) _ h (λ _ _ h0.
      >>=-cases (as_size (get "revision" fs)) _ h0 (λ revision _ h1.
        >>=-cases (as_size (get "rounds_completed" fs)) _ h1 (λ rounds _ h2.
          >>=-cases (as_text (get "loop_id" fs)) _ h2 (λ id _ h3.
            >>=-cases (as_object (get "proposal_refs" fs)) _ h3 (λ raw_proposals _ h4.
              >>=-cases (as_array (get "current_proposer_ids" fs)) _ h4 (λ raw_ids _ h5.
                >>=-cases (decode_list as_text raw_ids) _ h5 (λ ids _ h6.
                  >>=-cases (as_object (get "proposer_sessions" fs)) _ h6 (λ raw_sessions _ h7.
                    >>=-cases (as_object (get "pauses" fs)) _ h7 (λ raw_pauses _ h8.
                      >>=-cases (as_array (get "transcript_refs" fs)) _ h8 (λ raw_transcript _ h9.
                        >>=-cases (as_optional_text (get "termination" fs)) _ h9 (λ raw_end _ h10.
                          >>=-cases (decode_map decode_artifact_ref raw_proposals) _ h10
                            (λ refs f1 h11.
                              >>=-cases (decode_optional decode_artifact_ref (get "review_ref" fs))
                                _ h11
                                (λ review f2 h12.
                                  >>=-cases (decode_map (session_from_document hex) raw_sessions) _
                                    h12
                                    (λ sessions e1 h13.
                                      >>=-cases
                                        (decode_optional (session_from_document hex)
                                          (get "reviewer_session" fs))
                                        _ h13
                                        (λ reviewer e2 h14.
                                          >>=-cases (decode_list decode_artifact_ref raw_transcript)
                                            _ h14
                                            (λ turns f3 h15.
                                              >>=-cases (decode_map pause_from_document raw_pauses)
                                                _ h15
                                                (λ pauses e3 h16.
                                                  >>=-cases
                                                    (decode_optional termination_from
                                                      (get "termination" fs))
                                                    _ h16
                                                    (λ ended _ h17.
                                                      subst (λ r. IsValid hex r)
                                                        (value_injective h17)
                                                        (record {
                                                          proposals =
                                                            decode_map-good ref_valid
                                                            decode_artifact_ref
                                                            decode_artifact_ref-valid raw_proposals
                                                            refs f1;
                                                          review =
                                                            decode_optional-good ref_valid
                                                            decode_artifact_ref
                                                            decode_artifact_ref-valid
                                                            (get "review_ref" fs) review f2;
                                                          transcript =
                                                            decode_list-good ref_valid
                                                            decode_artifact_ref
                                                            decode_artifact_ref-valid raw_transcript
                                                            turns f3;
                                                          sessions =
                                                            decode_map-good (session_valid hex)
                                                            (session_from_document hex)
                                                            (session_from_document-valid hex)
                                                            raw_sessions sessions e1;
                                                          reviewer =
                                                            decode_optional-good (session_valid hex)
                                                            (session_from_document hex)
                                                            (session_from_document-valid hex)
                                                            (get "reviewer_session" fs) reviewer e2;
                                                          paused =
                                                            decode_map-good pause_valid
                                                            pause_from_document
                                                            pause_from_document-valid raw_pauses
                                                            pauses e3;
                                                        })))))))))))))))))))

-- A loop state that was decoded can be encoded, and its document is decoded to the same state.
pub reencode_loop :
    (hex : HexTexts) (fs : Fields) (s : LoopState)
    → decode_loop hex fs ≡ ok s
    → (gs : Fields) × (encode_loop s ≡ ok gs) × (decode_loop hex gs ≡ ok s)
reencode_loop hex fs s h = decode-encode_loop hex s (decode_loop-IsValid hex fs s h)
