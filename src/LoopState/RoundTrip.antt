-- ===== src/LoopState/RoundTrip.antt =====
-- The encoding of a loop state and its decoding (packages/ac-proposer-reviewer/src/
-- ac_proposer_reviewer/state.py).
use ac_foundation.Errors.{>>=-eq-ok, ok, value_injective}
use ac_foundation.Models.{ArtifactRef}
use ac_foundation.Json.{Fields, Items, JsonValue, null}
use ac_foundation.LoopState.Codec.{
  HexTexts, as_optional_text, decode_list, decode_loop, decode_map, decode_optional, encode_list,
  encode_loop, encode_map, encode_optional, pause_document, pause_from_document, ref_document,
  session_document, session_from_document, session_valid, termination_from, termination_json,
  text_json,
}
use ac_foundation.Prelude.{List, Option, String, all, none, refl, some, subst, true, ◌≡◌, ◌≢◌}
use ac_foundation.LoopState.{
  LoopState, LoopTermination, PauseRecord, SessionRef, failed_loop, reviewer_stop, round_limit,
  termination_of, termination_value,
}
use ac_foundation.LoopState.Pauses.{
  all-always, always, good_always, pause-reads, pause_document-total, pause_valid, ref-reads,
  ref-refuses, text-reads,
}
use ac_foundation.Artifacts.{as_text, decode_artifact_ref}
use ac_foundation.LoopState.Collections.{
  decode_list-encode_list, decode_map-encode_map, decode_optional-encode_optional,
  encode_list-total, encode_map-total, encode_optional-total, good_optional,
}
use ac_foundation.LoopState.References.{ref_document-total, ref_valid}

-- A state whose references, sessions and pauses pass the tests of the decoder.
pub record IsValid (hex : HexTexts) (s : LoopState) : Type 0 where
  pub proposals : all (λ (item : String × ArtifactRef). ref_valid item.1) s.proposal_refs ≡ true
  pub review : good_optional ref_valid s.review_ref ≡ true
  pub transcript : all ref_valid s.transcript_refs ≡ true
  pub sessions :
      all (λ (item : String × SessionRef). session_valid hex item.1) s.proposer_sessions ≡ true
  pub reviewer : good_optional (session_valid hex) s.reviewer_session ≡ true
  pub paused : all (λ (item : String × PauseRecord). pause_valid item.1) s.pauses ≡ true

session-reads :
    (hex : HexTexts) (s : SessionRef) (v : JsonValue)
    → session_valid hex s ≡ true
    → session_document s ≡ ok v
    → session_from_document hex v ≡ ok s
unfolding session_from_document
session-reads hex s v g h =
    subst (λ w. session_from_document hex w ≡ ok s) (value_injective h) (rw g refl)

session-refuses : (hex : HexTexts) (s : SessionRef) → session_from_document hex null ≢ ok s
unfolding session_from_document
session-refuses hex s h = absurd cc

termination-reads :
    (t : LoopTermination) (v : JsonValue)
    → always t ≡ true
    → termination_json t ≡ ok v
    → termination_from v ≡ ok t
termination-reads t v g h = subst (λ w. termination_from w ≡ ok t) (value_injective h) (known t)
  where
    known : (t : LoopTermination) → termination_of (termination_value t) ≡ ok t
    known reviewer_stop = refl
    known round_limit = refl
    known failed_loop = refl

termination-refuses : (t : LoopTermination) → termination_from null ≢ ok t
termination-refuses t h = cc

refs-read :
    (items : List (String × ArtifactRef)) {fs : Fields}
    → encode_map ref_document items ≡ ok fs
    → decode_map decode_artifact_ref fs ≡ ok items
refs-read items {fs} =
    decode_map-encode_map always ref_document decode_artifact_ref ref-reads items fs
      (all-always items)

ref_list-reads :
    (refs : List ArtifactRef) {vs : Items}
    → encode_list ref_document refs ≡ ok vs
    → decode_list decode_artifact_ref vs ≡ ok refs
ref_list-reads refs {vs} =
    decode_list-encode_list always ref_document decode_artifact_ref ref-reads refs vs
      (all-always refs)

optional_ref-reads :
    (r : Option ArtifactRef) {v : JsonValue}
    → encode_optional ref_document r ≡ ok v
    → decode_optional decode_artifact_ref v ≡ ok r
optional_ref-reads r {v} =
    decode_optional-encode_optional always ref_document decode_artifact_ref ref-reads ref-refuses r
      v (good_always r)

texts-read :
    (ts : List String) {vs : Items}
    → encode_list text_json ts ≡ ok vs
    → decode_list as_text vs ≡ ok ts
texts-read ts {vs} =
    decode_list-encode_list always text_json as_text text-reads ts vs (all-always ts)

termination_opt-reads :
    (t : Option LoopTermination) {v : JsonValue}
    → encode_optional termination_json t ≡ ok v
    → decode_optional termination_from v ≡ ok t
termination_opt-reads t {v} =
    decode_optional-encode_optional always termination_json termination_from termination-reads
      termination-refuses t v (good_always t)

-- The test that the member is a text or null.
termination_text :
    (o : Option LoopTermination) {v : JsonValue}
    → encode_optional termination_json o ≡ ok v
    → (t : Option String) × (as_optional_text v ≡ ok t)
termination_text none h = (none, subst (λ w. as_optional_text w ≡ ok none) (value_injective h) refl)
termination_text (some t) h = (
  some (termination_value t),
  subst (λ w. as_optional_text w ≡ ok (some (termination_value t))) (value_injective h) refl,
)

module _ (hex : HexTexts) where
  sessions-read :
      (items : List (String × SessionRef)) {fs : Fields}
      → all (λ (item : String × SessionRef). session_valid hex item.1) items ≡ true
      → encode_map session_document items ≡ ok fs
      → decode_map (session_from_document hex) fs ≡ ok items
  sessions-read items {fs} =
      decode_map-encode_map (session_valid hex) session_document (session_from_document hex)
        (session-reads hex) items fs

  optional_session-reads :
      (o : Option SessionRef) {v : JsonValue}
      → good_optional (session_valid hex) o ≡ true
      → encode_optional session_document o ≡ ok v
      → decode_optional (session_from_document hex) v ≡ ok o
  optional_session-reads o {v} =
      decode_optional-encode_optional (session_valid hex) session_document
        (session_from_document hex) (session-reads hex) (session-refuses hex) o v

read_back :
    (hex : HexTexts) (s : LoopState) (fs : Fields)
    → IsValid hex s
    → encode_loop s ≡ ok fs
    → decode_loop hex fs ≡ ok s
unfolding encode_loop decode_loop
read_back hex s fs valid h =
    let (proposals, e1, h1) = >>=-eq-ok (encode_map ref_document s.proposal_refs) _ h in
    let (ids, e2, h2) = >>=-eq-ok (encode_list text_json s.current_proposer_ids) _ h1 in
    let (review, e3, h3) = >>=-eq-ok (encode_optional ref_document s.review_ref) _ h2 in
    let (sessions, e4, h4) = >>=-eq-ok (encode_map session_document s.proposer_sessions) _ h3 in
    let (reviewer, e5, h5) = >>=-eq-ok (encode_optional session_document s.reviewer_session) _ h4 in
    let (transcript, e6, h6) = >>=-eq-ok (encode_list ref_document s.transcript_refs) _ h5 in
    let (pauses, e7, h7) = >>=-eq-ok (encode_map pause_document s.pauses) _ h6 in
    let (termination, e8, h8) = >>=-eq-ok (encode_optional termination_json s.termination) _ h7 in
    subst (λ gs. decode_loop hex gs ≡ ok s) (value_injective h8)
      (rw (refs-read s.proposal_refs e1) (
        rw (texts-read s.current_proposer_ids e2) (
          rw (optional_ref-reads s.review_ref e3) (
            rw (sessions-read hex s.proposer_sessions valid.sessions e4) (
              rw (optional_session-reads hex s.reviewer_session valid.reviewer e5) (
                rw (ref_list-reads s.transcript_refs e6) (
                  rw
                    (decode_map-encode_map pause_valid pause_document pause_from_document
                      pause-reads s.pauses pauses valid.paused e7)
                    (rw (termination_text s.termination e8).1
                      (rw (termination_opt-reads s.termination e8) refl)))))))))

encode_loop-total :
    (hex : HexTexts) (s : LoopState) → IsValid hex s → (fs : Fields) × (encode_loop s ≡ ok fs)
unfolding encode_loop
encode_loop-total hex s valid =
    let (_, e1) =
      encode_map-total ref_valid ref_document ref_document-total s.proposal_refs valid.proposals in
    let (_, e2) =
      encode_list-total always text_json (λ t g. (_, refl)) s.current_proposer_ids
        (all-always s.current_proposer_ids) in
    let (_, e3) =
      encode_optional-total ref_valid ref_document ref_document-total s.review_ref valid.review in
    let (_, e4) =
      encode_map-total (session_valid hex) session_document (λ t g. (_, refl)) s.proposer_sessions
        valid.sessions in
    let (_, e5) =
      encode_optional-total (session_valid hex) session_document (λ t g. (_, refl))
        s.reviewer_session valid.reviewer in
    let (_, e6) =
      encode_list-total ref_valid ref_document ref_document-total s.transcript_refs
        valid.transcript in
    let (_, e7) =
      encode_map-total pause_valid pause_document pause_document-total s.pauses valid.paused in
    let (_, e8) =
      encode_optional-total always termination_json (λ t g. (_, refl)) s.termination
        (good_always s.termination) in
    rw e1 (rw e2 (rw e3 (rw e4 (rw e5 (rw e6 (rw e7 (rw e8 (_, refl))))))))

-- A loop state whose references, sessions and pauses pass the decoder's tests is encoded, and its
-- document is decoded to the same state.
pub decode-encode_loop :
    (hex : HexTexts) (s : LoopState)
    → IsValid hex s
    → (fs : Fields) × (encode_loop s ≡ ok fs) × (decode_loop hex fs ≡ ok s)
decode-encode_loop hex s valid =
    let (fs, e) = encode_loop-total hex s valid in (fs, e, read_back hex s fs valid e)
