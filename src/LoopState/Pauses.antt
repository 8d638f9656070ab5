-- ===== src/LoopState/Pauses.antt =====
-- The references and the pauses of a loop state, their encoding and their decoding
-- (packages/ac-proposer-reviewer/src/ac_proposer_reviewer/state.py).
use ac_foundation.Errors.{>>=-eq-ok, ok, value_injective}
use ac_foundation.Models.{ArtifactRef}
use ac_foundation.Prelude.{
  Bool, List, Option, String, [], all, leb, none, refl, some, subst, suc, sym, true, zero, ℕ, ◌&&◌,
  ◌∙◌, ◌∷◌, ◌≡◌, ◌≢◌,
}
use ac_foundation.Json.{JsonValue, int, null, pos}
use ac_foundation.LoopState.{PauseRecord}
use ac_foundation.LoopState.Codec.{
  as_optional_text, decode_optional, encode_optional, pause_document, pause_from_document,
  pause_role, positive_round, ref_document, text_json,
}
use ac_foundation.Artifacts.{
  as_text, decode-encode-artifact_ref, decode_artifact_ref, encode_artifact_ref,
}
use ac_foundation.Identity.{codes, matches_simple_id}
use ac_foundation.LoopState.Collections.{
  decode_optional-encode_optional, encode_optional-total, good_optional,
}
use ac_foundation.Snapshot.Codec.{optional_text, ref_json}
use ac_foundation.Snapshot.Codec.RoundTrip.{reason_of-reason_value}
use ac_foundation.LoopState.References.{ref_document-total, ref_valid}

abbrev pub pause_valid : PauseRecord → Bool
pause_valid p =
    pause_role p.role
    && matches_simple_id (codes p.worker_id)
    && leb 1 p.round_number
    && matches_simple_id (codes p.task_id)
    && matches_simple_id (codes p.awaiting.resume_key)
    && good_optional ref_valid p.awaiting.request_ref

abbrev pub always : {A : Type 0} → A → Bool
always a = true

pub all-always : {A : Type 0} (xs : List A) → all always xs ≡ true
all-always [] = refl
all-always (x ∷ xs) = all-always xs

pub good_always : {A : Type 0} (o : Option A) → good_optional always o ≡ true
good_always none = refl
good_always (some a) = refl

pub ref-reads :
    (r : ArtifactRef) (v : JsonValue)
    → always r ≡ true
    → ref_document r ≡ ok v
    → decode_artifact_ref v ≡ ok r
unfolding ref_document
ref-reads r v g h =
    let (fs, p, q) = >>=-eq-ok (encode_artifact_ref r) _ h in
    subst (λ w. decode_artifact_ref w ≡ ok r) (value_injective q) (decode-encode-artifact_ref r p)

pub ref-refuses : (r : ArtifactRef) → decode_artifact_ref null ≢ ok r
unfolding decode_artifact_ref
ref-refuses r h = absurd cc

pub text-reads :
    (t : String) (v : JsonValue) → always t ≡ true → text_json t ≡ ok v → as_text v ≡ ok t
text-reads t v g h = subst (λ w. as_text w ≡ ok t) (value_injective h) refl

pub round_positive : (n : ℕ) → leb 1 n ≡ true → positive_round (int (pos n)) ≡ ok n
round_positive zero h = cc
round_positive (suc n) h = refl

pub optional_text_reads : (t : Option String) → as_optional_text (optional_text t) ≡ ok t
optional_text_reads none = refl
optional_text_reads (some t) = refl

pub ref_json_lem : (r : Option ArtifactRef) → encode_optional ref_document r ≡ ref_json r
unfolding ref_document ref_json
ref_json_lem none = refl
ref_json_lem (some r) = refl

pub request-reads :
    (r : Option ArtifactRef) (v : JsonValue)
    → ref_json r ≡ ok v
    → decode_optional decode_artifact_ref v ≡ ok r
request-reads r v h =
    decode_optional-encode_optional always ref_document decode_artifact_ref ref-reads ref-refuses r
      v (good_always r) (ref_json_lem r ∙ h)

pub pause_tests :
    (a b c d e f : Bool)
    → (a && b && c && d && e && f) ≡ true
    → (a ≡ true) × (b ≡ true) × (c ≡ true) × (d ≡ true) × (e ≡ true) × (f ≡ true)
pause_tests true true true true true true h = (refl, refl, refl, refl, refl, refl)
pause_tests _ _ _ _ _ _ h = cc

pub pause_document-total :
    (p : PauseRecord) → pause_valid p ≡ true → (v : JsonValue) × (pause_document p ≡ ok v)
unfolding pause_document
pause_document-total p g =
    let (_, _, _, _, _, ref) =
      pause_tests (pause_role p.role) (matches_simple_id (codes p.worker_id)) (leb 1 p.round_number)
        (matches_simple_id (codes p.task_id)) (matches_simple_id (codes p.awaiting.resume_key))
        (good_optional ref_valid p.awaiting.request_ref) g in
    let (v, e) =
      encode_optional-total ref_valid ref_document ref_document-total p.awaiting.request_ref ref in
    rw (sym (ref_json_lem p.awaiting.request_ref) ∙ e) (_, refl)

pub pause-reads :
    (p : PauseRecord) (v : JsonValue)
    → pause_valid p ≡ true
    → pause_document p ≡ ok v
    → pause_from_document v ≡ ok p
unfolding pause_document pause_from_document
pause-reads p v g h =
    let (j, e, q) = >>=-eq-ok (ref_json p.awaiting.request_ref) _ h in
    let (role, worker, round, task, key, _) =
      pause_tests (pause_role p.role) (matches_simple_id (codes p.worker_id)) (leb 1 p.round_number)
        (matches_simple_id (codes p.task_id)) (matches_simple_id (codes p.awaiting.resume_key))
        (good_optional ref_valid p.awaiting.request_ref) g in
    subst (λ w. pause_from_document w ≡ ok p) (value_injective q)
      (rw role (
        rw worker (
          rw (round_positive p.round_number round) (
            rw task (
              rw (reason_of-reason_value p.awaiting.reason) (
                rw key (
                  rw (optional_text_reads p.awaiting.response_contract)
                    (rw (request-reads p.awaiting.request_ref j e) refl))))))))
