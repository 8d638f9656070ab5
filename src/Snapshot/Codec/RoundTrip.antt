-- ===== src/Snapshot/Codec/RoundTrip.antt =====
-- The snapshot codec of `_SnapshotStore` (packages/ac-jobs/src/ac_jobs/engine.py) round-trips.
use ac_foundation.Models.{
  ArtifactRef, Awaiting, ResumeReason, RunError, RunSnapshot, RunStatus, reason_of, reason_value,
  status_of, status_value, paused,
}
use ac_foundation.Json.{JsonValue, Fields}
use ac_foundation.Prelude.{Option, String, arith, false, inl, inr, none, refl, some, true, ◌≡◌}
use ac_foundation.Errors.{Result-cases, ok}
use ac_foundation.Snapshot.Codec.{
  awaiting_json, decode_awaiting, decode_error, decode_ref, error_json, nullable_text, ref_json,
  decode, encode, optional_text,
}
use ac_foundation.Artifacts.{decode-encode-artifact_ref, encode_artifact_ref}
use ac_foundation.Snapshot.{
  validate, validate_awaiting, validate_run_error, validate_shape, awaiting_slot,
}

pub decode-ref_json :
    (r : Option ArtifactRef) {j : JsonValue} → ref_json r ≡ ok j → decode_ref j ≡ ok r
unfolding ref_json decode_ref
decode-ref_json none h = ground arith
decode-ref_json (some r) h = elim (Result-cases (encode_artifact_ref r)) [
  | inl (fs, e) ↦ ground (arith, decode-encode-artifact_ref r e)
  | inr (x, e) ↦ ground arith
]

status_of-status_value : (s : RunStatus) → status_of (status_value s) ≡ some s
status_of-status_value RunStatus.pending = refl
status_of-status_value _ = refl

pub reason_of-reason_value : (r : ResumeReason) → reason_of (reason_value r) ≡ some r
reason_of-reason_value ResumeReason.interaction_required = refl
reason_of-reason_value _ = refl

pub nullable_text-optional_text : (t : Option String) → nullable_text (optional_text t) ≡ ok t
nullable_text-optional_text none = refl
nullable_text-optional_text (some t) = refl

decode-awaiting_json :
    (a : Awaiting) {j : JsonValue}
    → validate_awaiting a ≡ ok tt
    → awaiting_json (some a) ≡ ok j
    → decode_awaiting j ≡ ok (some a)
unfolding awaiting_json decode_awaiting
decode-awaiting_json a v h = elim (Result-cases (ref_json a.request_ref)) [
  | inl (r, e) ↦ ground (
    arith,
    decode-ref_json a.request_ref e,
    reason_of-reason_value a.reason,
    nullable_text-optional_text a.response_contract,
  )
  | inr (x, e) ↦ ground arith
]

decode-error_json :
    (e : Option RunError) {j : JsonValue} → error_json e ≡ ok j → decode_error j ≡ ok e
unfolding error_json decode_error
decode-error_json none h = ground arith
decode-error_json (some e) h = ground arith

-- A record that may be written may be read.
validate-reading : (s : RunSnapshot) → validate_shape s false ≡ ok tt → validate none s true ≡ ok tt
unfolding validate validate_shape validate_run_error
validate-reading s h = ground arith

decode-awaiting_slot :
    (st : RunStatus) (a : Option Awaiting) {j : JsonValue}
    → awaiting_slot st a ≡ ok tt
    → awaiting_json a ≡ ok j
    → decode_awaiting j ≡ ok a
unfolding awaiting_slot
decode-awaiting_slot st none v h = unfold awaiting_json decode_awaiting in ground arith
decode-awaiting_slot paused (some a) v h = decode-awaiting_json a v h
decode-awaiting_slot _ (some a) v h = cc

-- The awaiting member of a record that passed `validate_shape`.
shape-awaiting_slot :
    (s : RunSnapshot) → validate_shape s false ≡ ok tt → awaiting_slot s.status s.awaiting ≡ ok tt
unfolding validate_shape
shape-awaiting_slot s h = ground arith

-- Reading back a validated record that was encoded returns that record.
pub decode-encode :
    (s : RunSnapshot) {document : Fields}
    → validate_shape s false ≡ ok tt
    → encode s ≡ ok document
    → decode document ≡ ok s
unfolding encode decode
decode-encode s v h = elim (Result-cases (awaiting_json s.awaiting)) [
  | inl (a, ea) ↦ elim (Result-cases (ref_json s.result_ref)) [
    | inl (r, er) ↦ elim (Result-cases (error_json s.error)) [
      | inl (e, ee) ↦ ground (
        arith,
        decode-awaiting_slot s.status s.awaiting (shape-awaiting_slot s v) ea,
        decode-ref_json s.result_ref er,
        decode-error_json s.error ee,
        status_of-status_value s.status,
        validate-reading s v,
      )
      | inr (x, ee) ↦ ground arith
    ]
    | inr (x, er) ↦ ground arith
  ]
  | inr (x, ea) ↦ ground arith
]
