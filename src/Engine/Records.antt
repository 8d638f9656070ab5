-- ===== src/Engine/Records.antt =====
-- The records that `RunEngine._run` and `request_stop` of packages/ac-jobs/src/ac_jobs/engine.py
-- build pass the validation of `_SnapshotStore`, so their compare-and-swap goes through.
use ac_foundation.Json.{Fields, JsonValue, null, obj}
use ac_foundation.Errors.{Result-cases, ok}
use ac_foundation.Repository.Directory.{RunDirectory, swap, store_swapped}
use ac_foundation.Models.{
  RunSnapshot, failed, paused, running, succeeded, ArtifactRef, Awaiting, RunError, StopRequest,
}
use ac_foundation.Prelude.{
  String, ap, arith, eq_refl, false, inl, inr, none, refl, suc, true, ◌≡◌, ◌≢◌, Option, ◌<◌, ◌^◌,
  some,
}
use ac_foundation.Snapshot.Codec.{
  awaiting_json, encode, error_json, ref_json, snapshot_document, awaiting_document,
}
use ac_foundation.Snapshot.Store.Laws.{compare_and_swap-total}
use ac_foundation.Storage.{holding}
use ac_foundation.Snapshot.{
  is_allowed, validate_shape, validate_step, validate_awaiting, validate_run_error,
}
use ac_foundation.Snapshot.Store.{read}
use ac_foundation.Engine.{running_snapshot, failed_snapshot, succeeded_snapshot}
use ac_foundation.Identity.{validate_simple_id}
use ac_foundation.Text.Keys.{stopped_key_ok}
use ac_foundation.Repository.{stopped_snapshot, stop_awaiting}

-- `v` may follow `s` in snapshot.json.
pub record MayFollow (s v : RunSnapshot) : Type 0 where
  pub revision : v.revision ≡ suc s.revision
  pub shape : validate_shape v false ≡ ok tt
  pub step : validate_step s v ≡ ok tt
  pub fields : Fields
  pub encoded : encode v ≡ ok fields

-- A compare-and-swap with a record that may follow.
pub swap_ok :
    (s v : RunSnapshot) (d : RunDirectory) (f : MayFollow s v)
    → read d.snapshot_file ≡ ok s
    → swap s.revision v d ≡ (ok v, record d { snapshot_file = holding f.fields })
unfolding swap
swap_ok s v d f e =
    ap (λ r. store_swapped r d)
      (compare_and_swap-total d.snapshot_file s.revision v s e refl f.revision f.shape f.step
        f.encoded)

encode_parts :
    (v : RunSnapshot) {j r k : JsonValue}
    → awaiting_json v.awaiting ≡ ok j
    → ref_json v.result_ref ≡ ok r
    → error_json v.error ≡ ok k
    → encode v ≡ ok (snapshot_document v j r k)
unfolding encode
encode_parts v a r e = ground arith

ref_json-none : {o : Option ArtifactRef} → o ≡ none → ref_json o ≡ ok null
unfolding ref_json
ref_json-none e = ground arith

error_json-none : {o : Option RunError} → o ≡ none → error_json o ≡ ok null
unfolding error_json
error_json-none e = ground arith

awaiting_json-some :
    (a : Awaiting) {r : JsonValue}
    → ref_json a.request_ref ≡ ok r
    → awaiting_json (some a) ≡ ok (obj (awaiting_document a r))
unfolding awaiting_json
awaiting_json-some a e = ground arith

awaiting_json-none : {o : Option Awaiting} → o ≡ none → awaiting_json o ≡ ok null
unfolding awaiting_json
awaiting_json-none e = ground arith

-- What the validation says of a record by its status.
pub record Plain (s : RunSnapshot) : Type 0 where
  pub id : (r : String) × (validate_simple_id s.run_id ≡ ok r)
  pub no_result : s.status ≢ succeeded → s.result_ref ≡ none
  pub no_error : s.status ≢ failed → s.error ≡ none
  pub no_awaiting : s.status ≢ paused → s.awaiting ≡ none

pub shape-Plain : (s : RunSnapshot) → validate_shape s false ≡ ok tt → Plain s
unfolding validate_shape
shape-Plain s h = record {
  id = elim (Result-cases (validate_simple_id s.run_id)) [
    | inl (r, e) ↦ (r, e)
    | inr (x, e) ↦ absurd (ground arith)
  ];
  no_result = λ n. ground arith;
  no_error = λ n. ground arith;
  no_awaiting = λ n. ground arith;
}

module _ (s : RunSnapshot) (valid : validate_shape s false ≡ ok tt) where
  running_shape : (now : String) → validate_shape (running_snapshot s now) false ≡ ok tt
  unfolding validate_shape running_snapshot
  running_shape now = let p = shape-Plain s valid in ground (arith, p.id.1)

  -- The record of a new attempt.
  pub running-MayFollow :
      (now : String) → is_allowed s.status running ≡ true → MayFollow s (running_snapshot s now)
  unfolding running_snapshot
  running-MayFollow now a = record {
    revision = omega arith;
    shape = running_shape now;
    step = unfold validate_step in ground (arith, eq_refl s.run_id, eq_refl s.created_at);
    fields = snapshot_document (running_snapshot s now) null null null;
    encoded = encode_parts _ (awaiting_json-none refl) (ref_json-none refl) (error_json-none refl);
  }

  -- The record of a stop, over a run that has not ended and is not paused.
  stopped_shape :
      (now : String) (request : Option StopRequest)
      → is_allowed s.status paused ≡ true
      → s.attempt < 10 ^ 100
      → validate_shape (stopped_snapshot s now request) false ≡ ok tt
  unfolding validate_shape stopped_snapshot validate_awaiting
  stopped_shape now request a b =
      let p = shape-Plain s valid in ground (arith, p.id.1, stopped_key_ok s.attempt b)

  pub stopped-MayFollow :
      (now : String) (request : Option StopRequest)
      → is_allowed s.status paused ≡ true
      → s.attempt < 10 ^ 100
      → MayFollow s (stopped_snapshot s now request)
  unfolding stopped_snapshot
  stopped-MayFollow now request a b =
      let p = shape-Plain s valid in
      record {
        revision = omega arith;
        shape = stopped_shape now request a b;
        step = unfold validate_step in ground (arith, eq_refl s.run_id, eq_refl s.created_at);
        fields =
            snapshot_document (stopped_snapshot s now request)
              (obj (awaiting_document (stop_awaiting s request) null)) null null;
        encoded =
            encode_parts _ (awaiting_json-some (stop_awaiting s request) (ref_json-none refl))
              (ref_json-none (ground arith)) (error_json-none (ground arith));
      }

-- What holds of the RUNNING record while the handler works.
module _ (s : RunSnapshot) (valid : validate_shape s false ≡ ok tt)
    (live : s.status ≡ running) where
  succeeded_shape :
      (now : String) (ref : Option ArtifactRef)
      → validate_shape (succeeded_snapshot s now ref) false ≡ ok tt
  unfolding validate_shape succeeded_snapshot
  succeeded_shape now ref = let p = shape-Plain s valid in ground (arith, p.id.1)

  pub succeeded-MayFollow :
      (now : String) (ref : Option ArtifactRef) {r : JsonValue}
      → ref_json ref ≡ ok r
      → MayFollow s (succeeded_snapshot s now ref)
  unfolding succeeded_snapshot
  succeeded-MayFollow now ref {r} e =
      let p = shape-Plain s valid in
      record {
        revision = omega arith;
        shape = succeeded_shape now ref;
        step = unfold validate_step in ground (arith, eq_refl s.run_id, eq_refl s.created_at);
        fields = snapshot_document (succeeded_snapshot s now ref) null r null;
        encoded =
            encode_parts _ (awaiting_json-none (ground arith)) e (error_json-none (ground arith));
      }

  failed_shape :
      (now : String) (error : RunError)
      → validate_run_error error false ≡ ok tt
      → validate_shape (failed_snapshot s now error) false ≡ ok tt
  unfolding validate_shape failed_snapshot
  failed_shape now error e = let p = shape-Plain s valid in ground (arith, p.id.1)

  error_json-some :
      (error : RunError)
      → validate_run_error error false ≡ ok tt
      → (j : JsonValue) × (error_json (some error) ≡ ok j)
  unfolding error_json validate_run_error
  error_json-some error e = elim (Result-cases (error_json (some error))) [
    | inl (j, h) ↦ (j, h)
    | inr (x, h) ↦ absurd (ground arith)
  ]

  pub failed-MayFollow :
      (now : String) (error : RunError)
      → validate_run_error error false ≡ ok tt
      → MayFollow s (failed_snapshot s now error)
  unfolding failed_snapshot
  failed-MayFollow now error e =
      let p = shape-Plain s valid in
      let (j, h) = error_json-some error e in
      record {
        revision = omega arith;
        shape = failed_shape now error e;
        step = unfold validate_step in ground (arith, eq_refl s.run_id, eq_refl s.created_at);
        fields = snapshot_document (failed_snapshot s now error) null null j;
        encoded =
            encode_parts _ (awaiting_json-none (ground arith)) (ref_json-none (ground arith)) h;
      }
