-- ===== src/Engine/Endings.antt =====
-- How an attempt ends (`try` … `except` … of `RunEngine._run`,
-- packages/ac-jobs/src/ac_jobs/engine.py), by what the handler did.
use ac_foundation.Repository.Directory.{Environment, RunDirectory}
use ac_foundation.Json.{Fields, JsonValue}
use ac_foundation.Engine.Records.{
  MayFollow, swap_ok, failed-MayFollow, stopped-MayFollow, succeeded-MayFollow,
}
use ac_foundation.Errors.{Result, ok, JobsError, base_exception, err, stopped}
use ac_foundation.Engine.{
  RunContext, RunHandler, attempt_body, event_name, finish_attempt, handle_exception, checkpoint,
  error_text, failed_snapshot, outcome_snapshot, succeeded_snapshot, unhandled_error,
  verify_optional,
}
use ac_foundation.Models.{
  RunOutcome, RunSnapshot, running, ArtifactRef, StopRequest, paused, succeeded_with,
}
use ac_foundation.Prelude.{
  [], arith, false, none, ◌++◌, ◌<◌, ◌^◌, ◌∷◌, ◌≡◌, Option, eq_iff, refl, some, true, ◌∙◌, ◌≢◌,
}
use ac_foundation.Storage.{holding}
use ac_foundation.Snapshot.Store.{read}
use ac_foundation.Stopping.{read_stop, raise_if_requested}
use ac_foundation.Repository.{status_body, stopped_snapshot}
use ac_foundation.Snapshot.{is_allowed, validate_run_error}
use ac_foundation.Snapshot.Codec.RoundTrip.{decode-encode}
use ac_foundation.Snapshot.Store.Laws.{read-holding, read-valid}
use ac_foundation.Snapshot.Codec.{ref_json}

-- A handler at work: the RUNNING record of an attempt below 10 ^ 100, without a stop request when the
-- handler starts, and still in the file when the handler is done.
pub record AtWork (env : Environment) (handler : RunHandler) (c : RunContext) (s : RunSnapshot)
    (d e : RunDirectory) (r : Result RunOutcome) : Type 0 where
  pub live : s.status ≡ running
  pub small : s.attempt < 10 ^ 100
  pub unstopped : read_stop (d.stop_files s.attempt) s.attempt ≡ ok none
  pub ran : handler.execute c d ≡ (r, e)
  pub in_file : read e.snapshot_file ≡ ok s

-- The directory after the last event and record of an attempt.
abbrev pub ended : RunDirectory → RunSnapshot → Fields → RunDirectory
ended e v fields = record e {
  snapshot_file = holding fields;
  events = e.events ++ record { name = event_name v.status; body = status_body v } ∷ [];
}

finish_with :
    (env : Environment) (handler : RunHandler) (c : RunContext) (s v : RunSnapshot)
    (d e : RunDirectory) (r : Result RunSnapshot) (f : MayFollow s v)
    → attempt_body env handler c s d ≡ (r, e)
    → handle_exception env s r e ≡ (ok v, e)
    → read e.snapshot_file ≡ ok s
    → finish_attempt env handler c s d ≡ (ok v, ended e v f.fields)
unfolding finish_attempt
finish_with env handler c s v d e r f a h i =
    let g : RunDirectory = record e {
      events = e.events ++ record { name = event_name v.status; body = status_body v } ∷ [];
    } in
    ground (arith, swap_ok s v g f i)

may_pause : (s : RunSnapshot) → s.status ≡ running → is_allowed s.status paused ≡ true
may_pause s h = ground arith

MayFollow-reads : (s v : RunSnapshot) (f : MayFollow s v) → read (holding f.fields) ≡ ok v
MayFollow-reads s v f = read-holding f.fields ∙ decode-encode v f.shape f.encoded

unhandled_valid :
    (env : Environment) (x : JobsError)
    → error_text env x ≢ ""
    → validate_run_error (unhandled_error env x) false ≡ ok tt
unfolding validate_run_error unhandled_error
unhandled_valid env x t = ground (arith, eq_iff (error_text env x) "")

-- The general `except` clause.
handled :
    (env : Environment) (s : RunSnapshot) (x : JobsError) (e : RunDirectory)
    → x ≢ stopped
    → x ≢ base_exception
    → handle_exception env s (err x) e
      ≡ (ok (failed_snapshot s (env.utc_now 3) (unhandled_error env x)), e)
unfolding handle_exception
handled env s stopped e n b = absurd (n refl)
handled env s base_exception e n b = absurd (b refl)
handled env s _ e n b = refl

module _ (env : Environment) (handler : RunHandler) (c : RunContext) (s : RunSnapshot)
    (d e : RunDirectory) where
  body_stopped :
      (o : RunOutcome) (q : StopRequest)
      → AtWork env handler c s d e (ok o)
      → read_stop (e.stop_files s.attempt) s.attempt ≡ ok (some q)
      → attempt_body env handler c s d ≡ (err stopped, e)
  unfolding attempt_body checkpoint raise_if_requested
  body_stopped o q w h = ground arith

  handle_stopped :
      (q : StopRequest)
      → read_stop (e.stop_files s.attempt) s.attempt ≡ ok (some q)
      → handle_exception env s (err stopped) e
        ≡ (ok (stopped_snapshot s (env.utc_now 3) (some q)), e)
  unfolding handle_exception
  handle_stopped q h = ground arith

  -- A stop request wins over whatever outcome the handler returns: if one stands for the attempt
  -- when the handler is done, the run is left paused by the stop, and the record says so.
  pub finish-stopped :
      (o : RunOutcome) (q : StopRequest)
      → AtWork env handler c s d e (ok o)
      → read_stop (e.stop_files s.attempt) s.attempt ≡ ok (some q)
      → let v = stopped_snapshot s (env.utc_now 3) (some q) in
        (fs : Fields) × (finish_attempt env handler c s d ≡ (ok v, ended e v fs))
        × (read (holding fs) ≡ ok v)
  finish-stopped o q w h =
      let v = stopped_snapshot s (env.utc_now 3) (some q) in
      let f =
        stopped-MayFollow s (read-valid e.snapshot_file s w.in_file) (env.utc_now 3) (some q)
          (may_pause s w.live) w.small in
      (
        f.fields,
        finish_with env handler c s v d e (err stopped) f (body_stopped o q w h)
            (handle_stopped q h) w.in_file,
        MayFollow-reads s v f,
      )

  body_succeeded :
      (ref : Option ArtifactRef)
      → AtWork env handler c s d e (ok (succeeded_with ref))
      → read_stop (e.stop_files s.attempt) s.attempt ≡ ok none
      → verify_optional env ref e ≡ (ok tt, e)
      → attempt_body env handler c s d ≡ (ok (succeeded_snapshot s (env.utc_now 3) ref), e)
  unfolding attempt_body checkpoint raise_if_requested outcome_snapshot
  body_succeeded ref w h v = ground arith

  -- Without a stop request a success with a verified result is recorded as it is.
  pub finish-succeeded :
      (ref : Option ArtifactRef) {r : JsonValue}
      → AtWork env handler c s d e (ok (succeeded_with ref))
      → read_stop (e.stop_files s.attempt) s.attempt ≡ ok none
      → verify_optional env ref e ≡ (ok tt, e)
      → ref_json ref ≡ ok r
      → let v = succeeded_snapshot s (env.utc_now 3) ref in
        (fs : Fields) × (finish_attempt env handler c s d ≡ (ok v, ended e v fs))
        × (read (holding fs) ≡ ok v)
  unfolding handle_exception
  finish-succeeded ref w h verified j =
      let v = succeeded_snapshot s (env.utc_now 3) ref in
      let f =
        succeeded-MayFollow s (read-valid e.snapshot_file s w.in_file) w.live (env.utc_now 3) ref
          j in
      (
        f.fields,
        finish_with env handler c s v d e (ok v) f (body_succeeded ref w h verified) refl w.in_file,
        MayFollow-reads s v f,
      )

  body_raised :
      (x : JobsError)
      → AtWork env handler c s d e (err x)
      → attempt_body env handler c s d ≡ (err x, e)
  unfolding attempt_body checkpoint raise_if_requested
  body_raised x w = ground arith

  -- An exception other than a stop fails the attempt, whatever stop requests came while the handler
  -- ran, and the error of the record carries its text, which is not empty.
  pub finish-raised :
      (x : JobsError)
      → AtWork env handler c s d e (err x)
      → x ≢ stopped
      → x ≢ base_exception
      → error_text env x ≢ ""
      → let v = failed_snapshot s (env.utc_now 3) (unhandled_error env x) in
        (fs : Fields) × (finish_attempt env handler c s d ≡ (ok v, ended e v fs))
        × (read (holding fs) ≡ ok v)
  finish-raised x w n b t =
      let v = failed_snapshot s (env.utc_now 3) (unhandled_error env x) in
      let f =
        failed-MayFollow s (read-valid e.snapshot_file s w.in_file) w.live (env.utc_now 3)
          (unhandled_error env x) (unhandled_valid env x t) in
      (
        f.fields,
        finish_with env handler c s v d e (err x) f (body_raised x w) (handled env s x e n b)
            w.in_file,
        MayFollow-reads s v f,
      )

  -- What `except Exception` does not catch is raised on, and the directory stays as the handler left
  -- it, the RUNNING record in it.
  pub finish-killed :
      AtWork env handler c s d e (err base_exception)
      → finish_attempt env handler c s d ≡ (err base_exception, e)
  unfolding finish_attempt handle_exception
  finish-killed w = ground (arith, body_raised base_exception w)
