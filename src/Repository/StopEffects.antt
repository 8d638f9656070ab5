-- ===== src/Repository/StopEffects.antt =====
-- What a stop request leaves behind (`RunRepository.request_stop` of
-- packages/ac-jobs/src/ac_jobs/engine.py).
use ac_foundation.Repository.Directory.{Environment, Event, RunDirectory, update_stop}
use ac_foundation.Storage.{JsonFile}
use ac_foundation.Prelude.{
  List, Option, String, [], arith, false, none, some, true, ℕ, ◌++◌, ◌∷◌, ◌≡◌, ◌⊎◌,
}
use ac_foundation.Models.{RunSnapshot, StopRequest, is_terminal, paused, running}
use ac_foundation.Repository.{announce, inspect, persist, read_snapshot, request_stop, stop_details}
use ac_foundation.Stopping.Laws.{first_request_stands}
use ac_foundation.Errors.{ok}
use ac_foundation.Snapshot.Store.{read}
use ac_foundation.Stopping.{read_stop, request_stop_file}

-- The request is in the file of the attempt.
pub record IsStopped (d : RunDirectory) (attempt : ℕ) (q : StopRequest) : Type 0 where
  pub on_file : read_stop (d.stop_files attempt) attempt ≡ ok (some q)

inspect-live :
    (d : RunDirectory) (s : RunSnapshot) (q : StopRequest)
    → read d.snapshot_file ≡ ok s
    → is_terminal s.status ≡ false
    → IsStopped d s.attempt q
    → inspect d ≡ (ok (record { snapshot = s; stop_request = some q }), d)
unfolding inspect
inspect-live d s q e t h = ground (arith, h.on_file)

inspect-terminal :
    (d : RunDirectory) (s : RunSnapshot)
    → read d.snapshot_file ≡ ok s
    → is_terminal s.status ≡ true
    → inspect d ≡ (ok (record { snapshot = s; stop_request = none }), d)
unfolding inspect
inspect-terminal d s e t = ground arith

-- The log after `persist`: the first request of a live attempt is announced.
abbrev stop_logged : RunDirectory → RunSnapshot → Option StopRequest → StopRequest → List Event
stop_logged d s none q =
    d.events ++ record { name = "attempt_stop_requested"; body = stop_details s (some q) } ∷ []
stop_logged d s (some _) q = d.events

abbrev pub stop_noted :
    RunDirectory → RunSnapshot → JsonFile → Option StopRequest → StopRequest → RunDirectory
stop_noted d s file existing q = record d {
  stop_files = update_stop d.stop_files s.attempt file;
  events = stop_logged d s existing q;
}

persist_lem :
    (env : Environment) (reason : Option String) (d : RunDirectory) (s : RunSnapshot)
    (existing : Option StopRequest) (file : JsonFile) (q : StopRequest)
    → read d.snapshot_file ≡ ok s
    → is_terminal s.status ≡ false
    → read_stop (d.stop_files s.attempt) s.attempt ≡ ok existing
    → request_stop_file (d.stop_files s.attempt) s.attempt (env.utc_now 0) reason ≡ ok (file, q)
    → persist env reason s d ≡ (ok q, stop_noted d s file existing q)
unfolding persist announce
persist_lem env reason d s none file q e t r h = ground arith
persist_lem env reason d s (some x) file q e t r h = ground arith

-- After `persist` the request is on file.
noted-IsStopped :
    (env : Environment) (reason : Option String) (d : RunDirectory) (s : RunSnapshot)
    (existing : Option StopRequest) (file : JsonFile) (q : StopRequest)
    → request_stop_file (d.stop_files s.attempt) s.attempt (env.utc_now 0) reason ≡ ok (file, q)
    → IsStopped (stop_noted d s file existing q) s.attempt q
noted-IsStopped env reason d s existing file q h = record {
  on_file = ground (
    arith,
    first_request_stands (d.stop_files s.attempt) s.attempt (env.utc_now 0) (env.utc_now 0) reason
        reason h,
  );
}

module _ (env : Environment) (meanwhile : RunDirectory → RunDirectory) (reason : Option String)
    (d : RunDirectory) (s : RunSnapshot) (in_file : read d.snapshot_file ≡ ok s) where
  -- A stop request against a run that has ended changes nothing.
  pub request_stop-ended :
      is_terminal s.status ≡ true
      → request_stop env meanwhile reason d ≡ (ok (record { snapshot = s; stop_request = none }), d)
  unfolding request_stop read_snapshot
  request_stop-ended t = ground (arith, inspect-terminal d s in_file t)

  -- A stop request against a running or paused attempt leaves its record alone, puts the request
  -- that stands on file for exactly that attempt, and reports it.
  pub request_stop-live :
      (existing : Option StopRequest) (file : JsonFile) (q : StopRequest)
      → (s.status ≡ running) ⊎ (s.status ≡ paused)
      → read_stop (d.stop_files s.attempt) s.attempt ≡ ok existing
      → request_stop_file (d.stop_files s.attempt) s.attempt (env.utc_now 0) reason ≡ ok (file, q)
      → (request_stop env meanwhile reason d
          ≡ (ok (record { snapshot = s; stop_request = some q }), stop_noted d s file existing q))
        × IsStopped (stop_noted d s file existing q) s.attempt q
  unfolding request_stop read_snapshot
  request_stop-live existing file q live r h =
      let noted = noted-IsStopped env reason d s existing file q h in
      let t : is_terminal s.status ≡ false = ground arith in
      (
        ground (
          arith,
          persist_lem env reason d s existing file q in_file t r h,
          inspect-live (stop_noted d s file existing q) s q in_file t noted,
        ),
        noted,
      )
