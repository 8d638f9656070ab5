-- ===== src/Engine/Persistence.antt =====
-- What `RunEngine._run`, `execute` and `resume` of packages/ac-jobs/src/ac_jobs/engine.py do to
-- snapshot.json, on every path and whatever the handler does.
use ac_foundation.Repository.Directory.{
  Action, Environment, RunDirectory, pure, ◌>>=◌, ◌>>◌, continue,
}
use ac_foundation.Models.{
  ArtifactRef, Awaiting, RunOutcome, RunSnapshot, succeeded_with, StopRequest, failed_with,
  no_outcome, paused_on, failed, is_status, succeeded,
}
use ac_foundation.Json.{Fields}
use ac_foundation.Prelude.{
  List, Option, String, [], none, some, ◌∷◌, Bool, arith, false, if◌then◌else◌, inl, inr, refl,
  true, ◌≡◌, not, ◌&&◌, ◌||◌,
}
use ac_foundation.Repository.Directory.Rules.{
  OnlyWrites, OnlyWrites-bind, OnlyWrites-emit, only_writes, Persisted, persisted, Persisted-bind,
  Persisted-with_lease,
}
use ac_foundation.Errors.{Result, err, ok, stopped, Result-cases}
use ac_foundation.Engine.{
  RunContext, RunHandler, admit_awaiting, admit_input, bind_input, catch, emit_warnings,
  handle_exception, outcome_snapshot, persist_resume_input, prepare, settle_orphan,
  validate_replayed, verify_optional, attempt_body, checkpoint, finish_attempt, run_attempt,
  run_locked, start_attempt, stop_or_start, stop_request_of,
}
use ac_foundation.Repository.{read_spec}
use ac_foundation.Snapshot.Store.{read}

-- Neither the handler nor what other processes do while it runs touches the lifecycle record but by
-- validated writes.
pub record WritesValidly (handler : RunHandler) : Type 0 where
  pub keeps : (c : RunContext) → OnlyWrites (handler.execute c)

pub read_spec-OnlyWrites : (env : Environment) (run_id : String) → OnlyWrites (read_spec env run_id)
unfolding read_spec
read_spec-OnlyWrites env run_id = search only_writes depth 20

replayed-OnlyWrites :
    (env : Environment) (input : Option Fields) → OnlyWrites (validate_replayed env input)
unfolding validate_replayed
replayed-OnlyWrites env none = search only_writes
replayed-OnlyWrites env (some input) = search only_writes depth 20

bind_input-OnlyWrites :
    (env : Environment) (key : String) (input : Fields) → OnlyWrites (bind_input env key input)
unfolding bind_input
bind_input-OnlyWrites env key input = search only_writes depth 20

resume_input-OnlyWrites :
    (env : Environment) (a : Awaiting) (input : Option Fields)
    → OnlyWrites (persist_resume_input env a input)
unfolding persist_resume_input
resume_input-OnlyWrites env a none = search only_writes
resume_input-OnlyWrites env a (some input) = search (only_writes, bind_input-OnlyWrites)

admit_awaiting-OnlyWrites :
    (env : Environment) (a : Option Awaiting) (input : Option Fields)
    → OnlyWrites (admit_awaiting env a input)
unfolding admit_awaiting
admit_awaiting-OnlyWrites env none input = search only_writes
admit_awaiting-OnlyWrites env (some a) input = resume_input-OnlyWrites env a input

verify-OnlyWrites :
    (env : Environment) (r : Option ArtifactRef) → OnlyWrites (verify_optional env r)
unfolding verify_optional
verify-OnlyWrites env none = search only_writes
verify-OnlyWrites env (some r) = search only_writes depth 10

outcome-OnlyWrites :
    (env : Environment) (s : RunSnapshot) (o : RunOutcome) → OnlyWrites (outcome_snapshot env s o)
unfolding outcome_snapshot
outcome-OnlyWrites env s (succeeded_with r) = search (only_writes, verify-OnlyWrites) depth 10
outcome-OnlyWrites env s (paused_on a) = search (only_writes, verify-OnlyWrites) depth 10
outcome-OnlyWrites env s (failed_with e) = search only_writes depth 10
outcome-OnlyWrites env s no_outcome = search only_writes

exception-OnlyWrites :
    (env : Environment) (s : RunSnapshot) (r : Result RunSnapshot)
    → OnlyWrites (handle_exception env s r)
unfolding handle_exception
exception-OnlyWrites env s (ok n) = search only_writes
exception-OnlyWrites env s (err stopped) = search only_writes depth 10
exception-OnlyWrites env s (err _) = search only_writes

warnings-OnlyWrites : (ws : List Fields) → OnlyWrites (emit_warnings ws)
unfolding emit_warnings
warnings-OnlyWrites [] = search only_writes
warnings-OnlyWrites (w ∷ ws) =
    OnlyWrites-bind _ _ (OnlyWrites-emit _ w) (λ _. warnings-OnlyWrites ws)

catch-OnlyWrites : (m : Action RunSnapshot) → OnlyWrites m → OnlyWrites (catch m)
catch-OnlyWrites m h = record { at = h.at }

prepare-OnlyWrites : (env : Environment) (s : RunSnapshot) → OnlyWrites (prepare env s)
unfolding prepare
prepare-OnlyWrites env s = search (only_writes, read_spec-OnlyWrites) depth 20

admit-OnlyWrites :
    (env : Environment) (s : RunSnapshot) (input : Option Fields)
    → OnlyWrites (admit_input env s input)
unfolding admit_input
admit-OnlyWrites env s input = search (only_writes, admit_awaiting-OnlyWrites) depth 10

orphan-OnlyWrites : (env : Environment) (s : RunSnapshot) → OnlyWrites (settle_orphan env s)
unfolding settle_orphan
orphan-OnlyWrites env s = search only_writes depth 10

module _ (env : Environment) (handler : RunHandler) (leaves : WritesValidly handler) where
  attempt-OnlyWrites :
      (c : RunContext) (s : RunSnapshot) → OnlyWrites (attempt_body env handler c s)
  unfolding attempt_body checkpoint
  attempt-OnlyWrites c s = search (only_writes, leaves.keeps, outcome-OnlyWrites) depth 20

  finish-OnlyWrites :
      (c : RunContext) (s : RunSnapshot) → OnlyWrites (finish_attempt env handler c s)
  unfolding finish_attempt
  finish-OnlyWrites c s =
      search (only_writes, catch-OnlyWrites, attempt-OnlyWrites, exception-OnlyWrites) depth 20

  start-OnlyWrites :
      (s : RunSnapshot) (recovery : Option Fields × List Fields) (input : Option Fields)
      → OnlyWrites (start_attempt env handler s recovery input)
  unfolding start_attempt
  start-OnlyWrites s recovery input =
      search (only_writes, read_spec-OnlyWrites, warnings-OnlyWrites, finish-OnlyWrites) depth 20

  stop_or_start-OnlyWrites :
      (s : RunSnapshot) (input : Option Fields) (recovery : Option Fields × List Fields)
      (request : Option StopRequest)
      → OnlyWrites (stop_or_start env handler s input recovery request)
  unfolding stop_or_start
  stop_or_start-OnlyWrites s input recovery request =
      search (only_writes, orphan-OnlyWrites, admit-OnlyWrites, start-OnlyWrites) depth 20

  -- Every execution of an attempt, however it ends, with a result or an exception, moves
  -- snapshot.json through validated compare-and-swaps only.
  pub run_attempt-OnlyWrites :
      (input : Option Fields) (allow_failed : Bool)
      → OnlyWrites (run_attempt env handler input allow_failed)
  unfolding run_attempt run_locked stop_request_of
  run_attempt-OnlyWrites input allow_failed =
      search (only_writes, replayed-OnlyWrites, prepare-OnlyWrites, stop_or_start-OnlyWrites) depth
        20

-- Checking a replayed input changes nothing.
replayed_unchanged :
    (env : Environment) (input : Option Fields) (d : RunDirectory)
    → (validate_replayed env input d).1 ≡ d
unfolding validate_replayed
replayed_unchanged env none d = refl
replayed_unchanged env (some input) d = ground arith

module _ (env : Environment) (handler : RunHandler) where
  finish-Persisted : (c : RunContext) (s : RunSnapshot) → Persisted (finish_attempt env handler c s)
  unfolding finish_attempt
  finish-Persisted c s = search persisted depth 10

  start-Persisted :
      (s : RunSnapshot) (recovery : Option Fields × List Fields) (input : Option Fields)
      → Persisted (start_attempt env handler s recovery input)
  unfolding start_attempt
  start-Persisted s recovery input = search (persisted, finish-Persisted) depth 10

  stop_or_start-Persisted :
      (s : RunSnapshot) (input : Option Fields) (recovery : Option Fields × List Fields)
      (request : Option StopRequest)
      → Persisted (stop_or_start env handler s input recovery request)
  unfolding stop_or_start
  stop_or_start-Persisted s input recovery request = search (persisted, start-Persisted) depth 10

  -- The two ways on from the record that was read, as in `run_locked`.
  decided :
      (s : RunSnapshot) (input : Option Fields) (final : Bool) (d : RunDirectory) {r : RunSnapshot}
      → read d.snapshot_file ≡ ok s
      → let m : Action RunSnapshot = if final then (do validate_replayed env input; pure s) else (do
        recovery ← prepare env s
        request ← stop_request_of s
        stop_or_start env handler s input recovery request) in
        (m d).0 ≡ ok r → read (m d).1.snapshot_file ≡ ok r
  decided s input true d e h = elim (Result-cases (validate_replayed env input d).0) [
    | inl (t, v) ↦ ground (arith, replayed_unchanged env input d)
    | inr (x, v) ↦ absurd (ground arith)
  ]
  decided s input false d e h =
      (Persisted-bind (prepare env s) _ (λ recovery.
          Persisted-bind (stop_request_of s) _ (stop_or_start-Persisted s input recovery))).at
        d h

  locked-Persisted :
      (input : Option Fields) (allow_failed : Bool)
      → Persisted (run_locked env handler input allow_failed)
  unfolding run_locked
  locked-Persisted input allow_failed = record { at = λ d h. after d (read d.snapshot_file) refl h }
    where
      after :
          (d : RunDirectory) (m : Result RunSnapshot) {r : RunSnapshot}
          → read d.snapshot_file ≡ m
          → let body : RunSnapshot → Action RunSnapshot = λ s.
            if is_status s.status succeeded || (is_status s.status failed && not allow_failed)
            then (do validate_replayed env input; pure s)
            else (do
              recovery ← prepare env s
              request ← stop_request_of s
              stop_or_start env handler s input recovery request) in
            (continue m body d).0 ≡ ok r → read (continue m body d).1.snapshot_file ≡ ok r
      after d (ok s) e h =
          decided s input
            (is_status s.status succeeded || (is_status s.status failed && not allow_failed)) d e h
      after d (err x) e h = absurd (ground arith)

  -- A record that `_run` returns is the one that snapshot.json then holds.
  pub run_attempt-Persisted :
      (input : Option Fields) (allow_failed : Bool)
      → Persisted (run_attempt env handler input allow_failed)
  unfolding run_attempt
  run_attempt-Persisted input allow_failed =
      Persisted-with_lease (run_locked env handler input allow_failed)
        (locked-Persisted input allow_failed)
