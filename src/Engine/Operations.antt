-- ===== src/Engine/Operations.antt =====
-- Any sequence of the operations of packages/ac-jobs/src/ac_jobs/engine.py on one run.
use ac_foundation.Prelude.{All, List, Option, String, [], ℕ, ◌∷◌, ◌≡◌}
use ac_foundation.Repository.Directory.{Environment, RunDirectory, modify}
use ac_foundation.Snapshot.Store.History.{
  Extends, Writes, Writes-trans, count, no_write, succeeded_is_final, writes-Extends,
}
use ac_foundation.Json.{Fields}
use ac_foundation.Engine.Persistence.{WritesValidly, read_spec-OnlyWrites, run_attempt-OnlyWrites}
use ac_foundation.Repository.Directory.Rules.{OnlyWrites, only_writes}
use ac_foundation.Engine.{RunHandler, execute, resume}
use ac_foundation.Models.{RunSnapshot, RunSpec, succeeded}
use ac_foundation.Repository.{create, request_stop}
use ac_foundation.Repository.Creation.{create-OnlyWrites}
use ac_foundation.Errors.{ok}
use ac_foundation.Snapshot.Store.{read}
use ac_foundation.Repository.Stops.{request_stop-OnlyWrites}

-- One call, by any process, in any order.
pub data Operation : Type 0 where
  creating : RunSpec → Operation
  executing : RunSpec → RunHandler → Operation
  resuming : String → RunHandler → Option Fields → Operation
  stopping : (RunDirectory → RunDirectory) → Option String → Operation

-- What an operation assumes: handlers, and the processes that it waits for, leave the lifecycle
-- record to these same operations.
abbrev pub IsHonest : Operation → Type 0
IsHonest (creating spec) = Unit
IsHonest (executing spec h) = WritesValidly h
IsHonest (resuming run_id h input) = WritesValidly h
IsHonest (stopping meanwhile reason) = OnlyWrites (modify meanwhile)

-- The directory that a call leaves, with a result or with an exception.
pub perform : Environment → Operation → RunDirectory → RunDirectory
perform env (creating spec) d = (create env spec d).1
perform env (executing spec h) d = (execute env spec h d).1
perform env (resuming run_id h input) d = (resume env run_id h input d).1
perform env (stopping meanwhile reason) d = (request_stop env meanwhile reason d).1

pub perform_all : Environment → List Operation → RunDirectory → RunDirectory
perform_all env [] d = d
perform_all env (o ∷ os) d = perform_all env os (perform env o d)

execute-OnlyWrites :
    (env : Environment) (spec : RunSpec) (h : RunHandler)
    → WritesValidly h
    → OnlyWrites (execute env spec h)
unfolding execute
execute-OnlyWrites env spec h leaves =
    search (only_writes, create-OnlyWrites, run_attempt-OnlyWrites) depth 20

resume-OnlyWrites :
    (env : Environment) (run_id : String) (h : RunHandler) (input : Option Fields)
    → WritesValidly h
    → OnlyWrites (resume env run_id h input)
unfolding resume
resume-OnlyWrites env run_id h input leaves =
    search (only_writes, read_spec-OnlyWrites, run_attempt-OnlyWrites) depth 20

perform-Writes :
    (env : Environment) (o : Operation) (d : RunDirectory)
    → IsHonest o
    → Writes d.snapshot_file (perform env o d).snapshot_file
unfolding perform
perform-Writes env (creating spec) d h = (create-OnlyWrites env spec).at d
perform-Writes env (executing spec r) d h = (execute-OnlyWrites env spec r h).at d
perform-Writes env (resuming run_id r input) d h = (resume-OnlyWrites env run_id r input h).at d
perform-Writes env (stopping m reason) d h = (request_stop-OnlyWrites env m reason h).at d

perform_all-Writes :
    (env : Environment) (os : List Operation) (d : RunDirectory)
    → All IsHonest os
    → Writes d.snapshot_file (perform_all env os d).snapshot_file
unfolding perform_all
perform_all-Writes env [] d h = no_write
perform_all-Writes env (o ∷ os) d h =
    Writes-trans (perform-Writes env o d h.0) (perform_all-Writes env os (perform env o d) h.1)

-- Whatever creations, executions, resumptions and stop requests follow one another on a run whose
-- record can be read, also those that raise: the record stays readable and of the same run, its
-- revision, attempt and recovery epoch never fall, and no more recoveries than attempts are added,
-- as long as handlers and other processes leave the record to these operations.
pub perform_all-Extends :
    (env : Environment) (os : List Operation) (d : RunDirectory) (s : RunSnapshot)
    → read d.snapshot_file ≡ ok s
    → All IsHonest os
    → (n : ℕ) × (s' : RunSnapshot) × (read (perform_all env os d).snapshot_file ≡ ok s')
      × Extends s s' n
perform_all-Extends env os d s e h =
    let w = perform_all-Writes env os d h in
    let (s', r, x) = writes-Extends s e w in (count w, s', r, x)

-- A run that has succeeded is final: no sequence of operations changes its record again, as long as
-- handlers and other processes leave the record to them.
pub perform_all-succeeded :
    (env : Environment) (os : List Operation) (d : RunDirectory) (s : RunSnapshot)
    → read d.snapshot_file ≡ ok s
    → s.status ≡ succeeded
    → All IsHonest os
    → (perform_all env os d).snapshot_file ≡ d.snapshot_file
perform_all-succeeded env os d s e done h =
    (succeeded_is_final s e done (perform_all-Writes env os d h)).0
