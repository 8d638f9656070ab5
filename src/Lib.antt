-- ===== src/Lib.antt =====
-- The durable run kernel of ac-foundation, packages/ac-jobs/src/ac_jobs, the durable circuit of
-- the provider gate, packages/ac-llm/src/ac_llm/gate.py, and the durable state of a loop of proposers
-- and reviewers, packages/ac-proposer-reviewer/src/ac_proposer_reviewer/state.py, with the turns
-- of its transcript (dialogue.py).
--
-- A run is a directory of JSON files. `RunRepository` (engine.py) creates it, inspects it and asks
-- it to stop; `RunEngine` (engine.py) executes one attempt after the other under a file lease, and
-- records each change of state in snapshot.json through `_SnapshotStore.compare_and_swap`.
-- Artifacts are immutable files beside it, stop requests are one file for each attempt, and work
-- groups keep their worker target in an `AtomicStateStore`. The engine sees the events of a run as a
-- list of names and bodies (`RunDirectory`); Events has the log file
-- that stands for it. Working has the artifacts as an agent may edit them between attempts, over ArtifactStore. The
-- circuit of a provider is one `AtomicStateStore` and one lease pool for its probe. The state
-- of a loop is an `AtomicStateStore` with a contract of its own, which LoopState has.
--
-- The parts, and the files under packages/ac-jobs/src/ac_jobs/ that they model:
--   Errors          errors.py: exceptions as values, in `Result`
--   Json            the JSON values of models.py, `require_fields`, and Python's == on JSON
--   Models          models.py: RunSnapshot, RunSpec, Awaiting, StopRequest, RunOutcome and others
--   Identity        identity.py: `validate_simple_id`, `validate_artifact_id`
--   Artifacts       artifacts.py: the wire form of digests and references
--   Text            f-strings and slices of texts
--   Storage         storage.py: JSON files; Storage/State `AtomicStateStore`
--   ArtifactStore   storage.py: `ImmutableArtifactStore`; Reading has its reads and adoption
--   Stopping        stopping.py: `StopToken`
--   Snapshot        engine.py: `_SnapshotStore._validate`; Codec `_encode` and `_decode`, Store
--                   `read`, `create`, `compare_and_swap`
--   Repository      engine.py: `RunRepository`; Directory has the files of a run and the monad of
--                   actions on them
--   Engine          engine.py: `RunEngine.execute`, `resume` and `_run`; Inputs has the resume
--                   input, Outcomes the end of an attempt, Executions
--                   `RunContext.execution_id`
--   Workers         group_workers.py
--   LeasePool       lease_pool.py: `BoundedLeasePool`
--   Groups          groups.py: the files of units, their replay, `invoke`, and the loop of `run`
--   Events          events.py: `EventWriter`; Tail has the search of `_truncate_incomplete_tail`,
--                   Emission `emit` with its sink, Recent `tail`, Returned what a caller
--                   of `_append` sees when the disk fails
--   Working         working.py: `EditableArtifactStore`
--   Circuit         packages/ac-llm/src/ac_llm/gate.py: `_CircuitContract`; Admission has
--                   `_before_call`, Outcomes `_record_success` and `_record_failure`
--   LoopState       packages/ac-proposer-reviewer/src/ac_proposer_reviewer/state.py:
--                   `_LoopStateContract`; Codec has its documents, Steps its allowed steps
--   Transcript      packages/ac-proposer-reviewer/src/ac_proposer_reviewer/dialogue.py: the turns of
--                   a transcript
--   Tests           concrete runs, files and groups
--
-- How the state corresponds. A file is absent, damaged or holds one JSON object (`JsonFile`); a
-- write replaces it in one step, as `atomic_write_json` promises. `RunDirectory` has a field for
-- each file of the run directory. An operation is an `Action`: it takes the directory to a result
-- or an exception and the directory that is left, so that what was written before an exception
-- stays written. The lease is a flag: a second holder gets RunBusyError. A handler is an arbitrary
-- action, so it may also stand for what other processes do while it runs; theorems that need it to
-- leave the lifecycle record to the kernel say so (`WritesValidly`). `request_stop` takes what other
-- processes do while it waits as an argument, and the loops of group_workers.py take what others
-- write between a read and a write.
--
-- Fuel: the retry loops of group_workers.py have fuel. They end whenever others leave the file
-- alone for one round, with one round of fuel more than were disturbed. The loop of `acquire` in
-- lease_pool.py likewise, once others leave room. The loop of a work group has a list of what its
-- rounds meet in place of fuel. The loops that record the outcome of a provider call end like those
-- of group_workers.py. The backwards search of events.py has as many rounds as the file has bytes,
-- and each round reads at least one. The decimal
-- digits of n have n + 1 rounds of fuel, which is enough because each round divides by ten.
--
-- Parameters: SHA-256, the clock, the process identity, the text of an exception, and the recovery
-- snapshots of the working tree (`Environment`, `Hashing`, `EventCodec`), and the sum, the difference
-- and the conversion of floats (`FloatOps`; their order is defined on bit patterns), and
-- which texts `int(value, 16)` accepts (`HexTexts`). Attempts are
-- taken below 10 ^ 100 where a stop key must be valid, and recovery epochs below 10 ^ 80 where an
-- execution identifier must be: its digits and the rest of it have to fit into 128 characters.
--
-- Not modelled: the loss of synced or unsynced bytes when the machine fails, permissions, the recovery
-- snapshots of the working tree and the error file that an attempt leaves in it, the tool protocol and the command line, the memory guard
-- of the provider gate, and the rest of the other packages of the repository.
pub mod Prelude
pub mod Errors
pub mod Json
pub mod Identity
pub mod Models
pub mod Artifacts
pub mod Text
pub mod Storage
pub mod Stopping
pub mod Snapshot
pub mod ArtifactStore
pub mod Workers
pub mod Repository
pub mod Engine
pub mod LeasePool
pub mod Groups
pub mod Events
pub mod Working
pub mod Circuit
pub mod LoopState
pub mod Transcript
pub mod Tests
