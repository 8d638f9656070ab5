-- ===== src/Workers.antt =====
-- packages/ac-jobs/src/ac_jobs/group_workers.py: the durable concurrency target of a work group.
pub mod Contract
pub mod Loops
pub mod Safety
pub mod Rounds
pub mod Targets
use ac_foundation.Prelude.{
  Bool, List, Option, String, [], false, if◌then◌else◌, leb, ltb, none, not, some, str_eq, suc,
  true, zero, ℕ, ◌&&◌, ◌+◌, ◌==◌, ◌||◌, ◌∷◌,
}
use ac_foundation.Json.{Fields, JsonValue, end, field, get, int, pos, require_fields, str}
use ac_foundation.Errors.{
  JobsError, Result, artifact_conflict, corrupt_state, err, idempotency_conflict, invalid_run_id,
  ok, raise_if, resume_input_conflict, revision_conflict, state_conflict, value_error, ◌>>=◌, ◌>>◌,
}
use ac_foundation.Storage.{JsonFile}
use ac_foundation.Storage.State.{StateContract, create_state, read_state, swap_state}
use ac_foundation.Identity.{codes, matches_simple_id, validate_simple_id}
use ac_foundation.Snapshot.Codec.{decode, encode, natural, text}

pub record GroupWorkerControl : Type 0 where
  pub group_id : String
  pub revision : ℕ
  pub target_workers : ℕ
  pub capacity : ℕ

-- `_GroupWorkerContract.encode`
unfoldable pub encode_control : GroupWorkerControl → Fields
encode_control c = field "group_id" (str c.group_id) (
    field "revision" (int (pos c.revision)) (
      field "target_workers" (int (pos c.target_workers))
        (field "capacity" (int (pos c.capacity)) end)))

abbrev control_fields : List String
control_fields = "group_id" ∷ "revision" ∷ "target_workers" ∷ "capacity" ∷ []

-- `_validate_positive_int` on a member of the document, whose ValueError is reported as corruption
abbrev positive : JsonValue → Result ℕ
positive (int (pos (suc n))) = ok (suc n)
positive _ = err corrupt_state

-- `_GroupWorkerContract.decode`
unfoldable pub decode_control : Fields → Result GroupWorkerControl
decode_control fs = do
  require_fields fs control_fields []
  group_id ← text (get "group_id" fs)
  _ ← validate_simple_id group_id
  revision ← natural (get "revision" fs)
  target ← positive (get "target_workers" fs)
  capacity ← positive (get "capacity" fs)
  raise_if (ltb capacity target) corrupt_state
  ok (record {
    group_id = group_id;
    revision = revision;
    target_workers = target;
    capacity = capacity;
  })

-- `_GroupWorkerContract.validate_transition`
unfoldable pub validate_control : Option GroupWorkerControl → GroupWorkerControl → Result (Unit {0})
validate_control none v = raise_if (not (v.revision == 0)) value_error
validate_control (some p) v = do
  raise_if (not (str_eq v.group_id p.group_id)) value_error
  raise_if (not (v.revision == p.revision + 1)) value_error
  raise_if (ltb v.capacity p.capacity) value_error

unfoldable pub control_eq : GroupWorkerControl → GroupWorkerControl → Bool
control_eq a b =
    str_eq a.group_id b.group_id
    && a.revision == b.revision
    && a.target_workers == b.target_workers
    && a.capacity == b.capacity

-- `_GroupWorkerContract`
abbrev pub worker_contract : StateContract GroupWorkerControl
worker_contract = record {
  schema_version = "ac.jobs.group_workers.v1";
  encode = encode_control;
  decode = decode_control;
  validate_transition = validate_control;
  revision = λ c. c.revision;
  equal = control_eq;
}

-- One round of `initialize_group_workers` ends with a result or an exception, or goes on.
pub data Round (A : Type 0) : Type 0 where
  done : A → Round A
  raised : JobsError → Round A
  again : JsonFile → Round A

-- A write after which a conflict of one class starts the next round.
abbrev pub retry_on : {A : Type 0} → (JobsError → Bool) → JsonFile → Result A → Round A
retry_on conflict file (ok a) = done a
retry_on conflict file (err e) = if conflict e then again file else raised e

-- `except StateConflictError`, with its subclasses
abbrev pub is_state_conflict : JobsError → Bool
is_state_conflict state_conflict = true
is_state_conflict revision_conflict = true
is_state_conflict artifact_conflict = true
is_state_conflict idempotency_conflict = true
is_state_conflict resume_input_conflict = true
is_state_conflict _ = false

-- `except RevisionConflictError`
abbrev pub is_revision_conflict : JobsError → Bool
is_revision_conflict revision_conflict = true
is_revision_conflict _ = false

abbrev expanded : GroupWorkerControl → ℕ → GroupWorkerControl
expanded c capacity = record c { revision = c.revision + 1; capacity = capacity }

abbrev initial_control : String → ℕ → ℕ → GroupWorkerControl
initial_control group_id target capacity = record {
  group_id = group_id;
  revision = 0;
  target_workers = target;
  capacity = capacity;
}

abbrev retargeted : GroupWorkerControl → ℕ → GroupWorkerControl
retargeted c target = record c { revision = c.revision + 1; target_workers = target }

-- The body of the loop in `initialize_group_workers`, from the state that was read; `file` is the
-- file once others have had their turn.
initialize_current :
    String → ℕ → ℕ → JsonFile → Option GroupWorkerControl → Round (JsonFile × GroupWorkerControl)
initialize_current group_id target capacity file none =
    retry_on is_state_conflict file
      (create_state worker_contract file (initial_control group_id target capacity))
initialize_current group_id target capacity file (some c) =
    if leb capacity c.capacity
    then done (file, c)
    else retry_on is_revision_conflict file
        (swap_state worker_contract file c.revision (expanded c capacity))

abbrev pub from_read : {A S : Type 0} → Result (Option S) → (Option S → Round A) → Round A
from_read (ok c) f = f c
from_read (err e) f = raised e

initialize_round : String → ℕ → ℕ → JsonFile → JsonFile → Round (JsonFile × GroupWorkerControl)
unfolding initialize_current
initialize_round group_id target capacity file file' =
    from_read (read_state worker_contract file) (initialize_current group_id target capacity file')

-- The loop `while True` with fuel. Between a read and the write of round `i` the other processes
-- turn the file into `others i file`.
unfoldable pub loop_rounds :
    {A : Type 0}
    → (JsonFile → JsonFile → Round A)
    → (ℕ → JsonFile → JsonFile)
    → ℕ
    → ℕ
    → JsonFile
    → Option (Result A)
loop_rounds round others zero i file = none
loop_rounds round others (suc fuel) i file = elim (round file (others i file)) [
  | done a ↦ some (ok a)
  | raised e ↦ some (err e)
  | again file' ↦ loop_rounds round others fuel (i + 1) file'
]

-- `initialize_group_workers`
unfoldable pub initialize_group_workers :
    (ℕ → JsonFile → JsonFile)
    → ℕ
    → String
    → ℕ
    → ℕ
    → JsonFile
    → Option (Result (JsonFile × GroupWorkerControl))
unfolding initialize_round
initialize_group_workers others fuel group_id target capacity file =
    if target == 0 || capacity == 0 || ltb capacity target
    then some (err value_error)
    else if matches_simple_id (codes group_id)
    then loop_rounds (initialize_round group_id target capacity) others fuel 0 file
    else some (err invalid_run_id)

abbrev with_previous :
    GroupWorkerControl
    → Result (JsonFile × GroupWorkerControl)
    → Result (JsonFile × GroupWorkerControl × GroupWorkerControl)
with_previous c (ok (file, v)) = ok (file, c, v)
with_previous c (err e) = err e

set_current :
    ℕ
    → JsonFile
    → Option GroupWorkerControl
    → Round (JsonFile × GroupWorkerControl × GroupWorkerControl)
set_current target file none = raised value_error
set_current target file (some c) =
    if ltb c.capacity target
    then raised value_error
    else if target == c.target_workers
    then done (file, c, c)
    else retry_on is_revision_conflict file
        (with_previous c (swap_state worker_contract file c.revision (retargeted c target)))

set_round : ℕ → JsonFile → JsonFile → Round (JsonFile × GroupWorkerControl × GroupWorkerControl)
unfolding set_current
set_round target file file' = from_read (read_state worker_contract file) (set_current target file')

-- `set_group_workers`: the file, the previous and the updated control.
unfoldable pub set_group_workers :
    (ℕ → JsonFile → JsonFile)
    → ℕ
    → String
    → ℕ
    → JsonFile
    → Option (Result (JsonFile × GroupWorkerControl × GroupWorkerControl))
unfolding set_round
set_group_workers others fuel group_id target file =
    if target == 0
    then some (err value_error)
    else if matches_simple_id (codes group_id)
    then loop_rounds (set_round target) others fuel 0 file
    else some (err invalid_run_id)
