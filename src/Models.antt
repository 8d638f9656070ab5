-- ===== src/Models.antt =====
-- packages/ac-jobs/src/ac_jobs/models.py: the values of the durable run kernel. Python's natural
-- numbers are ℕ, times are the texts that `utc_now` prints.
use ac_foundation.Prelude.{
  ℕ, String, Bool, true, false, Option, none, some, if◌then◌else◌, str_eq, not, ◌&&◌, ◌==◌,
}
use ac_foundation.Json.{JsonValue, Fields, obj}
use ac_foundation.Json.Equality.{json_eq}

pub data RunStatus : Type 0 where
  pending running paused succeeded failed : RunStatus

pub data ResumeReason : Type 0 where
  interaction_required supervision_required external_condition : ResumeReason
  execution_interrupted execution_stopped : ResumeReason

pub record ArtifactDigest : Type 0 where
  pub algorithm : String
  pub value : String
  pub size_bytes : ℕ

pub record ArtifactRef : Type 0 where
  pub artifact_id : String
  pub digest : ArtifactDigest
  pub media_type : String
  pub relative_path : String

pub record ArtifactSourceRef : Type 0 where
  pub source_run_id : String
  pub source_artifact_id : String
  pub expected_digest : ArtifactDigest

pub record Awaiting : Type 0 where
  pub reason : ResumeReason
  pub resume_key : String
  pub input_required : Bool
  pub request_ref : Option ArtifactRef
  pub response_contract : Option String
  pub details : Fields

-- The fields are whatever was given: `_validate_run_error` tests their types.
pub record RunError : Type 0 where
  pub code : JsonValue
  pub message : JsonValue
  pub details : JsonValue

pub record RunSpec : Type 0 where
  pub run_id : String
  pub handler : String
  pub semantic_input : Fields

pub record RunSnapshot : Type 0 where
  pub run_id : String
  pub revision : ℕ
  pub status : RunStatus
  pub attempt : ℕ
  pub created_at : String
  pub updated_at : String
  pub awaiting : Option Awaiting
  pub result_ref : Option ArtifactRef
  pub error : Option RunError
  pub interrupted : Bool
  pub recovery_epoch : ℕ

pub record StopRequest : Type 0 where
  pub target_attempt : ℕ
  pub requested_at : String
  pub reason : Option String

pub record RunView : Type 0 where
  pub snapshot : RunSnapshot
  pub stop_request : Option StopRequest

-- `RunOutcome`, what a handler returns, or some other object.
pub data RunOutcome : Type 0 where
  succeeded_with : Option ArtifactRef → RunOutcome
  paused_on : Awaiting → RunOutcome
  failed_with : RunError → RunOutcome
  no_outcome : RunOutcome

-- `RunStatus.value`
abbrev pub status_value : RunStatus → String
status_value RunStatus.pending = "pending"
status_value RunStatus.running = "running"
status_value RunStatus.paused = "paused"
status_value RunStatus.succeeded = "succeeded"
status_value RunStatus.failed = "failed"

-- `RunStatus(text)`, which raises ValueError on an unknown text.
abbrev pub status_of : String → Option RunStatus
status_of t =
    if str_eq t "pending"
    then some RunStatus.pending
    else if str_eq t "running"
    then some RunStatus.running
    else if str_eq t "paused"
    then some RunStatus.paused
    else if str_eq t "succeeded"
    then some RunStatus.succeeded
    else if str_eq t "failed"
    then some RunStatus.failed
    else none

abbrev pub reason_value : ResumeReason → String
reason_value ResumeReason.interaction_required = "interaction_required"
reason_value ResumeReason.supervision_required = "supervision_required"
reason_value ResumeReason.external_condition = "external_condition"
reason_value ResumeReason.execution_interrupted = "execution_interrupted"
reason_value ResumeReason.execution_stopped = "execution_stopped"

abbrev pub reason_of : String → Option ResumeReason
reason_of t =
    if str_eq t "interaction_required"
    then some ResumeReason.interaction_required
    else if str_eq t "supervision_required"
    then some ResumeReason.supervision_required
    else if str_eq t "external_condition"
    then some ResumeReason.external_condition
    else if str_eq t "execution_interrupted"
    then some ResumeReason.execution_interrupted
    else if str_eq t "execution_stopped"
    then some ResumeReason.execution_stopped
    else none

-- `a is b` on statuses
abbrev pub is_status : RunStatus → RunStatus → Bool
is_status RunStatus.pending RunStatus.pending = true
is_status RunStatus.running RunStatus.running = true
is_status RunStatus.paused RunStatus.paused = true
is_status RunStatus.succeeded RunStatus.succeeded = true
is_status RunStatus.failed RunStatus.failed = true
is_status _ _ = false

-- `status in _TERMINAL`
abbrev pub is_terminal : RunStatus → Bool
is_terminal RunStatus.succeeded = true
is_terminal RunStatus.failed = true
is_terminal _ = false

-- The `==` of the dataclasses, field by field.
abbrev pub optional_eq {ℓ} : {A : Type ℓ} → (A → A → Bool) → Option A → Option A → Bool
optional_eq eq none none = true
optional_eq eq (some a) (some b) = eq a b
optional_eq eq _ _ = false

abbrev pub bool_eq : Bool → Bool → Bool
bool_eq true b = b
bool_eq false b = not b

unfoldable pub digest_eq : ArtifactDigest → ArtifactDigest → Bool
digest_eq a b =
    str_eq a.algorithm b.algorithm && str_eq a.value b.value && a.size_bytes == b.size_bytes

unfoldable pub ref_eq : ArtifactRef → ArtifactRef → Bool
unfolding digest_eq
ref_eq a b =
    str_eq a.artifact_id b.artifact_id
    && digest_eq a.digest b.digest
    && str_eq a.media_type b.media_type
    && str_eq a.relative_path b.relative_path

unfoldable pub awaiting_eq : Awaiting → Awaiting → Bool
awaiting_eq a b =
    str_eq (reason_value a.reason) (reason_value b.reason)
    && str_eq a.resume_key b.resume_key
    && bool_eq a.input_required b.input_required
    && optional_eq ref_eq a.request_ref b.request_ref
    && optional_eq str_eq a.response_contract b.response_contract
    && json_eq (obj a.details) (obj b.details)

error_eq : RunError → RunError → Bool
error_eq a b = json_eq a.code b.code && json_eq a.message b.message && json_eq a.details b.details

unfoldable pub snapshot_eq : RunSnapshot → RunSnapshot → Bool
unfolding awaiting_eq error_eq ref_eq
snapshot_eq a b =
    str_eq a.run_id b.run_id
    && a.revision == b.revision
    && is_status a.status b.status
    && a.attempt == b.attempt
    && str_eq a.created_at b.created_at
    && str_eq a.updated_at b.updated_at
    && optional_eq awaiting_eq a.awaiting b.awaiting
    && optional_eq ref_eq a.result_ref b.result_ref
    && optional_eq error_eq a.error b.error
    && bool_eq a.interrupted b.interrupted
    && a.recovery_epoch == b.recovery_epoch
