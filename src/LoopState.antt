-- ===== src/LoopState.antt =====
-- The durable state of one proposer-reviewer loop, packages/ac-proposer-reviewer/src/
-- ac_proposer_reviewer/state.py: the records; Codec has their documents and
-- Steps the allowed steps. A dict is the list
-- of its items.
pub mod Codec
pub mod Steps
pub mod Collections
pub mod References
pub mod Pauses
pub mod RoundTrip
pub mod Decoding
use ac_foundation.Models.{ArtifactRef, Awaiting}
use ac_foundation.Prelude.{List, Option, String, if◌then◌else◌, str_eq, ℕ}
use ac_foundation.Errors.{Result, err, ok, value_error}

-- `LoopTermination` of models.py
pub data LoopTermination : Type 0 where
  reviewer_stop round_limit failed_loop : LoopTermination

abbrev pub termination_value : LoopTermination → String
termination_value reviewer_stop = "reviewer_stop"
termination_value round_limit = "round_limit"
termination_value failed_loop = "failed"

abbrev pub termination_of : String → Result LoopTermination
termination_of t =
    if str_eq t "reviewer_stop"
    then ok reviewer_stop
    else if str_eq t "round_limit"
    then ok round_limit
    else if str_eq t "failed"
    then ok failed_loop
    else err value_error

-- `SessionRef` of packages/ac-llm/src/ac_llm/request.py
pub record SessionRef : Type 0 where
  pub session_key : String
  pub accepted_prefix_sha256 : String

-- `_PauseRecord`
pub record PauseRecord : Type 0 where
  pub role : String
  pub worker_id : String
  pub round_number : ℕ
  pub task_id : String
  pub awaiting : Awaiting

-- `_LoopState`
pub record LoopState : Type 0 where
  pub revision : ℕ
  pub loop_id : String
  pub rounds_completed : ℕ
  pub proposal_refs : List (String × ArtifactRef)
  pub current_proposer_ids : List String
  pub review_ref : Option ArtifactRef
  pub proposer_sessions : List (String × SessionRef)
  pub reviewer_session : Option SessionRef
  pub transcript_refs : List ArtifactRef
  pub pauses : List (String × PauseRecord)
  pub termination : Option LoopTermination
