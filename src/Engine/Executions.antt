-- ===== src/Engine/Executions.antt =====
-- `RunContext.execution_id` of packages/ac-jobs/src/ac_jobs/engine.py: the task identifiers of a run
-- that is recovered after a failure.
pub mod Validity
use ac_foundation.Errors.{Result, ok, ◌>>=◌}
use ac_foundation.Prelude.{String, if◌then◌else◌, leb, length, ℕ, ◌+◌, ◌-◌, ◌==◌}
use ac_foundation.Text.{append_text, decimal, take_text}
use ac_foundation.Identity.{codes, validate_simple_id}

abbrev pub text_length : String → ℕ
text_length s = length (codes s)

-- `text[:127 - k]`: with k above 127 the slice counts from the end.
abbrev pub slice_within : ℕ → String → String
slice_within k s =
    if leb k 127 then take_text (127 - k) s else take_text (text_length s - (k - 127)) s

unfoldable pub execution_prefix : ℕ → String
execution_prefix epoch = append_text "recovery-" (append_text (decimal epoch) "-")

unfoldable pub short_execution_id : (String → String) → String → String → String
short_execution_id sha256 prefix identifier =
    let digest = take_text 24 (sha256 identifier) in
    append_text prefix (
      append_text (slice_within (text_length prefix + text_length digest) identifier)
        (append_text "-" digest))

-- In a recovery epoch, whose identifiers begin with the prefix.
unfoldable pub recovery_execution_id : (String → String) → String → String → Result String
unfolding short_execution_id
recovery_execution_id sha256 prefix identifier =
    if leb (text_length (append_text prefix identifier)) 128
    then validate_simple_id (append_text prefix identifier)
    else validate_simple_id (short_execution_id sha256 prefix identifier)

-- `execution_id`, with `sha256(text.encode()).hexdigest()`.
unfoldable pub execution_id : (String → String) → ℕ → String → Result String
unfolding recovery_execution_id execution_prefix
execution_id sha256 epoch identifier = validate_simple_id identifier >>= λ t.
    (if epoch == 0
      then ok identifier
      else recovery_execution_id sha256 (execution_prefix epoch) identifier)
