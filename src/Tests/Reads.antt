-- ===== src/Tests/Reads.antt =====
-- The files of the concrete runs are read as those runs.
use ac_foundation.Storage.{absent}
use ac_foundation.Snapshot.Codec.{
  awaiting_json, decode, decode_awaiting, decode_error, decode_ref, encode, error_json, ref_json,
}
use ac_foundation.Tests.Fixtures.{
  failed_run, file_of, paused_run, pending_run, running_run, succeeded_run,
}
use ac_foundation.Prelude.{none, refl, ℕ, ◌≡◌}
use ac_foundation.Errors.{ok}
use ac_foundation.Snapshot.Store.{read}
use ac_foundation.Stopping.{read_stop}
use ac_foundation.Snapshot.{validate, validate_awaiting, validate_run_error, validate_shape}
use ac_foundation.Identity.{validate_simple_id}

pub succeeded_found : read (file_of succeeded_run) ≡ ok succeeded_run
unfolding read decode encode awaiting_json ref_json error_json decode_error decode_awaiting
    decode_ref validate validate_shape validate_simple_id
succeeded_found = refl

pub running_found : read (file_of running_run) ≡ ok running_run
unfolding read decode encode awaiting_json ref_json error_json decode_error decode_awaiting
    decode_ref validate validate_shape validate_simple_id
running_found = refl

pub pending_found : read (file_of pending_run) ≡ ok pending_run
unfolding read decode encode awaiting_json ref_json error_json decode_error decode_awaiting
    decode_ref validate validate_shape validate_simple_id
pending_found = refl

pub failed_found : read (file_of failed_run) ≡ ok failed_run
unfolding read decode encode awaiting_json ref_json error_json decode_error decode_awaiting
    decode_ref validate validate_shape validate_simple_id validate_run_error
failed_found = refl

pub paused_found : read (file_of paused_run) ≡ ok paused_run
unfolding read decode encode awaiting_json ref_json error_json decode_error decode_awaiting
    decode_ref validate_awaiting validate_simple_id validate validate_shape
paused_found = refl

pub no_stop : (n : ℕ) → read_stop absent n ≡ ok none
unfolding read_stop
no_stop n = refl
