-- ===== src/Tests/Fixtures.antt =====
-- The concrete values of the tests.
use ac_foundation.Models.{
  Awaiting, RunOutcome, RunSnapshot, RunSpec, StopRequest, external_condition, failed, paused,
  running, succeeded,
}
use ac_foundation.Repository.Directory.{Environment, RunDirectory}
use ac_foundation.Json.{Fields, end, obj, str}
use ac_foundation.Storage.{JsonFile, absent, damaged, holding}
use ac_foundation.Errors.{Result, err, ok}
use ac_foundation.Engine.{RunHandler}
use ac_foundation.Prelude.{[], false, if◌then◌else◌, none, some, ℕ, ◌==◌}
use ac_foundation.Snapshot.Codec.{encode}
use ac_foundation.Repository.{initial_snapshot}
use ac_foundation.Stopping.{request_document}
use ac_foundation.Repository.{spec_document}

abbrev pub pending_run : RunSnapshot
pending_run = initial_snapshot "run-1" "2024"

abbrev pub running_run : RunSnapshot
running_run = record pending_run { revision = 1; status = running; attempt = 1 }

abbrev pub succeeded_run : RunSnapshot
succeeded_run = record running_run { revision = 2; status = succeeded }

abbrev pub failed_run : RunSnapshot
failed_run = record running_run {
  revision = 2;
  status = failed;
  error = some (record { code = str "boom"; message = str "it broke"; details = obj end });
}

abbrev pub external_wait : Awaiting
external_wait = record {
  reason = external_condition;
  resume_key = "quota";
  input_required = false;
  request_ref = none;
  response_contract = none;
  details = end;
}

abbrev pub paused_run : RunSnapshot
paused_run = record running_run { revision = 2; status = paused; awaiting = some external_wait }

abbrev or_damaged : Result Fields → JsonFile
or_damaged (ok fs) = holding fs
or_damaged (err e) = damaged

abbrev pub file_of : RunSnapshot → JsonFile
file_of s = or_damaged (encode s)

abbrev pub stop_at : ℕ → StopRequest
stop_at n = record { target_attempt = n; requested_at = "2024"; reason = some "quota" }

abbrev pub run_spec : RunSpec
run_spec = record { run_id = "run-1"; handler = "worker"; semantic_input = end }

abbrev pub test_env : Environment
test_env = record {
  json_sha256 = λ fs. "0a";
  text_sha256 = λ t. t;
  utc_now = λ n. "2025";
  pid = 7;
  process_start_identity = "boot";
  hostname = "host";
  describe = λ e. "error";
  verify_artifact = λ r d. ok tt;
  prepare_recovery = λ spec epoch d. ok (spec.semantic_input, []);
}

abbrev spec_file_of : Result Fields → JsonFile
spec_file_of (ok fs) = holding fs
spec_file_of (err e) = damaged

abbrev pub directory_of : RunSnapshot → RunDirectory
directory_of s = record {
  spec_file = spec_file_of (spec_document test_env run_spec);
  snapshot_file = file_of s;
  stop_files = λ n. absent;
  resume_files = λ k. absent;
  lease_file = absent;
  events = [];
  lease_held = false;
}

abbrev pub stopped_directory_of : RunSnapshot → RunDirectory
stopped_directory_of s = record (directory_of s) {
  stop_files = λ n. if n == s.attempt then holding (request_document (stop_at n)) else absent;
}

-- A handler that returns an outcome or raises, and writes nothing.
abbrev pub handler_of : Result RunOutcome → RunHandler
handler_of r = record { name = "worker"; execute = λ c d. (r, d) }
