-- ===== src/Tests/Runs.antt =====
-- Attempts of concrete runs, and what the theorems on the engine say of them.
use ac_foundation.Prelude.{All, List, [], none, refl, some, ℕ, ◌∷◌, ◌≡◌}
use ac_foundation.Snapshot.Store.History.{Extends, no_write}
use ac_foundation.Json.{Fields, end}
use ac_foundation.Engine.Operations.{
  IsHonest, Operation, executing, perform_all, perform_all-Extends, perform_all-succeeded, resuming,
  stopping,
}
use ac_foundation.Errors.{Result, err, foreign, ok, stopped}
use ac_foundation.Repository.Directory.{RunDirectory}
use ac_foundation.Engine.{RunHandler}
use ac_foundation.Models.{RunOutcome, RunSnapshot, StopRequest, succeeded_with}
use ac_foundation.Engine.Persistence.{WritesValidly}
use ac_foundation.Storage.{absent, holding}
use ac_foundation.Tests.Fixtures.{
  directory_of, file_of, handler_of, pending_run, run_spec, stop_at, succeeded_run, test_env,
}
use ac_foundation.Stopping.Laws.{first_request_stands}
use ac_foundation.Stopping.{raise_if_requested, read_stop, request_document, request_stop_file}
use ac_foundation.Snapshot.Store.{read}
use ac_foundation.Repository.{spec_document}
use ac_foundation.Identity.{validate_simple_id}
use ac_foundation.Tests.Reads.{pending_found, succeeded_found}

first_request :
    request_stop_file absent 1 "2024" (some "quota")
    ≡ ok (holding (request_document (stop_at 1)), stop_at 1)
unfolding request_stop_file read_stop
first_request = refl

first_request_stands_example :
    let file = holding (request_document (stop_at 1)) in
    (read_stop file 1 ≡ ok (some (stop_at 1)))
    × (raise_if_requested file 1 ≡ err stopped)
    × (request_stop_file file 1 "2030" none ≡ ok (file, stop_at 1))
first_request_stands_example =
    first_request_stands absent 1 "2024" "2030" (some "quota") none first_request

abbrev empty_directory : RunDirectory
empty_directory = record (directory_of pending_run) { spec_file = absent; snapshot_file = absent }

abbrev fields_of_result : Result Fields → Fields
fields_of_result (ok fs) = fs
fields_of_result (err e) = end

spec_encodes :
    spec_document test_env run_spec ≡ ok (fields_of_result (spec_document test_env run_spec))
unfolding spec_document validate_simple_id
spec_encodes = refl

abbrev new_stop : StopRequest
new_stop = record { target_attempt = 1; requested_at = "2025"; reason = some "enough" }

stop_written :
    request_stop_file absent 1 "2025" (some "enough")
    ≡ ok (holding (request_document new_stop), new_stop)
unfolding request_stop_file read_stop
stop_written = refl

abbrev succeeding : RunHandler
succeeding = handler_of (ok (succeeded_with none))

quiet : (r : Result RunOutcome) → WritesValidly (handler_of r)
quiet r = record { keeps = λ c. record { at = λ d. no_write } }

abbrev operations : List Operation
operations =
    executing run_spec succeeding
    ∷ stopping (λ d. d) (some "late")
    ∷ resuming "run-1" (handler_of (err (foreign "no"))) none
    ∷ []

operations-IsHonest : All IsHonest operations
operations-IsHonest = (quiet _, (record { at = λ d. no_write }, (quiet _, tt)))

perform_all-Extends_example :
    (n : ℕ) × (s : RunSnapshot) × (read
        (perform_all test_env operations (directory_of pending_run)).snapshot_file
      ≡ ok s)
    × Extends pending_run s n
perform_all-Extends_example =
    perform_all-Extends test_env operations (directory_of pending_run) pending_run pending_found
      operations-IsHonest

perform_all-succeeded_example :
    (perform_all test_env operations (directory_of succeeded_run)).snapshot_file
    ≡ file_of succeeded_run
perform_all-succeeded_example =
    perform_all-succeeded test_env operations (directory_of succeeded_run) succeeded_run
      succeeded_found refl operations-IsHonest
