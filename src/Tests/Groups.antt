-- ===== src/Tests/Groups.antt =====
-- The worker target of a concrete group.
use ac_foundation.Workers.{
  GroupWorkerControl, initialize_group_workers, set_group_workers, validate_control,
  worker_contract, decode_control, encode_control, loop_rounds,
}
use ac_foundation.Storage.{JsonFile, absent, holding}
use ac_foundation.Errors.{Result, ok}
use ac_foundation.Storage.State.Laws.{RoundTrips}
use ac_foundation.Prelude.{arith, refl, some, ℕ, ◌≡◌}
use ac_foundation.Storage.State.{encode_state, read_state, swap_state, decode_state, create_state}
use ac_foundation.Workers.Rounds.{initialize_ends}
use ac_foundation.Identity.{validate_simple_id, matches_simple_id}

abbrev four_of_eight : GroupWorkerControl
four_of_eight = record { group_id = "cells"; revision = 0; target_workers = 4; capacity = 8 }

abbrev group_file : GroupWorkerControl → JsonFile
group_file c = holding (encode_state worker_contract c)

-- Nobody else touches the file.
abbrev alone : ℕ → JsonFile → JsonFile
alone i file = file

initialized :
    initialize_group_workers alone 1 "cells" 4 8 absent
    ≡ some (ok (group_file four_of_eight, four_of_eight))
unfolding initialize_group_workers matches_simple_id loop_rounds read_state create_state
    validate_control
initialized = refl

initialize_ends_example :
    (r : Result (JsonFile × GroupWorkerControl)) × (initialize_group_workers alone 1 "cells" 4 8
        absent
      ≡ some r)
initialize_ends_example =
    initialize_ends alone 0 1 "cells" 4 8 absent (record { quiet = λ i file h. refl }) (omega arith)

abbrev six_of_eight : GroupWorkerControl
six_of_eight = record four_of_eight { revision = 1; target_workers = 6 }

changed :
    set_group_workers alone 1 "cells" 6 (group_file four_of_eight)
    ≡ some (ok (group_file six_of_eight, four_of_eight, six_of_eight))
unfolding set_group_workers matches_simple_id loop_rounds read_state decode_state decode_control
    encode_control validate_simple_id swap_state validate_control
changed = refl

swapped :
    swap_state worker_contract (group_file four_of_eight) 0 six_of_eight
    ≡ ok (group_file six_of_eight, six_of_eight)
unfolding swap_state read_state decode_state decode_control encode_control validate_simple_id
    validate_control
swapped = refl

six-RoundTrips : RoundTrips worker_contract six_of_eight
unfolding decode_control encode_control validate_simple_id
six-RoundTrips = record { decoded = refl }
