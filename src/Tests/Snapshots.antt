-- ===== src/Tests/Snapshots.antt =====
-- Records and their files, and what the theorems on them say of a concrete run.
use ac_foundation.Snapshot.Store.History.{
  Extends, Writes, no_write, one_more, second_writer-conflict, writes-Extends, count,
}
use ac_foundation.Json.{Fields, end}
use ac_foundation.Errors.{Result, err, ok, revision_conflict}
use ac_foundation.Models.{RunSnapshot}
use ac_foundation.Snapshot.Store.Laws.{Written, compare_and_swap-Written}
use ac_foundation.Snapshot.Store.{compare_and_swap, read}
use ac_foundation.Snapshot.Codec.{
  decode, encode, awaiting_json, decode_awaiting, decode_error, decode_ref, error_json, ref_json,
}
use ac_foundation.Snapshot.Codec.RoundTrip.{decode-encode}
use ac_foundation.Prelude.{false, refl, ◌≡◌}
use ac_foundation.Tests.Fixtures.{file_of, paused_run, pending_run, running_run, succeeded_run}
use ac_foundation.Snapshot.{validate, validate_shape, validate_awaiting, validate_step}
use ac_foundation.Identity.{validate_simple_id}

pending_reads : read (file_of pending_run) ≡ ok pending_run
unfolding read decode encode awaiting_json ref_json error_json decode_error decode_awaiting
    decode_ref validate validate_shape validate_simple_id
pending_reads = refl

first_step :
    compare_and_swap (file_of pending_run) 0 running_run ≡ ok (file_of running_run, running_run)
unfolding compare_and_swap validate read decode encode awaiting_json ref_json error_json
    decode_error decode_awaiting decode_ref validate_shape validate_simple_id validate_step
first_step = refl

last_step :
    compare_and_swap (file_of running_run) 1 succeeded_run
    ≡ ok (file_of succeeded_run, succeeded_run)
unfolding compare_and_swap validate read decode encode awaiting_json ref_json error_json
    decode_error decode_awaiting decode_ref validate_shape validate_simple_id validate_step
last_step = refl

two_writes : Writes (file_of pending_run) (file_of succeeded_run)
two_writes =
    one_more (one_more no_write 0 running_run running_run first_step) 1 succeeded_run succeeded_run
      last_step

paused_shape : validate_shape paused_run false ≡ ok tt
unfolding validate_shape validate_simple_id validate_awaiting
paused_shape = refl

abbrev fields_of : Result Fields → Fields
fields_of (ok fs) = fs
fields_of (err e) = end

paused_encodes : encode paused_run ≡ ok (fields_of (encode paused_run))
unfolding encode awaiting_json ref_json error_json
paused_encodes = refl

decode-encode_example : decode (fields_of (encode paused_run)) ≡ ok paused_run
decode-encode_example = decode-encode paused_run paused_shape paused_encodes

compare_and_swap-Written_example :
    (previous : RunSnapshot) × (read (file_of pending_run) ≡ ok previous)
    × Written previous running_run 0 (file_of running_run)
    × (running_run ≡ running_run)
compare_and_swap-Written_example =
    compare_and_swap-Written (file_of pending_run) 0 running_run first_step

writes-Extends_example :
    (s : RunSnapshot) × (read (file_of succeeded_run) ≡ ok s)
    × Extends pending_run s (count two_writes)
writes-Extends_example = writes-Extends pending_run pending_reads two_writes

succeeded_reads : read (file_of succeeded_run) ≡ ok succeeded_run
unfolding read decode encode awaiting_json ref_json error_json decode_error decode_awaiting
    decode_ref validate validate_shape validate_simple_id
succeeded_reads = refl

second_writer-conflict_example :
    compare_and_swap (file_of running_run) 0 paused_run ≡ err revision_conflict
second_writer-conflict_example =
    second_writer-conflict (file_of pending_run) 0 running_run paused_run first_step
