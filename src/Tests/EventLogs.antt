-- ===== src/Tests/EventLogs.antt =====
-- An event log with two writers, one of which dies while it writes.
use ac_foundation.Events.Emission.{report_failure}
use ac_foundation.Events.Refinement.{event_of, logged}
use ac_foundation.Repository.Directory.{Event}
use ac_foundation.Events.{
  EventCodec, append, read_all, last_sequence, sequence_at_size, truncate_tail, validate_event,
  write_event, Line, size_of, Writing, synced, unsynced,
}
use ac_foundation.Json.{Fields, end, field, int, pos, obj}
use ac_foundation.Events.Histories.{
  History, Log, after_append, append_by, appended, died, empty_file, new, read_all-accepted,
  read_all-gapless,
}
use ac_foundation.Prelude.{
  List, [], arith, length, map, none, refl, subst, ◌∷◌, ◌≡◌, append-nil, false, sym, true, ◌++◌,
  ◌⊎◌, some, ◌+◌, ◌≤◌,
}
use ac_foundation.Events.Tail.{complete_length, truncated_size, truncated_size-complete_length}
use ac_foundation.Events.Sequences.{number_of, numbers_to}
use ac_foundation.Errors.{ok, base_exception, err, invalid_run_id, os_error}
use ac_foundation.Json.Finite.{finite_json}
use ac_foundation.Json.Equality.{json_eq}
use ac_foundation.Identity.{validate_simple_id}
use ac_foundation.Events.Emission.{Emitter, EventSink, emit_event, after_emit, handle_sink}
use ac_foundation.Events.Emissions.{emit_event-raises, read_all-emit_event, IsSteady}
use ac_foundation.Events.Recent.{max_tail_bytes, read_tail, read_tail-read_all, read_tail-suffix}

abbrev short_lines : EventCodec
short_lines = record {
  json_sha256 = λ fs. "digest";
  encoded_size = λ fs. 10;
  not_empty = λ fs. omega arith;
}

abbrev started : Fields
started = field "attempt" (int (pos 1)) end

abbrev no_events : Log
no_events = record { file = empty_file; memory = λ i. none }

-- The first writer appends; the second dies with three bytes written; the first appends again, but the
-- disk fails when its line is complete.
abbrev one_event : Log
one_event =
    after_append 0 no_events
      (append_by short_lines synced "run" 0 "noon" "started" started no_events)

abbrev torn_log : Log
torn_log = record one_event { file = record one_event.file { torn = 3 } }

abbrev disk_fails : Writing
disk_fails = unsynced os_error

abbrev two_events : Log
two_events =
    after_append 0 torn_log (append_by short_lines disk_fails "run" 0 "one" "ended" end torn_log)

abbrev both : List Event
both = record { name = "started"; body = started } ∷ record { name = "ended"; body = end } ∷ []

two_appends :
    History short_lines "run"
      (logged disk_fails "ended" end
        (logged synced "started" started []
          (append_by short_lines synced "run" 0 "noon" "started" started no_events).0)
        (append_by short_lines synced "run" 0 "one" "ended" end torn_log).0)
      two_events
two_appends =
    appended (died (appended new synced 0 "noon" "started" started) 3) disk_fails 0 "one" "ended"
      end

are_both :
    logged disk_fails "ended" end
      (logged synced "started" started []
        (append_by short_lines synced "run" 0 "noon" "started" started no_events).0)
      (append_by short_lines synced "run" 0 "one" "ended" end torn_log).0
    ≡ both
unfolding append validate_simple_id finite_json write_event sequence_at_size truncate_tail
    last_sequence validate_event json_eq
are_both = refl

second_raises :
    (append_by short_lines disk_fails "run" 0 "one" "ended" end torn_log).0 ≡ err os_error
unfolding append validate_simple_id finite_json write_event sequence_at_size truncate_tail
    last_sequence validate_event json_eq
second_raises = refl

both-History : History short_lines "run" both two_events
both-History = subst (λ es. History short_lines "run" es two_events) are_both two_appends

read_all-accepted_example :
    (ds : List Fields) × (read_all short_lines "run" two_events.file ≡ ok ds)
    × (map event_of ds ≡ both)
read_all-accepted_example = read_all-accepted short_lines "run" both-History

read_all-gapless_example :
    (ds : List Fields) × (read_all short_lines "run" two_events.file ≡ ok ds)
    × (map number_of ds ≡ numbers_to (length ds))
read_all-gapless_example = read_all-gapless short_lines "run" both-History

truncated_size-complete_length_example :
    truncated_size 2 (65 ∷ 10 ∷ 66 ∷ 67 ∷ 68 ∷ []) ≡ complete_length (65 ∷ 10 ∷ 66 ∷ 67 ∷ 68 ∷ [])
truncated_size-complete_length_example =
    truncated_size-complete_length 2 (65 ∷ 10 ∷ 66 ∷ 67 ∷ 68 ∷ []) (omega arith)

two_bytes : truncated_size 2 (65 ∷ 10 ∷ 66 ∷ 67 ∷ 68 ∷ []) ≡ 2
unfolding truncated_size
two_bytes = refl

-- The second writer emits an event to a sink that raises.
abbrev failing_sink : EventSink
failing_sink = record { deliver = λ fs log. (err os_error, log); error_type = λ e. "OSError" }

abbrev second_writer : Emitter
second_writer = record {
  writer = 1;
  emitted_at = "two";
  event_write = synced;
  reported_at = "three";
  report_write = synced;
}

alone : IsSteady short_lines "run" failing_sink
alone document fs l h = ([], subst (λ gs. History short_lines "run" gs l) (sym (append-nil fs)) h)

read_all-emit_event_example :
    (ds : List Fields) × (later : List Event) × (read_all short_lines "run"
        (emit_event short_lines "run" failing_sink second_writer "noted" end false
          two_events).2.file
      ≡ ok ds)
    × (map event_of ds
        ≡ logged synced "noted" end both
            (append_by short_lines synced "run" 1 "two" "noted" end two_events).0
          ++ later)
read_all-emit_event_example =
    read_all-emit_event short_lines "run" failing_sink second_writer "noted" end false alone
      both-History

-- Without a sink's failure on record, the failure is reported; the caller sees nothing of it.
sink_failure_reported :
    let out =
      emit_event short_lines "run" failing_sink second_writer "noted" end false two_events in
    (out.0 ≡ ok tt) × (out.1 ≡ true) × (length out.2.file.lines ≡ 4)
unfolding emit_event after_emit append validate_simple_id finite_json write_event sequence_at_size
    truncate_tail last_sequence validate_event json_eq handle_sink report_failure
sink_failure_reported = (refl, refl, refl)

sink_failure_once :
    let out = emit_event short_lines "run" failing_sink second_writer "noted" end true two_events in
    (out.0 ≡ ok tt) × (out.1 ≡ true) × (length out.2.file.lines ≡ 3)
unfolding emit_event after_emit append validate_simple_id finite_json write_event sequence_at_size
    truncate_tail last_sequence validate_event json_eq handle_sink
sink_failure_once = (refl, refl, refl)

-- A name that is no simple id is refused by the append.
refused_event :
    (emit_event short_lines "run" failing_sink second_writer "" end false two_events).0
    ≡ err invalid_run_id
unfolding emit_event after_emit append validate_simple_id
refused_event = refl

emit_event-raises_example :
    ((append_by short_lines synced "run" 1 "two" "" end two_events).0 ≡ err invalid_run_id)
    ⊎ (invalid_run_id ≡ base_exception)
emit_event-raises_example =
    emit_event-raises short_lines "run" failing_sink second_writer "" end false two_events
      invalid_run_id refused_event

read_tail-suffix_example :
    (older : List Fields) × (read_all short_lines "run" two_events.file
      ≡ ok (older ++ read_tail two_events.file))
read_tail-suffix_example = read_tail-suffix short_lines "run" both-History

two_small : size_of two_events.file.lines + two_events.file.torn ≤ max_tail_bytes
unfolding append validate_simple_id finite_json write_event sequence_at_size truncate_tail
    last_sequence validate_event json_eq
two_small = omega arith

read_tail-read_all_example :
    read_all short_lines "run" two_events.file ≡ ok (read_tail two_events.file)
read_tail-read_all_example = read_tail-read_all short_lines "run" both-History two_small

-- A damaged line is passed over, and of a log of more than a megabyte the oldest lines are.
abbrev damaged_line : Line
damaged_line = record { document = none; bytes = 7 }

abbrev long_line : Line
long_line = record { document = some (obj started); bytes = 600000 }

damaged_passed_over :
    read_tail (record { lines = long_line ∷ damaged_line ∷ []; torn = 0 }) ≡ started ∷ []
unfolding read_tail finite_json
damaged_passed_over = refl

old_passed_over : read_tail (record { lines = long_line ∷ long_line ∷ []; torn = 0 }) ≡ started ∷ []
unfolding read_tail finite_json
old_passed_over = refl
