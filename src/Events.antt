-- ===== src/Events.antt =====
-- `EventWriter` of packages/ac-jobs/src/ac_jobs/events.py: the log events.jsonl, one JSON document
-- for each line, with gapless sequence numbers.
pub mod Tail
pub mod Sequences
pub mod Caches
pub mod Histories
pub mod Refinement
pub mod Emission
pub mod Emissions
pub mod Recent
pub mod Returned
use ac_foundation.Prelude.{
  Bool, List, Option, String, [], false, if◌then◌else◌, length, ltb, none, not, some, suc, true, ℕ,
  ◌&&◌, ◌++◌, ◌+◌, ◌==◌, ◌||◌, ◌∷◌, ◌≤◌,
}
use ac_foundation.Json.{Fields, JsonValue, end, field, get, int, obj, pos, require_fields, str}
use ac_foundation.Errors.{
  JobsError, Result, corrupt_state, err, ok, raise_if, value_error, ◌>>=◌, ◌>>◌,
}
use ac_foundation.Json.Finite.{finite_json, validate_json_value}
use ac_foundation.Snapshot.Codec.{is_text}
use ac_foundation.Json.Equality.{json_eq}
use ac_foundation.Identity.{validate_simple_id}

-- SHA-256 of a canonical document, and the length of its bytes with the newline.
pub record EventCodec : Type 0 where
  pub json_sha256 : Fields → String
  pub encoded_size : Fields → ℕ
  pub not_empty : (fs : Fields) → 1 ≤ encoded_size fs

-- A complete line: what `json.loads` makes of it, if anything, and its length in bytes.
pub record Line : Type 0 where
  pub document : Option JsonValue
  pub bytes : ℕ

-- The file: its complete lines, the newest first, and how many bytes stand after the last newline.
-- No file is an empty one.
pub record EventFile : Type 0 where
  pub lines : List Line
  pub torn : ℕ

-- `_last_sequence` and `_last_size`, which are set together.
pub record Writer : Type 0 where
  pub run_id : String
  pub last : Option (ℕ × ℕ)

abbrev pub max_event_bytes : ℕ
max_event_bytes = 262144

abbrev event_fields : List String
event_fields =
    "schema_version" ∷ "run_id" ∷ "sequence" ∷ "event_id" ∷ "emitted_at" ∷ "event" ∷ "data" ∷ []

abbrev pub stable_document : String → ℕ → JsonValue → JsonValue → Fields
stable_document run_id sequence event body =
    field "run_id" (str run_id)
      (field "sequence" (int (pos sequence)) (field "event" event (field "data" body end)))

abbrev is_string : JsonValue → Bool
is_string (str t) = true
is_string _ = false

abbrev is_dict : JsonValue → Bool
is_dict (obj fs) = true
is_dict _ = false

-- `_validate_document`
unfoldable pub validate_event : EventCodec → String → Fields → ℕ → Result (Unit {0})
validate_event codec run_id fs expected_sequence = do
  require_fields fs event_fields []
  raise_if (not (is_text "ac.jobs.event.v1" (get "schema_version" fs))) corrupt_state
  raise_if
      (not (is_text run_id (get "run_id" fs))
        || not (json_eq (get "sequence" fs) (int (pos expected_sequence)))
        || not (is_string (get "event_id" fs))
        || not (is_string (get "emitted_at" fs))
        || not (is_string (get "event" fs))
        || not (is_dict (get "data" fs)))
      corrupt_state
  let stable = stable_document run_id expected_sequence (get "event" fs) (get "data" fs)
  raise_if (not (is_text (codec.json_sha256 stable) (get "event_id" fs))) corrupt_state
  raise_if (not (finite_json (get "data" fs))) corrupt_state

abbrev pub line_object : Line → Result Fields
line_object l = elim l.document [ some (obj fs) ↦ ok fs | _ ↦ err corrupt_state ]

-- `_complete_documents` on the complete lines, the newest first; the documents are oldest first.
unfoldable pub documents : EventCodec → String → List Line → Result (List Fields)
documents codec run_id [] = ok []
documents codec run_id (l ∷ ls) = do
  older ← documents codec run_id ls
  fs ← line_object l
  validate_event codec run_id fs (length ls + 1)
  ok (older ++ fs ∷ [])

-- `read_all`: an incomplete last line is left out.
unfoldable pub read_all : EventCodec → String → EventFile → Result (List Fields)
read_all codec run_id file = documents codec run_id file.lines

abbrev pub size_of : List Line → ℕ
size_of [] = 0
size_of (l ∷ ls) = l.bytes + size_of ls

-- `_truncate_incomplete_tail`: the search for the last newline is in Tail.
unfoldable pub truncate_tail : Writer → EventFile → Writer × EventFile
truncate_tail w file =
    if file.torn == 0 then (w, file) else (record w { last = none }, record file { torn = 0 })

abbrev pub sequence_number : JsonValue → Result ℕ
sequence_number (int (pos (suc n))) = ok (suc n)
sequence_number _ = err corrupt_state

-- What `_sequence_at_size` reads at the end of the file.
unfoldable pub last_sequence : EventCodec → String → List Line → Result ℕ
last_sequence codec run_id [] = ok 0
last_sequence codec run_id (l ∷ ls) = do
  raise_if (ltb (max_event_bytes + 1) (l.bytes + size_of ls) && ltb max_event_bytes l.bytes)
      corrupt_state
  fs ← line_object l
  sequence ← sequence_number (get "sequence" fs)
  validate_event codec run_id fs sequence
  ok sequence

abbrev pub remembered : Option (ℕ × ℕ) → ℕ → Option ℕ
remembered none size = none
remembered (some (sequence, last_size)) size = if last_size == size then some sequence else none

unfoldable remember : Writer → ℕ → Result ℕ → Result (ℕ × Writer)
remember w size (err e) = err e
remember w size (ok sequence) = ok (sequence, record w { last = some (sequence, size) })

unfoldable pub read_sequence : EventCodec → Writer → EventFile → Option ℕ → Result (ℕ × Writer)
unfolding remember
read_sequence codec w file (some sequence) = ok (sequence, w)
read_sequence codec w file none =
    remember w (size_of file.lines) (last_sequence codec w.run_id file.lines)

-- `_sequence_at_size`, on a file without an incomplete tail.
unfoldable pub sequence_at_size : EventCodec → Writer → EventFile → Result (ℕ × Writer)
unfolding read_sequence
sequence_at_size codec w file =
    if size_of file.lines == 0
    then ok (0, w)
    else read_sequence codec w file (remembered w.last (size_of file.lines))

-- The document of `_append`.
abbrev pub event_document : EventCodec → String → ℕ → String → String → Fields → Fields
event_document codec run_id sequence emitted_at event body =
    field "schema_version" (str "ac.jobs.event.v1") (
      field "run_id" (str run_id) (
        field "sequence" (int (pos sequence)) (
          field "event_id"
            (str (codec.json_sha256 (stable_document run_id sequence (str event) (obj body))))
            (field "emitted_at" (str emitted_at)
              (field "event" (str event) (field "data" (obj body) end))))))

abbrev pub write_line : EventCodec → Fields → EventFile → EventFile
write_line codec fs file = record file {
  lines = record { document = some (obj fs); bytes = codec.encoded_size fs } ∷ file.lines;
}

-- How the write of an encoded line ends: with `fsync`, with an exception when the whole line is in the
-- file, or with one when only these bytes of it are.
pub data Writing : Type 0 where
  synced : Writing
  unsynced : JobsError → Writing
  cut : ℕ → JobsError → Writing

-- The end of `_append`, once the sequence number of the last event is known.
unfoldable pub write_event :
    EventCodec
    → Writing
    → String
    → String
    → Fields
    → EventFile
    → Writer
    → Result (ℕ × Writer)
    → Result Fields × Writer × EventFile
write_event codec writing emitted_at event body file w (err e) = (err e, w, file)
write_event codec writing emitted_at event body file w (ok (last, v)) =
    let fs = event_document codec v.run_id (last + 1) emitted_at event body in
    let size = codec.encoded_size fs in
    if ltb max_event_bytes size then (err value_error, v, file) else (elim writing [
      | synced ↦ (
        ok fs,
        record v { last = some (last + 1, size_of file.lines + size) },
        write_line codec fs file,
      )
      | unsynced e ↦ (err e, v, write_line codec fs file)
      | cut bytes e ↦ (err e, v, record file { torn = bytes })
    ])

abbrev check_event : String → Fields → Result (Unit {0})
check_event event body = do _ ← validate_simple_id event; validate_json_value (obj body)

unfoldable append_checked :
    EventCodec
    → Writing
    → Writer
    → String
    → String
    → Fields
    → EventFile
    → Result (Unit {0})
    → Result Fields × Writer × EventFile
append_checked codec writing w emitted_at event body file (err e) = (err e, w, file)
append_checked codec writing w emitted_at event body file (ok t) =
    let (v, f) = truncate_tail w file in
    write_event codec writing emitted_at event body f v (sequence_at_size codec v f)

-- `_append`, under its lock: the document, the writer and the file afterwards.
unfoldable pub append :
    EventCodec
    → Writing
    → Writer
    → String
    → String
    → Fields
    → EventFile
    → Result Fields × Writer × EventFile
unfolding append_checked
append codec writing w emitted_at event body file =
    append_checked codec writing w emitted_at event body file (check_event event body)
