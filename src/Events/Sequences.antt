-- ===== src/Events/Sequences.antt =====
-- The log that packages/ac-jobs/src/ac_jobs/events.py keeps: what a well-formed list of lines is,
-- and what `_complete_documents` and `_sequence_at_size` read of one.
use ac_foundation.Events.{
  EventCodec, Line, documents, last_sequence, line_object, max_event_bytes, validate_event,
  sequence_number, size_of,
}
use ac_foundation.Json.{Fields, JsonValue, end, get, int, obj, pos}
use ac_foundation.Prelude.{
  List, String, [], arith, true, length, refl, some, suc, zero, ℕ, ◌++◌, ◌+◌, ◌∷◌, ◌≡◌, ◌≤◌, ap,
  false, ltb, map, ◌&&◌, map-append, length-append,
}
use ac_foundation.Errors.{ok}
use ac_foundation.Json.Finite.{finite_json}

-- The line holds a document of the log with the number `sequence`.
pub record IsEvent (codec : EventCodec) (run_id : String) (l : Line) (sequence : ℕ) : Type 0 where
  pub fields : Fields
  pub reads : line_object l ≡ ok fields
  pub valid : validate_event codec run_id fields sequence ≡ ok tt
  pub numbered : get "sequence" fields ≡ int (pos sequence)
  pub some_bytes : 1 ≤ l.bytes
  pub within : l.bytes ≤ max_event_bytes
  pub finite : finite_json (obj fields) ≡ true

-- Complete lines, the newest first, that number their documents from 1 without a gap.
abbrev pub IsLog : EventCodec → String → List Line → Type 0
IsLog codec run_id [] = Unit
IsLog codec run_id (l ∷ ls) = IsEvent codec run_id l (length ls + 1) × IsLog codec run_id ls

abbrev pub number_of : Fields → JsonValue
number_of fs = get "sequence" fs

-- 1, 2, ..., n
abbrev pub numbers_to : ℕ → List JsonValue
numbers_to zero = []
numbers_to (suc n) = numbers_to n ++ int (pos (suc n)) ∷ []

-- The document of every line, the oldest first.
abbrev pub read_line : Line → Fields
read_line l = elim l.document [ some (obj fs) ↦ fs | _ ↦ end ]

abbrev pub read_lines : List Line → List Fields
read_lines [] = []
read_lines (l ∷ ls) = read_lines ls ++ read_line l ∷ []

pub line_object-read_line : (l : Line) (fs : Fields) → line_object l ≡ ok fs → read_line l ≡ fs
line_object-read_line l fs h = ground arith

within_limit :
    (l : Line) (older : ℕ)
    → l.bytes ≤ max_event_bytes
    → (ltb (max_event_bytes + 1) (l.bytes + older) && ltb max_event_bytes l.bytes) ≡ false
within_limit l older h = ground arith

sequence_number-above : (n : ℕ) → sequence_number (int (pos (n + 1))) ≡ ok (n + 1)
sequence_number-above n = ground arith

pub length-read_lines : (ls : List Line) → length (read_lines ls) ≡ length ls
length-read_lines [] = refl
length-read_lines (l ∷ ls) =
    rw (length-append (read_lines ls) (read_line l ∷ [])) (omega (arith, length-read_lines ls))

module _ (codec : EventCodec) (run_id : String) where
  -- `_complete_documents` reads a log back.
  pub documents-read_lines :
      (ls : List Line) → IsLog codec run_id ls → documents codec run_id ls ≡ ok (read_lines ls)
  unfolding documents
  documents-read_lines [] h = refl
  documents-read_lines (l ∷ ls) (e, h) =
      rw (documents-read_lines ls h)
        (rw e.reads (rw e.valid (rw (line_object-read_line l e.fields e.reads) refl)))

  -- `_sequence_at_size` finds the number of the last line.
  pub last_sequence-length :
      (ls : List Line) → IsLog codec run_id ls → last_sequence codec run_id ls ≡ ok (length ls)
  unfolding last_sequence
  last_sequence-length [] h = refl
  last_sequence-length (l ∷ ls) (e, h) = rw (within_limit l (size_of ls) e.within) (
      rw e.reads
        (rw e.numbered (rw (sequence_number-above (length ls)) (rw e.valid (ap ok (omega arith))))))

  -- The numbers are gapless.
  pub numbers-numbers_to :
      (ls : List Line)
      → IsLog codec run_id ls
      → map number_of (read_lines ls) ≡ numbers_to (length ls)
  numbers-numbers_to [] h = refl
  numbers-numbers_to (l ∷ ls) (e, h) =
      rw (map-append number_of (read_lines ls) (read_line l ∷ [])) (
        rw (numbers-numbers_to ls h) (
          rw (line_object-read_line l e.fields e.reads)
            (rw e.numbered (ap (λ n. numbers_to (length ls) ++ int (pos n) ∷ []) (omega arith)))))
