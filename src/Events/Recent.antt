-- ===== src/Events/Recent.antt =====
-- `tail` of packages/ac-jobs/src/ac_jobs/events.py: the documents of the last megabyte of a log,
-- without its damaged lines. A line has no carriage return.
use ac_foundation.Prelude.{
  Bool-cases, List, String, [], append-nil, append_assoc, arith, if◌then◌else◌, inl, inr, length,
  ltb, refl, some, sym, ℕ, ◌++◌, ◌+◌, ◌-◌, ◌∷◌, ◌≡◌, ap, false, ◌∙◌, ◌≤◌,
}
use ac_foundation.Events.{EventCodec, EventFile, Line, size_of, read_all}
use ac_foundation.Json.{Fields, obj}
use ac_foundation.Events.Sequences.{IsEvent, IsLog, read_line, read_lines, documents-read_lines}
use ac_foundation.Json.Finite.{finite_json}
use ac_foundation.Repository.Directory.{Event}
use ac_foundation.Events.Histories.{History, History-Holds, Log}
use ac_foundation.Errors.{ok}

abbrev pub max_tail_bytes : ℕ
max_tail_bytes = 1048576

-- What the loop of `tail` appends for a line.
abbrev pub line_dict : Line → List Fields
line_dict l = elim l.document [
  | some (obj fs) ↦ if finite_json (obj fs) then fs ∷ [] else []
  | _ ↦ []
]

-- The documents of lines that stand the newest first; they are the oldest first.
abbrev pub line_dicts : List Line → List Fields
line_dicts [] = []
line_dicts (l ∷ ls) = line_dicts ls ++ line_dict l

-- The complete lines that begin after the position `p`: `handle.seek(p)` and `handle.readline()` skip
-- the line that has the byte at `p`.
unfoldable pub lines_after : ℕ → List Line → List Line
lines_after p [] = []
lines_after p (l ∷ ls) = let rest = lines_after p ls in if ltb p (size_of ls) then l ∷ rest else []

unfoldable pub tail_lines : EventFile → ℕ → List Line
unfolding lines_after
tail_lines file size =
    if ltb max_tail_bytes size then lines_after (size - max_tail_bytes) file.lines else file.lines

-- `tail`: an incomplete last line is left out.
unfoldable pub read_tail : EventFile → List Fields
unfolding tail_lines
read_tail file = line_dicts (tail_lines file (size_of file.lines + file.torn))

within : (size : ℕ) → size ≤ max_tail_bytes → ltb max_tail_bytes size ≡ false
within size h = ground (arith, h)

module _ (codec : EventCodec) (run_id : String) where
  line_dict-read_line :
      (l : Line) (n : ℕ) → IsEvent codec run_id l n → line_dict l ≡ read_line l ∷ []
  line_dict-read_line l n e = ground (arith, e.reads, e.finite)

  line_dicts-read_lines : (ls : List Line) → IsLog codec run_id ls → line_dicts ls ≡ read_lines ls
  line_dicts-read_lines [] h = refl
  line_dicts-read_lines (l ∷ ls) (e, h) =
      rw (line_dicts-read_lines ls h) (rw (line_dict-read_line l (length ls + 1) e) refl)

  lines_after-suffix :
      (p : ℕ) (ls : List Line)
      → IsLog codec run_id ls
      → (older : List Fields) × (read_lines ls ≡ older ++ line_dicts (lines_after p ls))
  unfolding lines_after
  lines_after-suffix p [] h = ([], refl)
  lines_after-suffix p (l ∷ ls) (e, h) = elim (Bool-cases (ltb p (size_of ls))) [
    | inl y ↦
        let (older, q) = lines_after-suffix p ls h in
        (
          older,
          rw y (
              rw (line_dict-read_line l (length ls + 1) e)
                (rw q (append_assoc older (line_dicts (lines_after p ls)) (read_line l ∷ [])))),
        )
    | inr n ↦ (
      read_lines ls ++ read_line l ∷ [],
      rw n (sym (append-nil (read_lines ls ++ read_line l ∷ []))),
    )
  ]

  tail_lines-suffix :
      (file : EventFile) (size : ℕ)
      → IsLog codec run_id file.lines
      → (older : List Fields) × (read_lines file.lines ≡ older ++ line_dicts (tail_lines file size))
  unfolding tail_lines
  tail_lines-suffix file size h = elim (Bool-cases (ltb max_tail_bytes size)) [
    | inl y ↦ rw y (lines_after-suffix (size - max_tail_bytes) file.lines h)
    | inr n ↦ rw n ([], sym (line_dicts-read_lines file.lines h))
  ]

  -- However many writers append to a log, die and start again, `tail` returns the last of the
  -- documents that `read_all` returns, in their order.
  pub read_tail-suffix :
      {es : List Event} {log : Log}
      → History codec run_id es log
      → (older : List Fields) × (read_all codec run_id log.file ≡ ok (older ++ read_tail log.file))
  unfolding read_all read_tail
  read_tail-suffix {log} h =
      let w = History-Holds codec run_id h in
      let (older, e) = tail_lines-suffix log.file (size_of log.file.lines + log.file.torn) w.well in
      (older, documents-read_lines codec run_id log.file.lines w.well ∙ ap ok e)

  -- `tail` returns what `read_all` returns, while the file has at most a megabyte.
  pub read_tail-read_all :
      {es : List Event} {log : Log}
      → History codec run_id es log
      → size_of log.file.lines + log.file.torn ≤ max_tail_bytes
      → read_all codec run_id log.file ≡ ok (read_tail log.file)
  unfolding read_all read_tail tail_lines
  read_tail-read_all {log} h small =
      let w = History-Holds codec run_id h in
      rw (within (size_of log.file.lines + log.file.torn) small) (
        documents-read_lines codec run_id log.file.lines w.well
        ∙ ap ok (sym (line_dicts-read_lines log.file.lines w.well)))
