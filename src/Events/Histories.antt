-- ===== src/Events/Histories.antt =====
-- Many writers of one events.jsonl (packages/ac-jobs/src/ac_jobs/events.py): processes that append
-- under the lock, start, and die while they write.
use ac_foundation.Prelude.{
  Bool-cases, List, Option, String, [], if◌then◌else◌, inl, inr, length, map, none, refl, ℕ, ◌==◌,
  ◌≡◌, ap, ◌∙◌,
}
use ac_foundation.Repository.Directory.{Event}
use ac_foundation.Events.{EventCodec, EventFile, Line, Writer, append, read_all, Writing, synced}
use ac_foundation.Json.{Fields}
use ac_foundation.Events.Sequences.{
  IsLog, documents-read_lines, number_of, numbers_to, read_lines, length-read_lines,
  numbers-numbers_to,
}
use ac_foundation.Events.Caches.{Knows, nothing}
use ac_foundation.Events.Refinement.{append-Appends, contents, event_of, logged}
use ac_foundation.Errors.{Result, ok}

-- The file, and what each writer remembers of it.
pub record Log : Type 0 where
  pub file : EventFile
  pub memory : ℕ → Option (ℕ × ℕ)

abbrev pub empty_file : EventFile
empty_file = record { lines = []; torn = 0 }

abbrev pub set_memory : (ℕ → Option (ℕ × ℕ)) → ℕ → Option (ℕ × ℕ) → ℕ → Option (ℕ × ℕ)
set_memory memory i last j = if j == i then last else memory j

-- What one call of `_append` by the writer `i` returns and leaves, when its write ends so.
abbrev pub append_by :
    EventCodec
    → Writing
    → String
    → ℕ
    → String
    → String
    → Fields
    → Log
    → Result Fields × Writer × EventFile
append_by codec writing run_id i emitted_at event body log =
    append codec writing (record { run_id = run_id; last = log.memory i }) emitted_at event body
      log.file

abbrev pub after_append : ℕ → Log → Result Fields × Writer × EventFile → Log
after_append i log (r, w, file) = record { file = file; memory = set_memory log.memory i w.last }

-- The logs that writers reach, with the events whose lines were completed so far. A writer that dies
-- when its line is complete is an append whose write is `unsynced`, and then `opened`.
pub data History (codec : EventCodec) (run_id : String) : List Event → Log → Type 0 where
  new : History codec run_id [] (record { file = empty_file; memory = λ i. none })
  appended :
      {es : List Event} {log : Log}
      → History codec run_id es log
      → (writing : Writing) (i : ℕ) (emitted_at event : String) (body : Fields)
      → History codec run_id
          (logged writing event body es
            (append_by codec synced run_id i emitted_at event body log).0)
          (after_append i log (append_by codec writing run_id i emitted_at event body log))
  -- A writer dies with some bytes of its line written.
  died :
      {es : List Event} {log : Log}
      → History codec run_id es log
      → (bytes : ℕ)
      → History codec run_id es (record log { file = record log.file { torn = bytes } })
  -- A process opens the log.
  opened :
      {es : List Event} {log : Log}
      → History codec run_id es log
      → (i : ℕ) → History codec run_id es (record log { memory = set_memory log.memory i none })

pub record Holds (codec : EventCodec) (run_id : String) (es : List Event) (log : Log) : Type 0 where
  pub well : IsLog codec run_id log.file.lines
  knows : (i : ℕ) → Knows log.file.lines (log.memory i)
  same : contents log.file.lines ≡ es

set_memory-Knows :
    (ls : List Line) (memory : ℕ → Option (ℕ × ℕ)) (i : ℕ) (last : Option (ℕ × ℕ))
    → ((j : ℕ) → Knows ls (memory j))
    → Knows ls last
    → (j : ℕ) → Knows ls (set_memory memory i last j)
set_memory-Knows ls memory i last h k j = elim (Bool-cases (j == i)) [
  | inl y ↦ rw y k
  | inr n ↦ rw n (h j)
]

module _ (codec : EventCodec) (run_id : String) where
  pub History-Holds :
      {es : List Event} {log : Log} → History codec run_id es log → Holds codec run_id es log
  History-Holds new = record { well = tt; knows = λ i. nothing; same = refl }
  History-Holds (appended {es} {log} h writing i emitted_at event body) =
      let w = History-Holds h in
      let a =
        append-Appends codec run_id writing (log.memory i) emitted_at event body log.file w.well
          (w.knows i) in
      record {
        well = a.log;
        knows = set_memory-Knows _ log.memory i _ (λ j. a.others (w.knows j)) a.knows;
        same =
            a.outcome
            ∙ ap
                (λ fs.
                  logged writing event body fs
                    (append_by codec synced run_id i emitted_at event body log).0)
                w.same;
      }
  History-Holds (died h bytes) =
      let w = History-Holds h in record { well = w.well; knows = w.knows; same = w.same }
  History-Holds (opened {es} {log} h i) =
      let w = History-Holds h in
      record {
        well = w.well;
        knows = set_memory-Knows _ log.memory i none w.knows nothing;
        same = w.same;
      }

  -- However many writers append, die and start again, `read_all` returns the events whose lines were
  -- completed, in the order of the appends: those whose append returned, and those whose append raised
  -- or whose writer died only after the line was complete.
  pub read_all-accepted :
      {es : List Event} {log : Log}
      → History codec run_id es log
      → (ds : List Fields) × (read_all codec run_id log.file ≡ ok ds) × (map event_of ds ≡ es)
  unfolding read_all
  read_all-accepted {log} h =
      let w = History-Holds h in
      (read_lines log.file.lines, documents-read_lines codec run_id log.file.lines w.well, w.same)

  -- However many writers append, die and start again, the numbers of the documents that `read_all`
  -- returns are 1, 2, and so on without a gap.
  pub read_all-gapless :
      {es : List Event} {log : Log}
      → History codec run_id es log
      → (ds : List Fields) × (read_all codec run_id log.file ≡ ok ds)
        × (map number_of ds ≡ numbers_to (length ds))
  unfolding read_all
  read_all-gapless {log} h =
      let w = History-Holds h in
      (
        read_lines log.file.lines,
        documents-read_lines codec run_id log.file.lines w.well,
        rw (length-read_lines log.file.lines)
            (numbers-numbers_to codec run_id log.file.lines w.well),
      )
