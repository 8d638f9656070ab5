-- ===== src/Events/Caches.antt =====
-- `_last_sequence` and `_last_size` of packages/ac-jobs/src/ac_jobs/events.py: what a writer
-- remembers of a log that others append to.
use ac_foundation.Events.{
  EventCodec, EventFile, Line, Writer, sequence_at_size, size_of, read_sequence, remembered,
  remember,
}
use ac_foundation.Events.Sequences.{IsLog, last_sequence-length}
use ac_foundation.Prelude.{
  List, Option, String, arith, length, none, refl, some, ℕ, ◌∷◌, ◌≡◌, ◌≤◌, [], false, ◌==◌,
  Bool-cases, inl, inr, subst, sym,
}
use ac_foundation.Errors.{ok}

-- The log had this many lines and bytes at some time: `older` of its lines were all there were.
pub data Remembers : List Line → ℕ → ℕ → Type 0 where
  whole : (ls : List Line) → Remembers ls (length ls) (size_of ls)
  earlier :
      (l : Line) (ls : List Line) {n size : ℕ} → Remembers ls n size → Remembers (l ∷ ls) n size

-- What the writer remembers, if anything, was once so.
pub data Knows (ls : List Line) : Option (ℕ × ℕ) → Type 0 where
  nothing : Knows ls none
  once : {n size : ℕ} → Remembers ls n size → Knows ls (some (n, size))

pub Knows-grown : (l : Line) (ls : List Line) {c : Option (ℕ × ℕ)} → Knows ls c → Knows (l ∷ ls) c
Knows-grown l ls nothing = nothing
Knows-grown l ls (once r) = once (earlier l ls r)

module _ (codec : EventCodec) (run_id : String) where
  Remembers-size : {ls : List Line} {n size : ℕ} → Remembers ls n size → size ≤ size_of ls
  Remembers-size (whole ls) = omega arith
  Remembers-size (earlier l ls r) = omega (arith, Remembers-size r)

  -- A log of the remembered size has not been appended to since.
  Remembers-current :
      {ls : List Line} {n size : ℕ}
      → Remembers ls n size
      → IsLog codec run_id ls
      → size ≡ size_of ls
      → n ≡ length ls
  Remembers-current (whole ls) h same = refl
  Remembers-current (earlier l ls r) (e, h) same =
      absurd (omega (arith, Remembers-size r, e.some_bytes))

  size-positive :
      (l : Line) (ls : List Line) → IsLog codec run_id (l ∷ ls) → (size_of (l ∷ ls) == 0) ≡ false
  size-positive l ls (e, h) = ground (arith, e.some_bytes)

  read_file-length :
      (w : Writer) (file : EventFile)
      → w.run_id ≡ run_id
      → IsLog codec run_id file.lines
      → read_sequence codec w file none
        ≡ ok (length file.lines, record w { last = some (length file.lines, size_of file.lines) })
  unfolding read_sequence remember
  read_file-length w file same h =
      rw same (rw (last_sequence-length codec run_id file.lines h) refl)

  -- The memory of a writer serves where it is of the present size.
  read_sequence-length :
      (w : Writer) (file : EventFile) (c : Option (ℕ × ℕ))
      → w.run_id ≡ run_id
      → IsLog codec run_id file.lines
      → w.last ≡ c
      → Knows file.lines c
      → (last : Option (ℕ × ℕ)) × (read_sequence codec w file (remembered c (size_of file.lines))
          ≡ ok (length file.lines, record w { last = last }))
        × Knows file.lines last
  unfolding read_sequence
  read_sequence-length w file none same h e nothing = (
    some (length file.lines, size_of file.lines),
    read_file-length w file same h,
    once (whole file.lines),
  )
  read_sequence-length w file (some (n, size)) same h e (once r) =
      elim (Bool-cases (size == size_of file.lines)) [
        | inl y ↦ rw y (
          w.last,
          rw (Remembers-current r h (ground (arith, y))) refl,
          subst (Knows file.lines) (sym e) (once r),
        )
        | inr n ↦ rw n (
          some (length file.lines, size_of file.lines),
          read_file-length w file same h,
          once (whole file.lines),
        )
      ]

  -- `_sequence_at_size` returns the number of the last event, from the memory or from the file.
  pub sequence_at_size-length :
      (w : Writer) (file : EventFile)
      → w.run_id ≡ run_id
      → IsLog codec run_id file.lines
      → Knows file.lines w.last
      → (last : Option (ℕ × ℕ)) × (sequence_at_size codec w file
          ≡ ok (length file.lines, record w { last = last }))
        × Knows file.lines last
  unfolding sequence_at_size
  sequence_at_size-length w file same h k = at_size file.lines file.torn h k
    where
      at_size :
          (ls : List Line) (torn : ℕ)
          → IsLog codec run_id ls
          → Knows ls w.last
          → (last : Option (ℕ × ℕ)) × (sequence_at_size codec w (record { lines = ls; torn = torn })
              ≡ ok (length ls, record w { last = last }))
            × Knows ls last
      at_size [] torn h k = (w.last, refl, k)
      at_size (l ∷ ls) torn h k =
          rw (size-positive l ls h)
            (read_sequence-length w (record { lines = l ∷ ls; torn = torn }) w.last same h refl k)
