-- ===== src/Events/Returned.antt =====
-- What the caller of `_append` sees of the way its write ends
-- (packages/ac-jobs/src/ac_jobs/events.py).
use ac_foundation.Prelude.{
  Bool-cases, List, String, [], inl, inr, ltb, refl, sym, ℕ, ◌++◌, ◌+◌, ◌∙◌, ◌∷◌, ◌≡◌, false,
}
use ac_foundation.Repository.Directory.{Event}
use ac_foundation.Events.{
  EventCodec, EventFile, Writer, Writing, append, append_checked, check_event, cut, event_document,
  max_event_bytes, sequence_at_size, synced, truncate_tail, unsynced, write_event,
}
use ac_foundation.Json.{Fields}
use ac_foundation.Errors.{JobsError, Result, Result-cases, err, ok, value_error}
use ac_foundation.Events.Histories.{Log, append_by}
use ac_foundation.Events.Refinement.{logged}

-- What an append gives whose write ends so, from what it gives where its write is synced.
abbrev pub ended : Writing → Result Fields → Result Fields
ended synced r = r
ended (unsynced e) (ok fs) = err e
ended (cut bytes e) (ok fs) = err e
ended _ (err e) = err e

ended-refused : (writing : Writing) (e : JobsError) → err e ≡ ended writing (err e)
ended-refused synced e = refl
ended-refused (unsynced x) e = refl
ended-refused (cut bytes x) e = refl

fitting-ended :
    (codec : EventCodec) (writing : Writing) (emitted_at event : String) (body : Fields)
    (file : EventFile) (w v : Writer) (last : ℕ)
    → ltb max_event_bytes
        (codec.encoded_size (event_document codec v.run_id (last + 1) emitted_at event body))
      ≡ false
    → (write_event codec writing emitted_at event body file w (ok (last, v))).0
      ≡ ended writing (write_event codec synced emitted_at event body file w (ok (last, v))).0
unfolding write_event
fitting-ended codec synced emitted_at event body file w v last n = refl
fitting-ended codec (unsynced e) emitted_at event body file w v last n = rw n refl
fitting-ended codec (cut bytes e) emitted_at event body file w v last n = rw n refl

write_event-ended :
    (codec : EventCodec) (writing : Writing) (emitted_at event : String) (body : Fields)
    (file : EventFile) (w : Writer) (m : Result (ℕ × Writer))
    → (write_event codec writing emitted_at event body file w m).0
      ≡ ended writing (write_event codec synced emitted_at event body file w m).0
unfolding write_event
write_event-ended codec writing emitted_at event body file w (err e) = ended-refused writing e
write_event-ended codec writing emitted_at event body file w (ok (last, v)) =
    elim (Bool-cases (
      ltb max_event_bytes
        (codec.encoded_size (event_document codec v.run_id (last + 1) emitted_at event body)))) [
          | inl y ↦ rw y (ended-refused writing value_error)
          | inr n ↦ fitting-ended codec writing emitted_at event body file w v last n
        ]

append-ended :
    (codec : EventCodec) (writing : Writing) (w : Writer) (emitted_at event : String)
    (body : Fields) (file : EventFile)
    → (append codec writing w emitted_at event body file).0
      ≡ ended writing (append codec synced w emitted_at event body file).0
unfolding append append_checked
append-ended codec writing w emitted_at event body file =
    elim (Result-cases (check_event event body)) [
      | inl (t, y) ↦
          let (v, f) = truncate_tail w file in
          rw y
            (write_event-ended codec writing emitted_at event body f v (sequence_at_size codec v f))
      | inr (e, n) ↦ rw n (ended-refused writing e)
    ]

logged_of_ended :
    (writing : Writing) (event : String) (body : Fields) (es : List Event) (r : Result Fields)
    (fs : Fields)
    → ended writing r ≡ ok fs
    → logged writing event body es r ≡ es ++ record { name = event; body = body } ∷ []
logged_of_ended synced event body es (ok gs) fs h = refl
logged_of_ended (unsynced e) event body es (ok gs) fs h = cc
logged_of_ended (cut bytes e) event body es (ok gs) fs h = cc
logged_of_ended synced event body es (err e) fs h = cc
logged_of_ended (unsynced x) event body es (err e) fs h = cc
logged_of_ended (cut bytes x) event body es (err e) fs h = cc

-- The event of an append that returned is among those whose lines were completed.
pub append_by-logged :
    (codec : EventCodec) (writing : Writing) (run_id : String) (i : ℕ) (emitted_at event : String)
    (body : Fields) (log : Log) (es : List Event) (fs : Fields)
    → (append_by codec writing run_id i emitted_at event body log).0 ≡ ok fs
    → logged writing event body es (append_by codec synced run_id i emitted_at event body log).0
      ≡ es ++ record { name = event; body = body } ∷ []
append_by-logged codec writing run_id i emitted_at event body log es fs h =
    logged_of_ended writing event body es
      (append_by codec synced run_id i emitted_at event body log).0 fs
      (sym (
          append-ended codec writing (record { run_id = run_id; last = log.memory i }) emitted_at
            event body log.file)
        ∙ h)
