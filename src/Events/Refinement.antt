-- ===== src/Events/Refinement.antt =====
-- `_append` of packages/ac-jobs/src/ac_jobs/events.py against the list of events that the run engine
-- works with (`emit` on a run directory).
use ac_foundation.Prelude.{
  Bool-cases, List, Option, String, [], inl, inr, length, ltb, map, refl, true, ℕ, ◌++◌, ◌+◌, ◌∷◌,
  ◌≡◌, ap, arith, eq_refl, map-append, none, some, subst, ◌≤◌, subst₂, Bool, not, ◌==◌, false,
}
use ac_foundation.Repository.Directory.{Event}
use ac_foundation.Json.{Fields, JsonValue, end, get, obj, str, int, pos}
use ac_foundation.Events.Sequences.{IsLog, read_lines}
use ac_foundation.Events.Caches.{Knows, Knows-grown, whole, once, nothing, sequence_at_size-length}
use ac_foundation.Errors.{
  Result, err, ok, Result-cases, >>=-yields, raise_if, value_error, JobsError,
}
use ac_foundation.Json.Finite.{finite_json}
use ac_foundation.Json.Equality.{json_eq}
use ac_foundation.Events.{
  EventCodec, EventFile, Line, Writer, event_document, max_event_bytes, stable_document,
  validate_event, write_event, write_line, append, append_checked, check_event, sequence_at_size,
  truncate_tail, Writing, cut, synced, unsynced,
}
use ac_foundation.Identity.{validate_simple_id}

-- The text of an event and its data, without the number, the identifier and the time.
abbrev pub text_of : JsonValue → String
text_of (str t) = t
text_of _ = ""

abbrev pub object_of : JsonValue → Fields
object_of (obj fs) = fs
object_of _ = end

abbrev pub event_of : Fields → Event
event_of fs = record { name = text_of (get "event" fs); body = object_of (get "data" fs) }

-- The events of a log, the oldest first.
abbrev pub contents : List Line → List Event
contents ls = map event_of (read_lines ls)

-- The events of a log after an append that returns `r` where its write is synced: its event is in the
-- log unless it was refused before the write or the write was cut.
abbrev pub logged : Writing → String → Fields → List Event → Result Fields → List Event
logged (cut bytes e) event body es r = es
logged synced event body es (ok fs) = es ++ record { name = event; body = body } ∷ []
logged (unsynced e) event body es (ok fs) = es ++ record { name = event; body = body } ∷ []
logged _ event body es (err e) = es

-- A log and a writer of it after an append.
pub record Appends (codec : EventCodec) (run_id : String) (writing : Writing) (event : String)
    (body : Fields) (ls : List Line) (kept : Result Fields)
    (result : Result Fields × Writer × EventFile) : Type 0 where
  pub log : IsLog codec run_id result.2.lines
  pub own : result.1.run_id ≡ run_id
  pub knows : Knows result.2.lines result.1.last
  pub others : {c : Option (ℕ × ℕ)} → Knows ls c → Knows result.2.lines c
  pub outcome : contents result.2.lines ≡ logged writing event body (contents ls) kept

logged-refused :
    (writing : Writing) (event : String) (body : Fields) (es : List Event) (e : JobsError)
    → es ≡ logged writing event body es (err e)
logged-refused synced event body es e = refl
logged-refused (unsynced x) event body es e = refl
logged-refused (cut bytes x) event body es e = refl

raise_if-passed : (b : Bool) {t : Unit {0}} → raise_if (not b) value_error ≡ ok t → b ≡ true
raise_if-passed b h = ground arith

module _ (codec : EventCodec) (run_id : String) where
  -- The document of `_append` passes `_validate_document`.
  event_document-valid :
      (n : ℕ) (emitted_at event : String) (body : Fields)
      → finite_json (obj body) ≡ true
      → validate_event codec run_id (event_document codec run_id n emitted_at event body) n ≡ ok tt
  unfolding validate_event json_eq
  event_document-valid n emitted_at event body h = ground (
    arith,
    eq_refl run_id,
    eq_refl (codec.json_sha256 (stable_document run_id n (str event) (obj body))),
    h,
  )

  event_document-finite :
      (n : ℕ) (emitted_at event : String) (body : Fields)
      → finite_json (obj body) ≡ true
      → finite_json (obj (event_document codec run_id n emitted_at event body)) ≡ true
  unfolding finite_json
  event_document-finite n emitted_at event body h = rw h refl

  written :
      (n : ℕ) (emitted_at event : String) (body : Fields) (file : EventFile)
      → finite_json (obj body) ≡ true
      → n ≡ length file.lines + 1
      → codec.encoded_size (event_document codec run_id n emitted_at event body) ≤ max_event_bytes
      → IsLog codec run_id file.lines
      → IsLog codec run_id
          (write_line codec (event_document codec run_id n emitted_at event body) file).lines
  written n emitted_at event body file finite e small h = (
    record {
      fields = event_document codec run_id n emitted_at event body;
      reads = refl;
      valid =
          subst
            (λ m.
              validate_event codec run_id (event_document codec run_id n emitted_at event body) m
              ≡ ok tt)
            e (event_document-valid n emitted_at event body finite);
      numbered = ap (λ m. int (pos m)) e;
      some_bytes = codec.not_empty (event_document codec run_id n emitted_at event body);
      within = small;
      finite = event_document-finite n emitted_at event body finite;
    },
    h,
  )

  module _ (emitted_at event : String) (body : Fields) (file : EventFile)
      (prior last : Option (ℕ × ℕ)) (h : IsLog codec run_id file.lines) (k : Knows file.lines last)
      (finite : finite_json (obj body) ≡ true) where
    ending : Writing → Result Fields × Writer × EventFile
    ending writing =
        write_event codec writing emitted_at event body file
          (record { run_id = run_id; last = prior })
          (ok (length file.lines, record { run_id = run_id; last = last }))

    new_document : Fields
    new_document = event_document codec run_id (length file.lines + 1) emitted_at event body

    new_line : Line
    new_line = record {
      document = some (obj new_document);
      bytes = codec.encoded_size new_document;
    }

    fitting-Appends :
        (writing : Writing)
        → ltb max_event_bytes (codec.encoded_size new_document) ≡ false
        → Appends codec run_id writing event body file.lines (ending synced).0 (ending writing)
    unfolding write_event ending new_document new_line
    fitting-Appends synced n = rw n (record {
      log =
          written (length file.lines + 1) emitted_at event body file finite refl (ground (arith, n))
            h;
      own = refl;
      knows =
          subst₂ (λ m size. Knows (new_line ∷ file.lines) (some (m, size))) (omega arith)
            (omega arith) (once (whole (new_line ∷ file.lines)));
      others = λ c. Knows-grown new_line file.lines c;
      outcome = map-append event_of (read_lines file.lines) (new_document ∷ []);
    })
    fitting-Appends (unsynced e) n = rw n (record {
      log =
          written (length file.lines + 1) emitted_at event body file finite refl (ground (arith, n))
            h;
      own = refl;
      knows = Knows-grown new_line file.lines k;
      others = λ c. Knows-grown new_line file.lines c;
      outcome = map-append event_of (read_lines file.lines) (new_document ∷ []);
    })
    fitting-Appends (cut bytes e) n =
        rw n (record { log = h; own = refl; knows = k; others = λ c. c; outcome = refl })

    write_event-Appends :
        (writing : Writing)
        → Appends codec run_id writing event body file.lines (ending synced).0 (ending writing)
    unfolding write_event ending new_document
    write_event-Appends writing =
        elim (Bool-cases (ltb max_event_bytes (codec.encoded_size new_document))) [
          | inl y ↦ rw y (record {
            log = h;
            own = refl;
            knows = k;
            others = λ c. c;
            outcome = logged-refused writing event body (contents file.lines) value_error;
          })
          | inr n ↦ fitting-Appends writing n
        ]

  check_event-finite :
      (event : String) (body : Fields) {t : Unit {0}}
      → check_event event body ≡ ok t
      → finite_json (obj body) ≡ true
  check_event-finite event body h =
      >>=-yields (λ _. finite_json (obj body) ≡ true) (validate_simple_id event) _ _
        (λ e k. raise_if-passed (finite_json (obj body)) k) h

  numbered-Appends :
      (writing : Writing) (emitted_at event : String) (body : Fields) (file : EventFile)
      (last : Option (ℕ × ℕ))
      → IsLog codec run_id file.lines
      → Knows file.lines last
      → finite_json (obj body) ≡ true
      → let w : Writer = record { run_id = run_id; last = last } in
        let out : Writing → Result Fields × Writer × EventFile =
          λ x. write_event codec x emitted_at event body file w (sequence_at_size codec w file) in
        Appends codec run_id writing event body file.lines (out synced).0 (out writing)
  unfolding ending
  numbered-Appends writing emitted_at event body file last h k finite =
      let (c, e, k') =
        sequence_at_size-length codec run_id (record { run_id = run_id; last = last }) file refl h
          k in
      rw e (write_event-Appends emitted_at event body file last c h k' finite writing)

  truncated-Appends :
      (writing : Writing) (emitted_at event : String) (body : Fields) (file : EventFile)
      (last : Option (ℕ × ℕ))
      → IsLog codec run_id file.lines
      → Knows file.lines last
      → finite_json (obj body) ≡ true
      → let w : Writer = record { run_id = run_id; last = last } in
        let out : Writing → Result Fields × Writer × EventFile =
          λ x. append_checked codec x w emitted_at event body file (ok tt) in
        Appends codec run_id writing event body file.lines (out synced).0 (out writing)
  unfolding append_checked truncate_tail
  truncated-Appends writing emitted_at event body file last h k finite =
      elim (Bool-cases (file.torn == 0)) [
        | inl y ↦ rw y (numbered-Appends writing emitted_at event body file last h k finite)
        | inr n ↦ rw n (
            numbered-Appends writing emitted_at event body (record file { torn = 0 }) none h nothing
              finite)
      ]

  -- Whatever way an append and its write end, the log stays well formed, the writer and every other
  -- writer know of it what was once so, and its events are those of `logged`.
  pub append-Appends :
      (writing : Writing) (last : Option (ℕ × ℕ)) (emitted_at event : String) (body : Fields)
      (file : EventFile)
      → IsLog codec run_id file.lines
      → Knows file.lines last
      → let w : Writer = record { run_id = run_id; last = last } in
        Appends codec run_id writing event body file.lines
          (append codec synced w emitted_at event body file).0
          (append codec writing w emitted_at event body file)
  unfolding append append_checked
  append-Appends writing last emitted_at event body file h k =
      elim (Result-cases (check_event event body)) [
        | inl (t, y) ↦ rw y (
            truncated-Appends writing emitted_at event body file last h k
              (check_event-finite event body y))
        | inr (e, n) ↦ rw n (record {
          log = h;
          own = refl;
          knows = k;
          others = λ c. c;
          outcome = logged-refused writing event body (contents file.lines) e;
        })
      ]
