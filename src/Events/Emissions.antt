-- ===== src/Events/Emissions.antt =====
-- What `emit` of packages/ac-jobs/src/ac_jobs/events.py raises, and what it leaves in the log.
use ac_foundation.Events.Emission.{
  report_failure, handle_sink, swallow, Emitter, EventSink, failure_report, after_emit, emit_event,
}
use ac_foundation.Prelude.{
  Bool, List, String, [], false, refl, sym, true, ◌++◌, ◌≡◌, append-nil, append_assoc, subst, ◌∷◌,
  ap, inl, inr, map, ◌⊎◌, ◌∙◌,
}
use ac_foundation.Repository.Directory.{Event}
use ac_foundation.Events.{EventCodec, read_all, Writing, cut, synced, unsynced}
use ac_foundation.Json.{Fields}
use ac_foundation.Events.Histories.{
  History, Log, append_by, appended, after_append, read_all-accepted,
}
use ac_foundation.Errors.{JobsError, Result, base_exception, err, ok}
use ac_foundation.Events.Refinement.{event_of, logged}
use ac_foundation.Events.Tail.{later}

error_injective : {A : Type 0} {e f : JobsError} → ◌≡◌ {A = Result A} (err e) (err f) → e ≡ f
error_injective h = cc

swallow-raises : (r : Result Fields) (e : JobsError) → swallow r ≡ err e → e ≡ base_exception
swallow-raises (ok fs) e h = cc
swallow-raises (err base_exception) e h = error_injective (sym h)
swallow-raises (err _) e h = cc

logged-later :
    (writing : Writing) (event : String) (body : Fields) (es others : List Event)
    (r : Result Fields)
    → logged writing event body (es ++ others) r ≡ es ++ logged writing event body others r
logged-later synced event body es others (ok fs) =
    append_assoc es others (record { name = event; body = body } ∷ [])
logged-later (unsynced e) event body es others (ok fs) =
    append_assoc es others (record { name = event; body = body } ∷ [])
logged-later (cut bytes e) event body es others r = refl
logged-later synced event body es others (err e) = refl
logged-later (unsynced x) event body es others (err e) = refl

-- The sink, and others meanwhile, leave a log that writers reach.
abbrev pub IsSteady : EventCodec → String → EventSink → Type 0
IsSteady codec run_id sink =
    (document : Fields) (fs : List Event) (l : Log)
    → History codec run_id fs l
    → (others : List Event) × History codec run_id (fs ++ others) (sink.deliver document l).1

module _ (codec : EventCodec) (run_id : String) (sink : EventSink) (x : Emitter) where
  handle_sink-raises :
      (event : String) (document : Fields) (reported : Bool) (log : Log) (r : Result (Unit {0}))
      (e : JobsError)
      → (handle_sink codec run_id sink x event document reported log r).0 ≡ err e
      → e ≡ base_exception
  unfolding handle_sink report_failure
  handle_sink-raises event document reported log (ok t) e h = cc
  handle_sink-raises event document reported log (err base_exception) e h = error_injective (sym h)
  handle_sink-raises event document true log (err _) e h = cc
  handle_sink-raises event document false log (err f) e h =
      swallow-raises
        (append_by codec x.report_write run_id x.writer x.reported_at "progress_sink_failed"
          (failure_report sink event document f) log).0
        e h

  unchanged :
      {es : List Event} {log : Log}
      → History codec run_id es log
      → (later : List Event) × History codec run_id (es ++ later) log
  unchanged {es} {log} h = ([], subst (λ fs. History codec run_id fs log) (sym (append-nil es)) h)

  report_failure-History :
      (body : Fields) (log : Log) {es : List Event}
      → History codec run_id es log
      → (later : List Event) × History codec run_id
          (es ++ later)
          (report_failure codec run_id sink x body log).1
  unfolding report_failure
  report_failure-History body log {es} h =
      let kept =
        (append_by codec synced run_id x.writer x.reported_at "progress_sink_failed" body log).0 in
      (
        logged x.report_write "progress_sink_failed" body [] kept,
        subst (λ fs. History codec run_id fs (report_failure codec run_id sink x body log).1)
            (ap (λ fs. logged x.report_write "progress_sink_failed" body fs kept)
                (sym (append-nil es))
              ∙ logged-later x.report_write "progress_sink_failed" body es [] kept)
            (appended h x.report_write x.writer x.reported_at "progress_sink_failed" body),
      )

  handle_sink-History :
      (event : String) (document : Fields) (reported : Bool) (log : Log) (r : Result (Unit {0}))
      {es : List Event}
      → History codec run_id es log
      → (later : List Event) × History codec run_id
          (es ++ later)
          (handle_sink codec run_id sink x event document reported log r).2
  unfolding handle_sink report_failure
  handle_sink-History event document reported log (ok t) h = unchanged h
  handle_sink-History event document reported log (err base_exception) h = unchanged h
  handle_sink-History event document true log (err _) h = unchanged h
  handle_sink-History event document false log (err e) h =
      report_failure-History (failure_report sink event document e) log h

  after_emit-raises :
      (event : String) (reported : Bool) (log : Log) (r : Result Fields) (e : JobsError)
      → (after_emit codec run_id sink x event reported log r).0 ≡ err e
      → (r ≡ err e) ⊎ (e ≡ base_exception)
  unfolding after_emit
  after_emit-raises event reported log (err f) e h = inl (ap err (error_injective h))
  after_emit-raises event reported log (ok document) e h = inr (
      handle_sink-raises event document reported (sink.deliver document log).1
        (sink.deliver document log).0 e h)

  -- `emit` raises only what the append of its event raises, or what is no Exception: no Exception of
  -- the sink or of the report of it reaches the caller.
  pub emit_event-raises :
      (event : String) (body : Fields) (reported : Bool) (log : Log) (e : JobsError)
      → (emit_event codec run_id sink x event body reported log).0 ≡ err e
      → ((append_by codec x.event_write run_id x.writer x.emitted_at event body log).0 ≡ err e)
        ⊎ (e ≡ base_exception)
  unfolding emit_event
  emit_event-raises event body reported log e h =
      let out = append_by codec x.event_write run_id x.writer x.emitted_at event body log in
      after_emit-raises event reported (after_append x.writer log out) out.0 e h

  after_emit-History :
      (event : String) (reported : Bool) (log : Log) (r : Result Fields) {es : List Event}
      → IsSteady codec run_id sink
      → History codec run_id es log
      → (later : List Event) × History codec run_id
          (es ++ later)
          (after_emit codec run_id sink x event reported log r).2
  unfolding after_emit
  after_emit-History event reported log (err e) steady h = unchanged h
  after_emit-History event reported log (ok document) {es} steady h =
      let (others, g) = steady document es log h in
      let (later, k) =
        handle_sink-History event document reported (sink.deliver document log).1
          (sink.deliver document log).0 g in
      (
        others ++ later,
        subst
            (λ fs.
              History codec run_id fs
                (after_emit codec run_id sink x event reported log (ok document)).2)
            (append_assoc es others later) k,
      )

  -- After `emit`, `read_all` returns the events that were in the log before, then the event of `emit`
  -- where its line was completed, then what came later, as long as the sink and the other writers only
  -- append, die and start again.
  pub read_all-emit_event :
      (event : String) (body : Fields) (reported : Bool) {es : List Event} {log : Log}
      → IsSteady codec run_id sink
      → History codec run_id es log
      → (ds : List Fields) × (later : List Event) × (read_all codec run_id
            (emit_event codec run_id sink x event body reported log).2.file
          ≡ ok ds)
        × (map event_of ds
            ≡ logged x.event_write event body es
                (append_by codec synced run_id x.writer x.emitted_at event body log).0
              ++ later)
  unfolding emit_event
  read_all-emit_event event body reported {es} {log} steady h =
      let out = append_by codec x.event_write run_id x.writer x.emitted_at event body log in
      let (later, g) =
        after_emit-History event reported (after_append x.writer log out) out.0 steady
          (appended h x.event_write x.writer x.emitted_at event body) in
      let (ds, p, q) = read_all-accepted codec run_id g in (ds, later, p, q)
