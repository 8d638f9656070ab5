-- ===== src/Events/Emission.antt =====
-- `emit` of packages/ac-jobs/src/ac_jobs/events.py: an append whose document goes to a sink that may
-- raise.
use ac_foundation.Prelude.{Bool, String, false, true, ℕ}
use ac_foundation.Events.{EventCodec, Writing}
use ac_foundation.Json.{Fields, end, field, get, str}
use ac_foundation.Errors.{JobsError, Result, base_exception, err, ok}
use ac_foundation.Events.Histories.{Log, after_append, append_by}

-- What the sink returns or raises, with the log when it has done so, which it and other writers may
-- have used; and `type(exc).__name__`.
pub record EventSink : Type 0 where
  pub deliver : Fields → Log → Result (Unit {0}) × Log
  pub error_type : JobsError → String

-- The writer, when it appends the event and when it appends a report, and how the two writes end.
pub record Emitter : Type 0 where
  pub writer : ℕ
  pub emitted_at : String
  pub event_write : Writing
  pub reported_at : String
  pub report_write : Writing

abbrev pub failure_report : EventSink → String → Fields → JobsError → Fields
failure_report sink event document e = field "source_event" (str event) (
    field "source_sequence" (get "sequence" document)
      (field "error_type" (str (sink.error_type e)) end))

-- `except Exception: pass`
abbrev pub swallow : Result Fields → Result (Unit {0})
swallow (err base_exception) = err base_exception
swallow _ = ok tt

module _ (codec : EventCodec) (run_id : String) (sink : EventSink) (x : Emitter) where
  -- The second `_append` of `emit`.
  unfoldable pub report_failure : Fields → Log → Result (Unit {0}) × Log
  report_failure body log =
      let out =
        append_by codec x.report_write run_id x.writer x.reported_at "progress_sink_failed" body
          log in
      (swallow out.0, after_append x.writer log out)

  -- What the sink returned or raised, and whether a failure was reported before.
  unfoldable pub handle_sink :
      String → Fields → Bool → Log → Result (Unit {0}) → Result (Unit {0}) × Bool × Log
  handle_sink event document reported log (ok t) = (ok tt, reported, log)
  handle_sink event document reported log (err base_exception) = (err base_exception, reported, log)
  handle_sink event document true log (err e) = (ok tt, true, log)
  handle_sink event document false log (err e) =
      let (r, after) = report_failure (failure_report sink event document e) log in (r, true, after)

  unfoldable pub after_emit : String → Bool → Log → Result Fields → Result (Unit {0}) × Bool × Log
  after_emit event reported log (err e) = (err e, reported, log)
  after_emit event reported log (ok document) =
      let (r, seen) = sink.deliver document log in handle_sink event document reported seen r

  -- `emit` of a writer that has a sink; the flag is that of `_SinkFailureState`.
  unfoldable pub emit_event : String → Fields → Bool → Log → Result (Unit {0}) × Bool × Log
  emit_event event body reported log =
      let out = append_by codec x.event_write run_id x.writer x.emitted_at event body log in
      after_emit event reported (after_append x.writer log out) out.0
