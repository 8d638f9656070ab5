-- ===== src/Stopping.antt =====
-- packages/ac-jobs/src/ac_jobs/stopping.py: one immutable stop request for one execution attempt,
-- kept in a file of its own.
pub mod Laws
use ac_foundation.Json.{Fields, JsonValue, end, field, get, int, null, pos, require_fields, str}
use ac_foundation.Storage.{JsonFile, absent, holding, read_json_object}
use ac_foundation.Prelude.{List, Option, String, [], none, not, some, ℕ, ◌==◌, ◌∷◌}
use ac_foundation.Errors.{
  Result, corrupt_state, err, ok, raise_if, stopped, unsupported_schema, ◌>>=◌, ◌>>◌,
}
use ac_foundation.Models.{StopRequest}
use ac_foundation.Snapshot.Codec.{is_text, natural, nullable_text, text}

-- a text or None
abbrev optional_json : Option String → JsonValue
optional_json none = null
optional_json (some t) = str t

unfoldable pub request_document : StopRequest → Fields
request_document q = field "schema_version" (str "ac.jobs.stop_request.v1") (
    field "target_attempt" (int (pos q.target_attempt))
      (field "requested_at" (str q.requested_at) (field "reason" (optional_json q.reason) end)))

abbrev request_fields : List String
request_fields = "schema_version" ∷ "target_attempt" ∷ "requested_at" ∷ "reason" ∷ []

-- The body of `StopToken.read` on an existing document.
decode_request : Fields → ℕ → Result StopRequest
decode_request fs target_attempt = do
  require_fields fs request_fields []
  raise_if (not (is_text "ac.jobs.stop_request.v1" (get "schema_version" fs))) unsupported_schema
  attempt ← natural (get "target_attempt" fs)
  raise_if (not (attempt == target_attempt)) corrupt_state
  requested_at ← text (get "requested_at" fs)
  reason ← nullable_text (get "reason" fs)
  ok (record { target_attempt = attempt; requested_at = requested_at; reason = reason })

-- `StopToken.read`
unfoldable pub read_stop : JsonFile → ℕ → Result (Option StopRequest)
unfolding decode_request
read_stop absent target_attempt = ok none
read_stop file target_attempt = do
  fs ← read_json_object file
  q ← decode_request fs target_attempt
  ok (some q)

-- What `StopToken.request` does under its lock, given what `read` found.
write_request : JsonFile → StopRequest → Option StopRequest → JsonFile × StopRequest
write_request file q none = (holding (request_document q), q)
write_request file q (some existing) = (file, existing)

-- `StopToken.request`: the file afterwards and the request that stands.
unfoldable pub request_stop_file :
    JsonFile → ℕ → String → Option String → Result (JsonFile × StopRequest)
unfolding write_request request_document
request_stop_file file target_attempt requested_at reason = do
  existing ← read_stop file target_attempt
  ok (
      write_request file
        (record { target_attempt = target_attempt; requested_at = requested_at; reason = reason })
        existing)

abbrev stop_if : Option StopRequest → Result (Unit {0})
stop_if none = ok tt
stop_if (some q) = err stopped

-- `StopToken.raise_if_requested`
unfoldable pub raise_if_requested : JsonFile → ℕ → Result (Unit {0})
raise_if_requested file target_attempt = do q ← read_stop file target_attempt; stop_if q
