-- ===== src/Stopping/Laws.antt =====
-- The promises of packages/ac-jobs/src/ac_jobs/stopping.py: the first request stands.
use ac_foundation.Storage.{JsonFile, holding}
use ac_foundation.Prelude.{Option, String, some, ℕ, ◌≡◌, arith, inl, inr, none, ◌≢◌}
use ac_foundation.Models.{StopRequest}
use ac_foundation.Errors.{err, ok, stopped, Result-cases, corrupt_state}
use ac_foundation.Stopping.{raise_if_requested, read_stop, request_document, request_stop_file}

read-request_document :
    (q : StopRequest) → read_stop (holding (request_document q)) q.target_attempt ≡ ok (some q)
unfolding read_stop request_document
read-request_document q = ground arith

stands :
    (file : JsonFile) (attempt : ℕ) (at : String) (reason : Option String) {file' : JsonFile}
    {q : StopRequest}
    → request_stop_file file attempt at reason ≡ ok (file', q)
    → read_stop file' attempt ≡ ok (some q)
unfolding request_stop_file
stands file attempt at reason h = elim (Result-cases (read_stop file attempt)) [
  | inl (none, e) ↦ ground (
    arith,
    read-request_document (record { target_attempt = attempt; requested_at = at; reason = reason }),
  )
  | inl (some q, e) ↦ ground arith
  | inr (x, e) ↦ ground arith
]

repeated :
    (file : JsonFile) (attempt : ℕ) (at : String) (reason : Option String) (q : StopRequest)
    → read_stop file attempt ≡ ok (some q)
    → (raise_if_requested file attempt ≡ err stopped)
      × (request_stop_file file attempt at reason ≡ ok (file, q))
unfolding request_stop_file raise_if_requested
repeated file attempt at reason q h = (ground arith, ground arith)

-- A request that returns is what every later reader of the file finds, the checkpoint of its
-- attempt then raises, and a repeated request, whatever its time and reason, changes neither the
-- file nor the answer.
pub first_request_stands :
    (file : JsonFile) (attempt : ℕ) (at at' : String) (reason reason' : Option String)
    {file' : JsonFile} {q : StopRequest}
    → request_stop_file file attempt at reason ≡ ok (file', q)
    → (read_stop file' attempt ≡ ok (some q))
      × (raise_if_requested file' attempt ≡ err stopped)
      × (request_stop_file file' attempt at' reason' ≡ ok (file', q))
first_request_stands file attempt at at' reason reason' {file'} {q} h =
    let found = stands file attempt at reason h in
    let (raises, again) = repeated file' attempt at' reason' q found in (found, raises, again)

-- A request that targets another attempt is never taken for one of this attempt.
pub other_attempt-corrupt :
    (q : StopRequest) (attempt : ℕ)
    → attempt ≢ q.target_attempt
    → raise_if_requested (holding (request_document q)) attempt ≡ err corrupt_state
unfolding raise_if_requested read_stop request_document
other_attempt-corrupt q attempt h = ground arith
