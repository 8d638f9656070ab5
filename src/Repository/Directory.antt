-- ===== src/Repository/Directory.antt =====
-- The directory of one run (`run_directory` in packages/ac-jobs/src/ac_jobs/engine.py), and actions
-- on it. A file that was written before an exception stays written, so the directory comes back
-- beside the exception too.
use ac_foundation.Models.{ArtifactRef, RunSnapshot, RunSpec}
use ac_foundation.Prelude.{
  Bool, List, String, [], false, if◌then◌else◌, str_eq, true, ℕ, ◌++◌, ◌==◌, ◌∷◌,
}
use ac_foundation.Json.{Fields}
use ac_foundation.Errors.{JobsError, Result, err, ok, run_busy}
use ac_foundation.Storage.{JsonFile}
use ac_foundation.Snapshot.Store.{compare_and_swap, create_file}
pub mod Rules

-- One record of events.jsonl, without its sequence number, identifier and time.
pub record Event : Type 0 where
  pub name : String
  pub body : Fields

pub record RunDirectory : Type 0 where
  pub spec_file : JsonFile  -- spec.json
  pub snapshot_file : JsonFile  -- snapshot.json
  pub stop_files : ℕ → JsonFile  -- stop-requests/{attempt}.json
  pub resume_files : String → JsonFile  -- resume-inputs/{key digest}.json
  pub lease_file : JsonFile  -- lease.json
  pub events : List Event  -- events.jsonl, the oldest first
  pub lease_held : Bool  -- lease.lock

abbrev pub Action {ℓ} : Type ℓ → Type ℓ
Action A = RunDirectory → Result A × RunDirectory

abbrev pub continue {ℓ κ} : {A : Type ℓ} {B : Type κ} → Result A → (A → Action B) → Action B
continue (ok a) f d = f a d
continue (err e) f d = (err e, d)

infixl 5 ◌>>=◌ ◌>>◌
abbrev pub ◌>>=◌ {ℓ κ} : {A : Type ℓ} {B : Type κ} → Action A → (A → Action B) → Action B
◌>>=◌ m f d = let (r, d') = m d in continue r f d'

abbrev pub ◌>>◌ {ℓ} : {B : Type ℓ} → Action (Unit {0}) → Action B → Action B
m >> k = m >>= λ _. k

abbrev pub pure {ℓ} : {A : Type ℓ} → A → Action A
pure a d = (ok a, d)

abbrev pub raise {ℓ} : {A : Type ℓ} → JobsError → Action A
raise e d = (err e, d)

-- A computation that reads and writes nothing.
abbrev pub lift {ℓ} : {A : Type ℓ} → Result A → Action A
lift r d = (r, d)

abbrev pub gets {ℓ} : {A : Type ℓ} → (RunDirectory → A) → Action A
gets f d = (ok (f d), d)

abbrev pub modify : (RunDirectory → RunDirectory) → Action (Unit {0})
modify f d = (ok tt, f d)

-- `EventWriter.emit`: the log is appended to; that the append succeeds is taken for granted.
abbrev pub emit : String → Fields → Action (Unit {0})
emit name body d =
    (ok tt, record d { events = d.events ++ record { name = name; body = body } ∷ [] })

abbrev leased {ℓ} : {A : Type ℓ} → Bool → Action A → Action A
leased true m d = (err run_busy, d)
leased false m d =
    let (r, d') = m (record d { lease_held = true }) in (r, record d' { lease_held = false })

-- `FileLease(run_directory / "lease.lock").acquire()` before an action, `release()` in `finally`.
unfoldable pub with_lease {ℓ} : {A : Type ℓ} → Action A → Action A
with_lease m d = leased d.lease_held m d

-- `_SnapshotStore.compare_and_swap` on snapshot.json.
abbrev pub store_swapped : Result (JsonFile × RunSnapshot) → Action RunSnapshot
store_swapped (ok (file, value)) d = (ok value, record d { snapshot_file = file })
store_swapped (err e) d = (err e, d)

unfoldable pub swap : ℕ → RunSnapshot → Action RunSnapshot
swap expected_revision value d =
    store_swapped (compare_and_swap d.snapshot_file expected_revision value) d

-- `_SnapshotStore.create` on snapshot.json.
unfoldable pub create_snapshot : RunSnapshot → Action RunSnapshot
create_snapshot value d = store_swapped (create_file d.snapshot_file value) d

abbrev pub update_stop : (ℕ → JsonFile) → ℕ → JsonFile → ℕ → JsonFile
update_stop files a file b = if b == a then file else files b

abbrev pub update_resume : (String → JsonFile) → String → JsonFile → String → JsonFile
update_resume files k file j = if str_eq j k then file else files j

-- What the code calls outside this development, and what it reads of its process: the SHA-256 of
-- a canonical JSON document and of a text, the successive times that one operation reads, the
-- owner written to lease.json, the text of an exception, and the checks of the editable working
-- tree of working.py.
pub record Environment : Type 0 where
  pub json_sha256 : Fields → String
  pub text_sha256 : String → String
  pub utc_now : ℕ → String
  pub pid : ℕ
  pub process_start_identity : String
  pub hostname : String
  pub describe : JobsError → String
  pub verify_artifact : ArtifactRef → RunDirectory → Result (Unit {0})
  pub prepare_recovery : RunSpec → ℕ → RunDirectory → Result (Fields × List Fields)
