-- ===== src/Repository/Creation.antt =====
-- `RunRepository.create` of packages/ac-jobs/src/ac_jobs/engine.py.
use ac_foundation.Repository.Directory.{Environment, RunDirectory, create_snapshot}
use ac_foundation.Json.{Fields}
use ac_foundation.Repository.Directory.Rules.{OnlyWrites, only_writes}
use ac_foundation.Models.{RunSpec, RunSnapshot}
use ac_foundation.Prelude.{String, arith, false, none, ◌≡◌, inl, inr, refl, ◌∙◌}
use ac_foundation.Storage.{absent, holding}
use ac_foundation.Repository.{
  create, initial_snapshot, read_spec, settle_snapshot, settle_spec, spec_fields,
}
use ac_foundation.Errors.{ok, Result-cases}
use ac_foundation.Snapshot.Store.{read, create_file}
use ac_foundation.Repository.Spec.{spec_document}
use ac_foundation.Snapshot.{validate, validate_shape}
use ac_foundation.Identity.{validate_simple_id}
use ac_foundation.Snapshot.Codec.{awaiting_json, encode, error_json, ref_json}
use ac_foundation.Snapshot.Codec.RoundTrip.{decode-encode}
use ac_foundation.Snapshot.Store.Laws.{read-holding}

read_spec-OnlyWrites' : (env : Environment) (run_id : String) → OnlyWrites (read_spec env run_id)
unfolding read_spec
read_spec-OnlyWrites' env run_id = search only_writes depth 20

settle_spec-OnlyWrites :
    (env : Environment) (spec : RunSpec) (fs : Fields) → OnlyWrites (settle_spec env spec fs)
unfolding settle_spec
settle_spec-OnlyWrites env spec fs = search (only_writes, read_spec-OnlyWrites') depth 20

settle_snapshot-OnlyWrites :
    (env : Environment) (spec : RunSpec) → OnlyWrites (settle_snapshot env spec)
unfolding settle_snapshot
settle_snapshot-OnlyWrites env spec = search only_writes depth 10

pub create-OnlyWrites : (env : Environment) (spec : RunSpec) → OnlyWrites (create env spec)
unfolding create
create-OnlyWrites env spec =
    search (only_writes, settle_spec-OnlyWrites, settle_snapshot-OnlyWrites) depth 20

-- A directory with neither spec nor snapshot.
pub record IsFresh (d : RunDirectory) : Type 0 where
  pub no_spec : d.spec_file ≡ absent
  pub no_snapshot : d.snapshot_file ≡ absent

-- The directory after the creation of a run.
abbrev pub created_directory : RunDirectory → Fields → Fields → RunDirectory
created_directory d spec_fields snapshot_fields = record d {
  spec_file = holding spec_fields;
  snapshot_file = holding snapshot_fields;
}

initial_valid :
    (run_id now : String) {r : String}
    → validate_simple_id run_id ≡ ok r
    → validate none (initial_snapshot run_id now) false ≡ ok tt
unfolding validate validate_shape
initial_valid run_id now h = ground arith

initial_encodes :
    (run_id now : String) → (fs : Fields) × (encode (initial_snapshot run_id now) ≡ ok fs)
unfolding encode awaiting_json ref_json error_json
initial_encodes run_id now = (_, refl)

spec_document_ids :
    (env : Environment) (spec : RunSpec) {fs : Fields}
    → spec_document env spec ≡ ok fs
    → (r : String) × (validate_simple_id spec.run_id ≡ ok r)
unfolding spec_document
spec_document_ids env spec h = elim (Result-cases (validate_simple_id spec.run_id)) [
  | inl (r, e) ↦ (r, e)
  | inr (x, e) ↦ absurd (ground arith)
]

shape_of_validate :
    (s : RunSnapshot) → validate none s false ≡ ok tt → validate_shape s false ≡ ok tt
unfolding validate
shape_of_validate s h = ground arith

create_file-absent :
    (s : RunSnapshot) {fs : Fields}
    → validate none s false ≡ ok tt
    → encode s ≡ ok fs
    → create_file absent s ≡ ok (holding fs, s)
unfolding create_file
create_file-absent s v e = ground arith

-- In a fresh directory the creation of a run with valid names writes the spec and a PENDING record
-- of revision 0 and attempt 0, and returns that record, which is also what is read afterwards.
pub create_fresh :
    (env : Environment) (spec : RunSpec) (d : RunDirectory) {fs : Fields}
    → IsFresh d
    → spec_document env spec ≡ ok fs
    → let s = initial_snapshot spec.run_id (env.utc_now 0) in
      (sfs : Fields) × (create env spec d ≡ (ok s, created_directory d fs sfs))
      × (read (holding sfs) ≡ ok s)
unfolding create create_snapshot
create_fresh env spec d {fs} fresh h =
    let (r, ids) = spec_document_ids env spec h in
    let s = initial_snapshot spec.run_id (env.utc_now 0) in
    let (sfs, enc) = initial_encodes spec.run_id (env.utc_now 0) in
    let v = initial_valid spec.run_id (env.utc_now 0) ids in
    (
      sfs,
      ground (arith, create_file-absent s v enc),
      read-holding sfs ∙ decode-encode s (shape_of_validate s v) enc,
    )
