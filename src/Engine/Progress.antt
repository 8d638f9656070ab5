-- ===== src/Engine/Progress.antt =====
-- A run that may be attempted is attempted (`RunEngine._run` of
-- packages/ac-jobs/src/ac_jobs/engine.py).
use ac_foundation.Repository.Directory.{Environment, RunDirectory}
use ac_foundation.Models.{RunSpec, RunSnapshot, running}
use ac_foundation.Prelude.{
  String, arith, ◌≡◌, List, Option, [], map, true, ◌++◌, ◌∙◌, ◌∷◌, append-nil, append_assoc, refl,
}
use ac_foundation.Errors.{ok}
use ac_foundation.Repository.{read_spec}
use ac_foundation.Json.{Fields}
use ac_foundation.Engine.Records.{MayFollow, running-MayFollow, swap_ok}
use ac_foundation.Engine.{
  RunContext, RunHandler, emit_warnings, finish_attempt, lease_document, or_spec, running_snapshot,
  start_attempt,
}
use ac_foundation.Storage.{holding}
use ac_foundation.Snapshot.{is_allowed}
use ac_foundation.Snapshot.Store.{read}
use ac_foundation.Snapshot.Store.Laws.{read-valid}

-- `read_spec` looks at spec.json alone, and writes nothing.
pub read_spec-same :
    (env : Environment) (run_id : String) (d e : RunDirectory) {spec : RunSpec}
    → e.spec_file ≡ d.spec_file
    → read_spec env run_id d ≡ (ok spec, d)
    → read_spec env run_id e ≡ (ok spec, e)
unfolding read_spec
read_spec-same env run_id d e h k = ground arith

-- The directory with which the handler starts.
abbrev pub begun_directory :
    Environment → RunSnapshot → Fields → List Fields → RunDirectory → RunDirectory
begun_directory env b fields warnings d = record d {
  snapshot_file = holding fields;
  lease_file = holding (lease_document env b);
  events = d.events ++ map (λ w. record { name = "run_warning"; body = w }) warnings;
}

abbrev pub begun_context : RunSnapshot → RunSpec → Fields → Option Fields → RunContext
begun_context b spec semantic_input resume_input = record {
  run_id = b.run_id;
  attempt = b.attempt;
  recovery_epoch = b.recovery_epoch;
  spec = spec;
  semantic_input = semantic_input;
  resume_input = resume_input;
}

emit_warnings_all :
    (ws : List Fields) (d : RunDirectory)
    → emit_warnings ws d ≡ (
      ok tt,
      record d { events = d.events ++ map (λ w. record { name = "run_warning"; body = w }) ws },
    )
unfolding emit_warnings
emit_warnings_all [] d = simp append-nil
emit_warnings_all (w ∷ ws) d =
    emit_warnings_all ws
      (record d { events = d.events ++ record { name = "run_warning"; body = w } ∷ [] })
    ∙ simp append_assoc

module _ (env : Environment) (handler : RunHandler) (s : RunSnapshot) (spec : RunSpec)
    (d : RunDirectory) (in_file : read d.snapshot_file ≡ ok s)
    (spec_read : read_spec env s.run_id d ≡ (ok spec, d)) where
  unfoldable pub begin_fields :
      is_allowed s.status running ≡ true → MayFollow s (running_snapshot s (env.utc_now 1))
  begin_fields a = running-MayFollow s (read-valid d.snapshot_file s in_file) (env.utc_now 1) a

  pub start-begins :
      (recovery : Option Fields × List Fields) (input : Option Fields)
      (a : is_allowed s.status running ≡ true)
      → let b = running_snapshot s (env.utc_now 1) in
        let fs = (begin_fields a).fields in
        start_attempt env handler s recovery input d
        ≡ finish_attempt env handler
            (begun_context b spec (or_spec recovery.0 spec) input)
            b
            (begun_directory env b fs recovery.1 d)
  unfolding start_attempt running_snapshot
  start-begins recovery input a =
      let b = running_snapshot s (env.utc_now 1) in
      let f = begin_fields a in
      let d' : RunDirectory = record d {
        snapshot_file = holding f.fields;
        lease_file = holding (lease_document env b);
      } in
      ground (
        arith,
        swap_ok s b d f in_file,
        read_spec-same env s.run_id d d' refl spec_read,
        emit_warnings_all recovery.1 d',
      )
