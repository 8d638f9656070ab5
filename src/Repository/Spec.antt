-- ===== src/Repository/Spec.antt =====
-- `RunRepository._spec_document` of packages/ac-jobs/src/ac_jobs/engine.py.
use ac_foundation.Repository.Directory.{Environment}
use ac_foundation.Json.{Fields, end, field, obj, str}
use ac_foundation.Errors.{Result, ok, ◌>>=◌}
use ac_foundation.Models.{RunSpec}
use ac_foundation.Identity.{validate_simple_id}

unfoldable pub spec_document : Environment → RunSpec → Result Fields
spec_document env spec = do
  _ ← validate_simple_id spec.run_id
  _ ← validate_simple_id spec.handler
  let projection =
      field "schema_version" (str "ac.jobs.run_semantic_key.v1")
        (field "handler" (str spec.handler) (field "semantic_input" (obj spec.semantic_input) end))
  ok (
      field "schema_version" (str "ac.jobs.run_spec.v1") (
        field "run_id" (str spec.run_id) (
          field "handler" (str spec.handler) (
            field "semantic_input" (obj spec.semantic_input) (
              field "semantic_key_schema" (str "ac.jobs.run_semantic_key.v1")
                (field "semantic_key_sha256" (str (env.json_sha256 projection)) end))))))
