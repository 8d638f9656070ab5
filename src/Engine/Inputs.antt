-- ===== src/Engine/Inputs.antt =====
-- The resume input of an attempt: `_persist_resume_input` and `_validate_replayed_resume_input` of
-- packages/ac-jobs/src/ac_jobs/engine.py.
-- `resume_input.get("resume_key") != awaiting.resume_key`
use ac_foundation.Repository.Directory.{
  Action, Environment, gets, lift, modify, pure, raise, update_resume, ◌>>=◌, ◌>>◌,
}
use ac_foundation.Models.{Awaiting}
use ac_foundation.Prelude.{Bool, Option, String, if◌then◌else◌, none, not, some}
use ac_foundation.Json.{Fields, JsonValue, end, field, get, obj, str}
use ac_foundation.Errors.{Result, err, ok, raise_if, resume_input_conflict, resume_mismatch}
use ac_foundation.Storage.{exists, holding, read_json_object}
use ac_foundation.Snapshot.Codec.{is_text}
use ac_foundation.Json.Equality.{json_eq}

abbrev pub has_key : String → Fields → Bool
has_key key input = is_text key (get "resume_key" input)

unfoldable pub resume_document : Environment → String → Fields → Fields
resume_document env key input = field "schema_version" (str "ac.jobs.resume_input_record.v1") (
    field "resume_key" (str key)
      (field "input_sha256" (str (env.json_sha256 input)) (field "input" (obj input) end)))

-- The second half of `_persist_resume_input`: one resume key is bound to one input.
unfoldable pub bind_input : Environment → String → Fields → Action (Option Fields)
unfolding resume_document
bind_input env key input = do
  files ← gets (λ d. d.resume_files)
  let path = env.text_sha256 key
  let fs = resume_document env key input
  if exists (files path)
      then (do
        existing ← lift (read_json_object (files path))
        lift (raise_if (not (json_eq (obj existing) (obj fs))) resume_input_conflict)
        pure (some input))
      else (do
        modify (λ d. record d { resume_files = update_resume d.resume_files path (holding fs) })
        pure (some input))

-- `_persist_resume_input`
unfoldable pub persist_resume_input :
    Environment → Awaiting → Option Fields → Action (Option Fields)
unfolding bind_input
persist_resume_input env awaiting none =
    if awaiting.input_required then raise resume_mismatch else pure none
persist_resume_input env awaiting (some input) =
    if has_key awaiting.resume_key input
    then bind_input env awaiting.resume_key input
    else raise resume_mismatch

-- `_validate_replayed_resume_input`, once the key is known to be a text
unfoldable pub replayed_key : Environment → Fields → String → Action (Unit {0})
replayed_key env input key = do
  files ← gets (λ d. d.resume_files)
  let file = files (env.text_sha256 key)
  if exists file
      then (do
        fs ← lift (read_json_object file)
        lift (raise_if (not (json_eq (get "input" fs) (obj input))) resume_input_conflict))
      else raise resume_mismatch

abbrev pub key_text : JsonValue → Result String
key_text (str t) = ok t
key_text _ = err resume_mismatch

unfoldable pub validate_replayed : Environment → Option Fields → Action (Unit {0})
unfolding replayed_key
validate_replayed env none = pure tt
validate_replayed env (some input) = do
  key ← lift (key_text (get "resume_key" input))
  replayed_key env input key
