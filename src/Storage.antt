-- ===== src/Storage.antt =====
-- The JSON files of packages/ac-jobs/src/ac_jobs/storage.py. `atomic_write_json` replaces a file by
-- one canonical document; no partly written file is ever seen.
-- `read_json_object` of storage.py and `path.exists()`: no file, bytes that are no JSON object, or
-- one JSON object.
pub mod State
use ac_foundation.Prelude.{Bool, false, true}
use ac_foundation.Json.{Fields}
use ac_foundation.Errors.{Result, corrupt_state, err, ok}

pub data JsonFile : Type 0 where
  absent damaged : JsonFile
  holding : Fields → JsonFile

abbrev pub exists : JsonFile → Bool
exists absent = false
exists _ = true

-- `read_json_object`: also a missing file is reported as corruption.
abbrev pub read_json_object : JsonFile → Result Fields
read_json_object absent = err corrupt_state
read_json_object damaged = err corrupt_state
read_json_object (holding fs) = ok fs
