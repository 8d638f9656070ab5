-- ===== src/Snapshot/Store.antt =====
-- `_SnapshotStore.read`, `create` and `compare_and_swap` of
-- packages/ac-jobs/src/ac_jobs/engine.py, over the file that holds the record.
pub mod Laws
pub mod History
use ac_foundation.Prelude.{Bool, false, not, some, true, ℕ, ◌+◌, ◌==◌, ◌||◌, none}
use ac_foundation.Json.{Fields}
use ac_foundation.Errors.{
  Result, corrupt_state, err, ok, raise_if, revision_conflict, run_not_found, ◌>>=◌, ◌>>◌,
}
use ac_foundation.Models.{RunSnapshot, snapshot_eq}
use ac_foundation.Snapshot.Codec.{decode, encode}
use ac_foundation.Snapshot.{validate}
use ac_foundation.Storage.{JsonFile, absent, holding, read_json_object}

-- `_SnapshotStore.read`
unfoldable pub read : JsonFile → Result RunSnapshot
read absent = err run_not_found
read file = do fs ← read_json_object file; decode fs

write_new : JsonFile → RunSnapshot → Result (JsonFile × RunSnapshot)
write_new absent value = do fs ← encode value; ok (holding fs, value)
write_new file value = do
  current ← read file
  raise_if (not (snapshot_eq current value)) revision_conflict
  ok (file, current)

-- `_SnapshotStore.create`: the file afterwards and the value that is returned.
unfoldable pub create_file : JsonFile → RunSnapshot → Result (JsonFile × RunSnapshot)
unfolding write_new
create_file file value = do validate none value false; write_new file value

-- `_SnapshotStore.compare_and_swap`: the new file and the value that is returned.
unfoldable pub compare_and_swap : JsonFile → ℕ → RunSnapshot → Result (JsonFile × RunSnapshot)
compare_and_swap file expected_revision value = do
  current ← read file
  raise_if
      (not (current.revision == expected_revision) || not (value.revision == expected_revision + 1))
      revision_conflict
  validate (some current) value false
  fs ← encode value
  ok (holding fs, value)
