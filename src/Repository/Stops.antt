-- ===== src/Repository/Stops.antt =====
-- `RunRepository.request_stop` of packages/ac-jobs/src/ac_jobs/engine.py.
use ac_foundation.Repository.Directory.{Environment, RunDirectory, modify}
use ac_foundation.Repository.Directory.Rules.{
  OnlyWrites, only_writes, OnlyWrites-bind, OnlyWrites-if,
}
use ac_foundation.Prelude.{Option, String, ◌||◌}
use ac_foundation.Models.{RunSnapshot, StopRequest, is_status, is_terminal, paused, running}
use ac_foundation.Repository.{
  announce, inspect, persist, read_snapshot, request_stop, stop_busy, stop_pending, stop_unstarted,
}

announce-OnlyWrites :
    (s c : RunSnapshot) (e : Option StopRequest) (q : StopRequest) → OnlyWrites (announce s c e q)
unfolding announce
announce-OnlyWrites s c e q = search only_writes

persist-OnlyWrites :
    (env : Environment) (reason : Option String) (s : RunSnapshot)
    → OnlyWrites (persist env reason s)
unfolding persist
persist-OnlyWrites env reason s = search (only_writes, announce-OnlyWrites) depth 20

inspect-OnlyWrites : OnlyWrites inspect
unfolding inspect
inspect-OnlyWrites = search only_writes depth 20

pending-OnlyWrites :
    (env : Environment) (reason : Option String) → OnlyWrites (stop_pending env reason)
unfolding stop_pending read_snapshot
pending-OnlyWrites env reason =
    search (only_writes, persist-OnlyWrites, inspect-OnlyWrites) depth 20

busy-OnlyWrites : (env : Environment) (reason : Option String) → OnlyWrites (stop_busy env reason)
unfolding stop_busy read_snapshot
busy-OnlyWrites env reason = search (only_writes, persist-OnlyWrites, inspect-OnlyWrites) depth 20

snapshot-OnlyWrites : OnlyWrites read_snapshot
unfolding read_snapshot
snapshot-OnlyWrites = search only_writes

module _ (env : Environment) (meanwhile : RunDirectory → RunDirectory)
    (reason : Option String) where
  unstarted-OnlyWrites :
      OnlyWrites (modify meanwhile) → OnlyWrites (stop_unstarted env meanwhile reason)
  unfolding stop_unstarted
  unstarted-OnlyWrites others = search (only_writes, pending-OnlyWrites, busy-OnlyWrites) depth 10

  pub request_stop-OnlyWrites :
      OnlyWrites (modify meanwhile) → OnlyWrites (request_stop env meanwhile reason)
  unfolding request_stop read_snapshot
  request_stop-OnlyWrites others = OnlyWrites-bind read_snapshot _ snapshot-OnlyWrites λ s.
      OnlyWrites-if (is_terminal s.status) _ _ inspect-OnlyWrites (
        OnlyWrites-if (is_status s.status paused || is_status s.status running) _ _
          (OnlyWrites-bind (persist env reason s) _ (persist-OnlyWrites env reason s)
            λ _. inspect-OnlyWrites)
          (unstarted-OnlyWrites others))
