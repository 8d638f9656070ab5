-- ===== src/Groups/Replay.antt =====
-- Which results a later run of a group takes over from the replay directories
-- (packages/ac-jobs/src/ac_jobs/groups.py).
use ac_foundation.Prelude.{
  Bool, Bool-cases, List, String, [], arith, eq_iff, inl, inr, some, true, ◌∷◌, ◌≡◌, &&-eq-true, ap,
  not, sym, ◌∙◌, Option, none,
}
use ac_foundation.Json.{Fields, JsonValue, arr, bool, float, get, int, null, obj, str}
use ac_foundation.Storage.{JsonFile, absent, damaged, holding}
use ac_foundation.Groups.{
  UnitResult, is_replayable, replay, unit_result, replayed_result, load_unit, or_own,
}
use ac_foundation.Snapshot.Codec.{is_text, text}
use ac_foundation.Errors.{ok, >>=-eq-ok, raise_if, resume_mismatch, ◌>>=◌, Result}

replay-is_replayable :
    (key : String) (files : List JsonFile) (fs : Fields)
    → replay key files ≡ ok (some fs)
    → is_replayable key fs ≡ true
unfolding replay
replay-is_replayable key [] fs h = absurd (ground arith)
replay-is_replayable key (absent ∷ files) fs h = replay-is_replayable key files fs h
replay-is_replayable key (damaged ∷ files) fs h = absurd (ground arith)
replay-is_replayable key (holding gs ∷ files) fs h = elim (Bool-cases (is_replayable key gs)) [
  | inl e ↦ ground arith
  | inr e ↦ absurd (ground arith)
]

is_text-eq : (t : String) (v : JsonValue) (s : String) → is_text t v ≡ true → text v ≡ ok s → s ≡ t
is_text-eq t (str u) s h k = let same : u ≡ t = (eq_iff u t).0 h in cc
is_text-eq t null s h k = cc
is_text-eq t (bool b) s h k = cc
is_text-eq t (int z) s h k = cc
is_text-eq t (float p) s h k = cc
is_text-eq t (arr xs) s h k = cc
is_text-eq t (obj fs) s h k = cc

unit_result-status :
    (fs : Fields) (unit_id key : String) (replayed : Bool) (r : UnitResult)
    → unit_result fs unit_id key replayed ≡ ok r
    → text (get "status" fs) ≡ ok r.status
unfolding unit_result
unit_result-status fs unit_id key replayed r h = ground arith

replayed_result-status :
    (unit_id key : String) (fs : Fields) (r : UnitResult)
    → is_replayable key fs ≡ true
    → replayed_result unit_id key (holding fs) ≡ ok (some r)
    → r.status ≡ "succeeded"
unfolding replayed_result
replayed_result-status unit_id key fs r h e =
    let (t, p, q) =
      >>=-eq-ok (raise_if (not (is_text key (get "semantic_key_sha256" fs))) resume_mismatch) _ e in
    let (x, found, same) = >>=-eq-ok (unit_result fs unit_id key true) _ q in
    let (a, b) =
      &&-eq-true (is_text key (get "semantic_key_sha256" fs))
        (is_text "succeeded" (get "status" fs)) h in
    let kept : x ≡ r = ground arith in
    sym (ap (λ y. y.status) kept)
    ∙ is_text-eq "succeeded" (get "status" fs) x.status b
        (unit_result-status fs unit_id key true x found)

-- A unit that has no file of its own starts with a replayed result only where it succeeded: a
-- failure in a replay directory is left for the unit to run again.
pub load_unit-succeeded :
    (unit_id key : String) (replays : List JsonFile) (file' : JsonFile) (r : UnitResult)
    → load_unit unit_id key replays absent ≡ ok (file', some r)
    → r.status ≡ "succeeded"
unfolding load_unit replayed_result
load_unit-succeeded unit_id key replays file' r h =
    let (found, p, q) = >>=-eq-ok (replay key replays) with_result h in go found p q
  where
    with_result : Option Fields → Result (JsonFile × Option UnitResult)
    with_result found = do
      result ← replayed_result unit_id key (or_own absent found)
      ok (or_own absent found, result)

    paired : Fields → Option UnitResult → Result (JsonFile × Option UnitResult)
    paired fs result = ok (holding fs, result)

    go :
        (found : Option Fields)
        → replay key replays ≡ ok found
        → with_result found ≡ ok (file', some r)
        → r.status ≡ "succeeded"
    go none p q = absurd (ground arith)
    go (some fs) p q =
        let (result, e, k) = >>=-eq-ok (replayed_result unit_id key (holding fs)) (paired fs) q in
        let same : result ≡ some r = ground arith in
        replayed_result-status unit_id key fs r (replay-is_replayable key replays fs p)
          (e ∙ ap ok same)
