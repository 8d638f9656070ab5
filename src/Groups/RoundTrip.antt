-- ===== src/Groups/RoundTrip.antt =====
-- A unit that has finished is replayed by a later run of its group
-- (packages/ac-jobs/src/ac_jobs/groups.py).
use ac_foundation.Prelude.{
  Bool, Option, String, arith, eq_refl, false, none, some, true, ◌&&◌, ◌≡◌, List, eq_iff,
  Bool-cases, ap, inl, inr, subst₂, ◌∙◌,
}
use ac_foundation.Errors.{
  JobsError, Result, ok, ◌>>=◌, base_exception, err, stopped, ◌>>◌, >>=-eq-ok, Result-cases,
}
use ac_foundation.Json.{JsonValue, str}
use ac_foundation.Models.{RunError}
use ac_foundation.Groups.{
  UnitResult, WorkUnit, WorkerValue, caught, failed_unit, is_unit_status, outcome_of,
  succeeded_with_value, unit_document, unit_error, unit_finished, unit_result, Outcome,
  artifact_value, json_value, load_unit, pausing, record_unit, replayed_result, reporting,
  unit_paused, invoke,
}
use ac_foundation.Snapshot.Codec.{error_json}
use ac_foundation.Storage.{JsonFile, holding}

abbrev is_str : JsonValue → Bool
is_str (str t) = true
is_str _ = false

-- The code and the message of the error are texts.
abbrev pub has_texts : Option RunError → Bool
has_texts none = true
has_texts (some e) = is_str e.code && is_str e.message

unit_error-error_json :
    (e : Option RunError) {v : JsonValue}
    → has_texts e ≡ true
    → error_json e ≡ ok v
    → unit_error v ≡ ok e
unfolding unit_error error_json
unit_error-error_json none t h = ground arith
unit_error-error_json (some e) t h = ground arith

unit_result-unit_document :
    (unit_id key : String) (r : UnitResult) {v : JsonValue}
    → r.unit_id ≡ unit_id
    → is_unit_status r.status ≡ true
    → has_texts r.error ≡ true
    → error_json r.error ≡ ok v
    → unit_result (unit_document unit_id key r v) unit_id key true
      ≡ ok (record r { replayed = true })
unfolding unit_result
unit_result-unit_document unit_id key r i s t e =
    ground (arith, unit_error-error_json r.error t e, eq_refl unit_id, eq_refl key)

outcome_of-id :
    (unit : WorkUnit) (v : WorkerValue) (r : UnitResult)
    → outcome_of unit v ≡ ok (unit_finished r)
    → r.unit_id ≡ unit.unit_id
unfolding outcome_of succeeded_with_value
outcome_of-id unit (pausing a) r h = absurd (ground arith)
outcome_of-id unit (reporting x) r h = ground (arith, eq_iff x.unit_id unit.unit_id)
outcome_of-id unit (artifact_value ref) r h = ground arith
outcome_of-id unit (json_value v) r h = ground arith

worked-id :
    (unit : WorkUnit) (stop : Result (Unit {0})) (worker : Result WorkerValue) (r : UnitResult)
    → (stop >> (worker >>= outcome_of unit)) ≡ ok (unit_finished r)
    → r.unit_id ≡ unit.unit_id
worked-id unit (err e) worker r h = absurd cc
worked-id unit (ok t) (err e) r h = absurd cc
worked-id unit (ok t) (ok v) r h = outcome_of-id unit v r h

failed_unit-id :
    (describe : JobsError → String) (unit : WorkUnit) (e : JobsError) (r : UnitResult)
    → caught describe unit (err e) ≡ ok (unit_finished r)
    → r.unit_id ≡ unit.unit_id
unfolding caught failed_unit
failed_unit-id describe unit stopped r h = absurd cc
failed_unit-id describe unit base_exception r h = absurd cc
failed_unit-id describe unit _ r h = ground arith

caught-id :
    (describe : JobsError → String) (unit : WorkUnit) (m : Result Outcome) (r : UnitResult)
    → (m ≡ ok (unit_finished r) → r.unit_id ≡ unit.unit_id)
    → caught describe unit m ≡ ok (unit_finished r)
    → r.unit_id ≡ unit.unit_id
unfolding caught
caught-id describe unit (ok o) r k h = k h
caught-id describe unit (err e) r k h = failed_unit-id describe unit e r h

record_unit-outcome :
    (unit : WorkUnit) (key : String) (o p : Outcome) (file file' : JsonFile)
    → record_unit unit key o file ≡ ok (file', p)
    → o ≡ p
unfolding record_unit
record_unit-outcome unit key (unit_paused a) p file file' h = ground arith
record_unit-outcome unit key (unit_finished x) p file file' h =
    elim (Result-cases (error_json x.error)) [
      | inl (v, e) ↦ ground arith
      | inr (w, e) ↦ ground arith
    ]

-- What `record_unit` writes is read back.
record_unit-loads :
    (unit : WorkUnit) (key : String) (replays : List JsonFile) (o : Outcome) (file : JsonFile)
    (r : UnitResult) {file' : JsonFile}
    → record_unit unit key o file ≡ ok (file', unit_finished r)
    → r.unit_id ≡ unit.unit_id
    → has_texts r.error ≡ true
    → load_unit unit.unit_id key replays file' ≡ ok (file', some (record r { replayed = true }))
unfolding record_unit load_unit replayed_result
record_unit-loads unit key replays (unit_paused a) file r h i t = absurd (ground arith)
record_unit-loads unit key replays (unit_finished x) file r {file'} h i t =
    elim (Bool-cases (is_unit_status x.status)) [
      | inr s ↦ absurd (ground arith)
      | inl s ↦ elim (Result-cases (error_json x.error)) [
        | inr (w, e) ↦ absurd (ground arith)
        | inl (v, e) ↦
            let kept : x ≡ r = ground arith in
            let written : holding (unit_document unit.unit_id key x v) ≡ file' = ground arith in
            let texts : has_texts x.error ≡ true = ap (λ y. has_texts y.error) kept ∙ t in
            let same : x.unit_id ≡ unit.unit_id = ap (λ y. y.unit_id) kept ∙ i in
            subst₂
              (λ y g.
                load_unit unit.unit_id key replays g ≡ ok (g, some (record y { replayed = true })))
              kept written
              (ground
                (arith, unit_result-unit_document unit.unit_id key x same s texts e, eq_refl key))
      ]
    ]

-- A unit that `invoke` has finished, whose error has a code and a message that are texts, is not run
-- again: a later run finds the same result in its file, marked as replayed.
pub invoke-load_unit :
    (describe : JobsError → String) (unit : WorkUnit) (key : String) (stop : Result (Unit {0}))
    (worker : Result WorkerValue) (file : JsonFile) (replays : List JsonFile) (r : UnitResult)
    {file' : JsonFile}
    → invoke describe unit key stop worker file ≡ ok (file', unit_finished r)
    → has_texts r.error ≡ true
    → load_unit unit.unit_id key replays file' ≡ ok (file', some (record r { replayed = true }))
unfolding invoke
invoke-load_unit describe unit key stop worker file replays r h t =
    let (o, c, w) =
      >>=-eq-ok (caught describe unit (stop >> (worker >>= outcome_of unit)))
        (λ o. record_unit unit key o file) h in
    record_unit-loads unit key replays o file r w
      (caught-id describe unit (stop >> (worker >>= outcome_of unit)) r
        (worked-id unit stop worker r)
        (c ∙ ap ok (record_unit-outcome unit key o (unit_finished r) file _ w)))
      t
