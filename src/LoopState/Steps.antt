-- ===== src/LoopState/Steps.antt =====
-- `_LoopStateContract.validate_transition` of packages/ac-proposer-reviewer/src/
-- ac_proposer_reviewer/state.py, and what it makes of a history of states.
use ac_foundation.Prelude.{
  Bool, List, Option, String, [], arith, false, if◌then◌else◌, is_some, length, none, not, some,
  str_eq, true, ◌&&◌, ◌+◌, ◌==◌, ◌||◌, ◌∷◌, ◌≡◌, ◌⊎◌, eq_iff, inl, inr, refl, ℕ, ◌∙◌, ◌≢◌, ◌≤◌,
}
use ac_foundation.LoopState.{LoopState, LoopTermination, PauseRecord, SessionRef, termination_value}
use ac_foundation.Errors.{Result, ok, raise_if, value_error, ◌>>◌, >>=-eq-ok, raise_if-ok}
use ac_foundation.Models.{awaiting_eq, optional_eq, ref_eq}

-- `==` on dicts, on lists and on the records.
abbrev value_of : {A : Type 0} → String → List (String × A) → Option A
value_of k [] = none
value_of k ((j, a) ∷ items) = if str_eq j k then some a else value_of k items

abbrev same_value : {A : Type 0} → (A → A → Bool) → A → Option A → Bool
same_value eq a none = false
same_value eq a (some b) = eq a b

abbrev same_items : {A : Type 0} → (A → A → Bool) → List (String × A) → List (String × A) → Bool
same_items eq [] others = true
same_items eq ((k, a) ∷ items) others =
    same_value eq a (value_of k others) && same_items eq items others

abbrev map_eq : {A : Type 0} → (A → A → Bool) → List (String × A) → List (String × A) → Bool
map_eq eq items others = length items == length others && same_items eq items others

abbrev list_eq : {A : Type 0} → (A → A → Bool) → List A → List A → Bool
list_eq eq [] [] = true
list_eq eq (a ∷ xs) (b ∷ ys) = eq a b && list_eq eq xs ys
list_eq eq _ _ = false

abbrev session_eq : SessionRef → SessionRef → Bool
session_eq a b =
    str_eq a.session_key b.session_key && str_eq a.accepted_prefix_sha256 b.accepted_prefix_sha256

abbrev termination_eq : LoopTermination → LoopTermination → Bool
termination_eq a b = str_eq (termination_value a) (termination_value b)

pause_eq : PauseRecord → PauseRecord → Bool
pause_eq a b =
    str_eq a.role b.role
    && str_eq a.worker_id b.worker_id
    && a.round_number == b.round_number
    && str_eq a.task_id b.task_id
    && awaiting_eq a.awaiting b.awaiting

unfoldable pub loop_eq : LoopState → LoopState → Bool
unfolding pause_eq
loop_eq a b =
    a.revision == b.revision
    && str_eq a.loop_id b.loop_id
    && a.rounds_completed == b.rounds_completed
    && map_eq ref_eq a.proposal_refs b.proposal_refs
    && list_eq str_eq a.current_proposer_ids b.current_proposer_ids
    && optional_eq ref_eq a.review_ref b.review_ref
    && map_eq session_eq a.proposer_sessions b.proposer_sessions
    && optional_eq session_eq a.reviewer_session b.reviewer_session
    && list_eq ref_eq a.transcript_refs b.transcript_refs
    && map_eq pause_eq a.pauses b.pauses
    && optional_eq termination_eq a.termination b.termination

abbrev is_empty : {A : Type 0} → List A → Bool
is_empty [] = true
is_empty (x ∷ xs) = false

-- `validate_transition`
unfoldable pub validate_loop : Option LoopState → LoopState → Result (Unit {0})
unfolding loop_eq
validate_loop none n = raise_if (not (n.revision == 0) || not (n.rounds_completed == 0)) value_error
validate_loop (some p) n = do
  raise_if (not (str_eq n.loop_id p.loop_id)) value_error
  raise_if (not (n.revision == p.revision + 1)) value_error
  raise_if
      (not (n.rounds_completed == p.rounds_completed)
        && not (n.rounds_completed == p.rounds_completed + 1))
      value_error
  raise_if (n.rounds_completed == p.rounds_completed + 1 && not (is_empty n.pauses)) value_error
  raise_if (is_some p.termination && not (loop_eq n p)) value_error

-- The states that validated writes lead through, the last first.
pub data LoopHistory : LoopState → LoopState → Type 0 where
  created : {s : LoopState} → validate_loop none s ≡ ok tt → LoopHistory s s
  next :
      {first s t : LoopState}
      → LoopHistory first s
      → validate_loop (some s) t ≡ ok tt
      → LoopHistory first t

-- What one allowed step changes.
record Step (p n : LoopState) : Type 0 where
  same_loop : n.loop_id ≡ p.loop_id
  one_revision : n.revision ≡ p.revision + 1
  rounds : (n.rounds_completed ≡ p.rounds_completed) ⊎ (n.rounds_completed ≡ p.rounds_completed + 1)
  open_before : p.termination ≡ none
  no_pauses : n.rounds_completed ≡ p.rounds_completed + 1 → n.pauses ≡ []

different : (p n : LoopState) → n.revision ≡ p.revision + 1 → loop_eq n p ≡ false
unfolding loop_eq
different p n h = ground arith

revision_of : (m n : ℕ) → not (m == n) ≡ false → m ≡ n
revision_of m n h = ground arith

text_of_test : (s t : String) → not (str_eq s t) ≡ false → s ≡ t
text_of_test s t h = ground (arith, eq_iff s t)

rounds_of : (m n : ℕ) → (not (m == n) && not (m == n + 1)) ≡ false → (m ≡ n) ⊎ (m ≡ n + 1)
rounds_of m n h = ground arith

open_of :
    (o : Option LoopTermination) (same : Bool)
    → same ≡ false
    → (is_some o && not same) ≡ false
    → o ≡ none
open_of none same e h = refl
open_of (some t) same e h = ground arith

pauses_of :
    (m n : ℕ) (ps : List (String × PauseRecord))
    → (m == n + 1 && not (is_empty ps)) ≡ false
    → m ≡ n + 1
    → ps ≡ []
pauses_of m n [] h e = refl
pauses_of m n (p ∷ ps) h e = ground arith

Step-of : (p n : LoopState) → validate_loop (some p) n ≡ ok tt → Step p n
unfolding validate_loop
Step-of p n h =
    let (a, p1, q1) = >>=-eq-ok (raise_if (not (str_eq n.loop_id p.loop_id)) value_error) _ h in
    let (b, p2, q2) = >>=-eq-ok (raise_if (not (n.revision == p.revision + 1)) value_error) _ q1 in
    let (c, p3, q3) =
      >>=-eq-ok
        (raise_if
          (not (n.rounds_completed == p.rounds_completed)
            && not (n.rounds_completed == p.rounds_completed + 1))
          value_error)
        _ q2 in
    let (d, p4, q4) =
      >>=-eq-ok
        (raise_if (n.rounds_completed == p.rounds_completed + 1 && not (is_empty n.pauses))
          value_error)
        _ q3 in
    let advanced = revision_of _ _ (raise_if-ok _ value_error p2) in
    record {
      same_loop = text_of_test _ _ (raise_if-ok _ value_error p1);
      one_revision = advanced;
      rounds = rounds_of _ _ (raise_if-ok _ value_error p3);
      open_before =
          open_of p.termination (loop_eq n p) (different p n advanced)
            (raise_if-ok _ value_error q4);
      no_pauses = pauses_of _ _ n.pauses (raise_if-ok _ value_error p4);
    }

-- What a history of states keeps.
record Kept (first last : LoopState) : Type 0 where
  kept_loop : last.loop_id ≡ first.loop_id
  began : (first.revision ≡ 0) × (first.rounds_completed ≡ 0)
  rounds_within : last.rounds_completed ≤ last.revision

began_of : (m n : ℕ) → (not (m == 0) || not (n == 0)) ≡ false → (m ≡ 0) × (n ≡ 0)
began_of m n h = ground arith

History-Kept : {first last : LoopState} → LoopHistory first last → Kept first last
unfolding validate_loop
History-Kept (created {s} h) =
    let (p, q) = began_of s.revision s.rounds_completed (raise_if-ok _ value_error h) in
    record { kept_loop = refl; began = (p, q); rounds_within = omega (arith, p, q) }
History-Kept (next {first} {s} {t} h v) =
    let k = History-Kept h in
    let st = Step-of s t v in
    record {
      kept_loop = st.same_loop ∙ k.kept_loop;
      began = k.began;
      rounds_within = omega (arith, k.rounds_within, st.one_revision, st.rounds);
    }

-- In every history of validated writes the loop keeps its id and has completed at most as many rounds
-- as it has revisions; it starts with none of either.
pub history-bounds :
    {first last : LoopState}
    → LoopHistory first last
    → (last.loop_id ≡ first.loop_id)
      × (first.revision ≡ 0)
      × (first.rounds_completed ≡ 0)
      × (last.rounds_completed ≤ last.revision)
history-bounds h = let k = History-Kept h in (k.kept_loop, k.began.0, k.began.1, k.rounds_within)

-- No write follows a terminated state, and a write that completes a round leaves no pause.
pub validate_loop-final :
    (s t : LoopState)
    → validate_loop (some s) t ≡ ok tt
    → (s.termination ≡ none) × (t.rounds_completed ≢ s.rounds_completed → t.pauses ≡ [])
validate_loop-final s t v =
    let st = Step-of s t v in
    (
      st.open_before,
      λ other. elim st.rounds [ inl same ↦ absurd (other same) | inr one ↦ st.no_pauses one ],
    )
