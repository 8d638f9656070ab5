-- ===== src/Circuit/Opening.antt =====
-- Circuits that open (packages/ac-llm/src/ac_llm/gate.py): what an outcome does to a circuit that
-- nobody else writes, and which calls are refused afterwards.
use ac_foundation.Circuit.Admission.{
  CircuitFiles, before_call, before_state, circuit_category, open_failure, refused,
}
use ac_foundation.Circuit.{
  CircuitState, CircuitToken, FailureCategory, FloatOps, category_value, circuit_contract,
  float_less, is_circuit_failure, is_immediate, authentication, internal, invalid_request, local_io,
  quota, rate_limit, schema, stopped_call, timeout, transport, unavailable,
}
use ac_foundation.Circuit.Outcomes.{
  GateOptions, ProviderFailure, circuit_rounds, cooldown, failed_state, failure_round,
  record_failure, record_success, success_current, success_round, epoch_of,
}
use ac_foundation.Circuit.Recording.{Holds, failure_current-writes, read-Holds, Holds-written}
use ac_foundation.Storage.{JsonFile, holding}
use ac_foundation.Prelude.{
  Option, refl, some, suc, true, ℕ, ◌≡◌, ◌≢◌, subst, sym, Bool-cases, ap, arith, inl, inr, ◌∙◌, ◌≤◌,
}
use ac_foundation.Storage.State.{encode_state, read_state}
use ac_foundation.Errors.{ok}
use ac_foundation.Workers.{Round, done}

pub circuit_rounds-done :
    (round : ℕ → JsonFile → JsonFile → Round JsonFile) (others : ℕ → JsonFile → JsonFile)
    (fuel i : ℕ) (file g : JsonFile)
    → round i file (others i file) ≡ done g
    → circuit_rounds round others (suc fuel) i file ≡ some (ok g)
unfolding circuit_rounds
circuit_rounds-done round others fuel i file g e = rw (e, circuit_rounds) refl

pub failure_round-writes :
    (ops : FloatOps) (options : GateOptions) (token : CircuitToken) (failure : ProviderFailure)
    (clock : ℕ → ℕ) (file : JsonFile) (o : Option CircuitState)
    → Holds ops file o
    → failure_round ops options token failure clock 0 file file
      ≡ done (
          holding (
            encode_state
              (circuit_contract ops)
              (failed_state ops options token failure (clock 0) o)))
unfolding failure_round
failure_round-writes ops options token failure clock file o holds =
    rw (read-Holds ops file o holds)
      (failure_current-writes ops options token failure (clock 0) file o holds)

pub some_ok : {a b : JsonFile} → some (ok a) ≡ some (ok b) → a ≡ b
some_ok h = cc

-- `_record_failure` without interference writes the failed state in its first round.
record_failure-writes :
    (ops : FloatOps) (options : GateOptions) (token : CircuitToken) (failure : ProviderFailure)
    (clock : ℕ → ℕ) (others : ℕ → JsonFile → JsonFile) (fuel : ℕ) (file : JsonFile)
    (o : Option CircuitState)
    → options.enabled ≡ true
    → is_circuit_failure failure.category ≡ true
    → others 0 file ≡ file
    → Holds ops file o
    → record_failure ops options clock others (suc fuel) token failure file
      ≡ some (
          ok (
            holding (
              encode_state
                (circuit_contract ops)
                (failed_state ops options token failure (clock 0) o))))
unfolding record_failure
record_failure-writes ops options token failure clock others fuel file o enabled counts quiet
      holds =
    simp (enabled, counts)
      (circuit_rounds-done (failure_round ops options token failure clock) others fuel 0 file _ (
        subst
          (λ f.
            failure_round ops options token failure clock 0 file f
            ≡ done (
                holding (
                  encode_state (circuit_contract ops)
                    (failed_state ops options token failure (clock 0) o))))
          (sym quiet) (failure_round-writes ops options token failure clock file o holds)))

circuit_category-value :
    (c : FailureCategory)
    → is_circuit_failure c ≡ true
    → circuit_category (some (category_value c)) ≡ c
circuit_category-value authentication h = refl
circuit_category-value quota h = refl
circuit_category-value rate_limit h = refl
circuit_category-value transport h = refl
circuit_category-value unavailable h = refl
circuit_category-value invalid_request h = cc
circuit_category-value schema h = cc
circuit_category-value timeout h = cc
circuit_category-value stopped_call h = cc
circuit_category-value local_io h = cc
circuit_category-value internal h = cc

immediate-is_counted : (c : FailureCategory) → is_immediate c ≡ true → is_circuit_failure c ≡ true
immediate-is_counted authentication h = refl
immediate-is_counted quota h = refl
immediate-is_counted rate_limit h = refl
immediate-is_counted transport h = cc
immediate-is_counted unavailable h = cc
immediate-is_counted invalid_request h = cc
immediate-is_counted schema h = cc
immediate-is_counted timeout h = cc
immediate-is_counted stopped_call h = cc
immediate-is_counted local_io h = cc
immediate-is_counted internal h = cc

before_state-open :
    (ops : FloatOps) (clock : ℕ → ℕ) (turns : ℕ → CircuitFiles → CircuitFiles)
    (files : CircuitFiles) (s : CircuitState) (until : ℕ)
    → float_less (clock 0) until ≡ true
    → before_state ops clock turns files (ok (some (record s { opened_until = some until })))
      ≡ (refused (open_failure ops (record s { opened_until = some until }) (clock 0)), files)
unfolding before_state
before_state-open ops clock turns files s until early = rw early refl

-- An open circuit refuses a call that starts before its deadline.
before_call-open :
    (ops : FloatOps) (clock : ℕ → ℕ) (turns : ℕ → CircuitFiles → CircuitFiles)
    (files : CircuitFiles) (s : CircuitState) (until : ℕ)
    → read_state (circuit_contract ops) files.circuit ≡ ok (some s)
    → s.opened_until ≡ some until
    → float_less (clock 0) until ≡ true
    → before_call ops clock turns files ≡ (refused (open_failure ops s (clock 0)), files)
unfolding before_call
before_call-open ops clock turns files s until reads open_until early = rw reads (
    subst
      (λ x.
        before_state ops clock turns files (ok (some x))
        ≡ (refused (open_failure ops x (clock 0)), files))
      (λ i. record s { opened_until = sym open_until i })
      (before_state-open ops clock turns files s until early))

failed_state-opens :
    (ops : FloatOps) (options : GateOptions) (token : CircuitToken) (failure : ProviderFailure)
    (time : ℕ) (o : Option CircuitState)
    → is_immediate failure.category ≡ true
    → (failed_state ops options token failure time o).opened_until
      ≡ some (ops.plus time (cooldown options failure.retry_after_seconds))
unfolding failed_state
failed_state-opens ops options token failure time o immediate = simp immediate refl

-- A success changes nothing where the circuit is of another epoch than the call, as after the circuit
-- has opened in the meantime.
record_success-late :
    (ops : FloatOps) (options : GateOptions) (token : CircuitToken)
    (others : ℕ → JsonFile → JsonFile) (fuel : ℕ) (file : JsonFile) (s : CircuitState)
    → read_state (circuit_contract ops) file ≡ ok (some s)
    → s.epoch ≢ token.epoch
    → others 0 file ≡ file
    → record_success ops options others (suc fuel) token file ≡ some (ok file)
unfolding record_success success_round success_current circuit_rounds
record_success-late ops options token others fuel file s e other quiet =
    elim (Bool-cases options.enabled) [
      | inl y ↦ simp y (
          circuit_rounds-done (success_round ops token) others fuel 0 file (others 0 file) late
          ∙ ap (λ f. some (ok f)) quiet)
      | inr n ↦ simp n refl
    ]
  where
    late : success_round ops token 0 file (others 0 file) ≡ done (others 0 file)
    late = rw e (ground (arith, other))

-- Successes that are recorded one after the other, without interference, of calls that were admitted in
-- this epoch or an earlier one.
pub data Successes (ops : FloatOps) (options : GateOptions) (epoch : ℕ) (file : JsonFile)
    : JsonFile → Type 0 where
  no_success : Successes ops options epoch file file
  success :
      {g h : JsonFile}
      → Successes ops options epoch file g
      → (token : CircuitToken) (others : ℕ → JsonFile → JsonFile) (fuel : ℕ) → token.epoch ≤ epoch
      → others 0 g ≡ g
      → record_success ops options others (suc fuel) token g ≡ some (ok h)
      → Successes ops options epoch file h

-- They leave a circuit of a later epoch as it is.
Successes-late :
    (ops : FloatOps) (options : GateOptions) (epoch : ℕ) (file : JsonFile) (s : CircuitState)
    {h : JsonFile}
    → read_state (circuit_contract ops) file ≡ ok (some s)
    → s.epoch ≡ suc epoch
    → Successes ops options epoch file h
    → file ≡ h
Successes-late ops options epoch file s reads advanced no_success = refl
Successes-late ops options epoch file s reads advanced
      (success {g} {h} more token others fuel old quiet r) =
    let same = Successes-late ops options epoch file s reads advanced more in
    let reads_g = subst (λ f. read_state (circuit_contract ops) f ≡ ok (some s)) same reads in
    same
    ∙ some_ok (
        sym (
          record_success-late ops options token others fuel g s reads_g
            (λ e. absurd (omega (arith, e, advanced, old))) quiet)
        ∙ r)

failed_state-epoch :
    (ops : FloatOps) (options : GateOptions) (token : CircuitToken) (failure : ProviderFailure)
    (time : ℕ) (o : Option CircuitState)
    → is_immediate failure.category ≡ true
    → (failed_state ops options token failure time o).epoch ≡ suc (epoch_of o)
unfolding failed_state
failed_state-epoch ops options token failure time o immediate = simp immediate (omega arith)

-- After a failure whose category opens the circuit at once, recorded without interference, and then any
-- successes of calls that were admitted before it, but no other write of the circuit, a call that starts
-- before the deadline is refused, with the category of the failure, and nothing changes.
pub record_failure-refuses :
    (ops : FloatOps) (options : GateOptions) (token : CircuitToken) (failure : ProviderFailure)
    (clock later_clock : ℕ → ℕ) (others : ℕ → JsonFile → JsonFile)
    (turns : ℕ → CircuitFiles → CircuitFiles) (fuel : ℕ) (files : CircuitFiles)
    (o : Option CircuitState) {file later : JsonFile}
    → options.enabled ≡ true
    → is_immediate failure.category ≡ true
    → others 0 files.circuit ≡ files.circuit
    → Holds ops files.circuit o
    → record_failure ops options clock others (suc fuel) token failure files.circuit
      ≡ some (ok file)
    → Successes ops options (epoch_of o) file later
    → float_less (later_clock 0) (ops.plus (clock 0) (cooldown options failure.retry_after_seconds))
      ≡ true
    → let after = record files { circuit = later } in
      (retry_after : ℕ) × (before_call ops later_clock turns after ≡ (
        refused (record { category = failure.category; retry_after_seconds = retry_after }),
        after,
      ))
unfolding before_call before_state failed_state open_failure
record_failure-refuses ops options token failure clock later_clock others turns fuel files o {file}
      {later} enabled immediate quiet holds recorded successes early =
    let s = failed_state ops options token failure (clock 0) o in
    let counts = immediate-is_counted failure.category immediate in
    let is_file : file ≡ holding (encode_state (circuit_contract ops) s) = some_ok (
      sym recorded
      ∙ record_failure-writes ops options token failure clock others fuel files.circuit o enabled
          counts quiet holds) in
    let reads =
      ap (read_state (circuit_contract ops)) is_file
      ∙ read-Holds ops _ (some s) (Holds-written ops s) in
    let same =
      Successes-late ops options (epoch_of o) file s reads
        (failed_state-epoch ops options token failure (clock 0) o immediate) successes in
    (
      (open_failure ops s (later_clock 0)).retry_after_seconds,
      before_call-open ops later_clock turns (record files { circuit = later }) s _
            (ap (read_state (circuit_contract ops)) (sym same) ∙ reads)
            (failed_state-opens ops options token failure (clock 0) o immediate) early
          ∙ ap
              (λ c. (
                refused (record {
                  category = c;
                  retry_after_seconds = (open_failure ops s (later_clock 0)).retry_after_seconds;
                }),
                record files { circuit = later },
              ))
              (circuit_category-value failure.category counts),
    )
