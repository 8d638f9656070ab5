-- ===== src/Tests/Circuits.antt =====
-- A circuit with a threshold of two failures, in whole seconds of a clock of floats that are read as
-- numbers.
use ac_foundation.Circuit.Admission.{CircuitFiles, admitted, before_call, refused}
use ac_foundation.Circuit.{
  CircuitState, CircuitToken, FloatOps, circuit_contract, float_less, quota, transport,
  decode_circuit, encode_circuit, validate_circuit,
}
use ac_foundation.Circuit.Outcomes.{
  GateOptions, ProviderFailure, record_failure, record_success, circuit_rounds,
}
use ac_foundation.Circuit.Probe.{IsProbePool, before_call-one_probe}
use ac_foundation.Storage.{JsonFile, absent, holding}
use ac_foundation.Prelude.{Option, arith, false, inl, none, refl, some, true, ℕ, ◌+◌, ◌-◌, ◌≡◌}
use ac_foundation.Errors.{Result, err, ok, value_error}
use ac_foundation.Circuit.Threshold.{WithinThreshold, closed-below_threshold, failed_call, fresh}
use ac_foundation.Storage.State.{encode_state, read_state, create_state, decode_state}
use ac_foundation.Circuit.Recording.{no_state}
use ac_foundation.Circuit.Opening.{record_failure-refuses, Successes, no_success, success}
use ac_foundation.Circuit.Ending.{record_outcome-ends}
use ac_foundation.LeasePool.{acquire, acquire_round, bind_capacity, open_pool, scan}

abbrev whole_seconds : FloatOps
whole_seconds = record { of_int = λ z. err value_error; plus = λ x y. x + y; minus = λ x y. x - y }

abbrev two_failures : GateOptions
two_failures = record {
  enabled = true;
  circuit_failure_threshold = 2;
  circuit_cooldown_seconds = 10;
}

abbrev call : CircuitToken
call = record { epoch = 0; half_open_probe = false }

abbrev quota_failure : ProviderFailure
quota_failure = record { category = quota; retry_after_seconds = none }

abbrev transport_failure : ProviderFailure
transport_failure = record { category = transport; retry_after_seconds = none }

abbrev quiet : ℕ → JsonFile → JsonFile
quiet i file = file

abbrev opened_circuit : CircuitState
opened_circuit = record {
  revision = 0;
  consecutive_failures = 1;
  epoch = 1;
  opened_until = some 110;
  category = some "quota";
}

abbrev file_of : CircuitState → JsonFile
file_of s = holding (encode_state (circuit_contract whole_seconds) s)

quota_recorded :
    record_failure whole_seconds two_failures (λ i. 100) quiet 1 call quota_failure absent
    ≡ some (ok (file_of opened_circuit))
unfolding record_failure circuit_rounds read_state create_state validate_circuit
quota_recorded = refl

abbrev no_files : CircuitFiles
no_files = record {
  circuit = absent;
  probe_file = absent;
  probe = record { pool_file = absent; acquiring = false; slots = λ i. false };
}

early : float_less 105 110 ≡ true
unfolding float_less
early = refl

-- A call that was admitted before succeeds late.
late_success :
    record_success whole_seconds two_failures quiet 1 call (file_of opened_circuit)
    ≡ some (ok (file_of opened_circuit))
unfolding record_success circuit_rounds read_state decode_state decode_circuit encode_circuit
late_success = refl

one_success :
    Successes whole_seconds two_failures 0 (file_of opened_circuit) (file_of opened_circuit)
one_success = success no_success call quiet 0 (omega arith) refl late_success

record_failure-refuses_example :
    let after = record no_files { circuit = file_of opened_circuit } in
    (retry_after : ℕ) × (before_call whole_seconds (λ i. 105) (λ i f. f) after
      ≡ (refused (record { category = quota; retry_after_seconds = retry_after }), after))
record_failure-refuses_example =
    record_failure-refuses whole_seconds two_failures call quota_failure (λ i. 100) (λ i. 105) quiet
      (λ i f. f) 0 no_files none refl refl refl (no_state refl) quota_recorded one_success early

opened_read :
    read_state (circuit_contract whole_seconds) (file_of opened_circuit) ≡ ok (some opened_circuit)
unfolding read_state decode_state decode_circuit encode_circuit
opened_read = refl

record_outcome-ends_example :
    ((r : Result JsonFile) × (record_success whole_seconds two_failures quiet 3 call absent
        ≡ some r))
    × ((r : Result JsonFile) × (record_failure whole_seconds two_failures
            (λ i. 100)
            quiet
            3
            call
            quota_failure
            absent
          ≡ some r))
record_outcome-ends_example =
    record_outcome-ends whole_seconds two_failures call quota_failure (λ i. 100) quiet 2 absent
      (record { quiet = λ i file h. refl })

abbrev probe_token : CircuitToken
probe_token = record { epoch = 1; half_open_probe = true }

abbrev opened_files : CircuitFiles
opened_files = record no_files { circuit = file_of opened_circuit }

abbrev no_turns : ℕ → CircuitFiles → CircuitFiles
no_turns i files = files

probe_admitted :
    (before_call whole_seconds (λ i. 110) no_turns opened_files).0 ≡ admitted probe_token
unfolding before_call read_state decode_state decode_circuit encode_circuit float_less open_pool
    bind_capacity acquire acquire_round scan
probe_admitted = refl

-- The probe succeeds and closes the circuit, and another call starts before it releases the lease.
abbrev closed_circuit : CircuitState
closed_circuit = record {
  revision = 1;
  consecutive_failures = 0;
  epoch = 1;
  opened_until = none;
  category = none;
}

abbrev close : CircuitFiles → CircuitFiles
close files = record files { circuit = file_of closed_circuit }

abbrev next_token : CircuitToken
next_token = record { epoch = 1; half_open_probe = false }

next_admitted :
    (before_call whole_seconds
      (λ i. 120)
      no_turns
      (close (before_call whole_seconds (λ i. 110) no_turns opened_files).1)).0
    ≡ admitted next_token
unfolding before_call read_state decode_state decode_circuit encode_circuit
next_admitted = refl

no_pool : IsProbePool absent
unfolding IsProbePool
no_pool = inl refl

before_call-one_probe_example : next_token.half_open_probe ≡ false
before_call-one_probe_example =
    before_call-one_probe whole_seconds (λ i. 110) (λ i. 120) no_turns no_turns close opened_files
      probe_token next_token no_pool (λ files h. h) (λ files h. h) (λ files h. h) (λ files h. h)
      probe_admitted refl next_admitted

abbrev one_failure : CircuitState
one_failure = record {
  revision = 0;
  consecutive_failures = 1;
  epoch = 0;
  opened_until = none;
  category = some "transport";
}

transport_recorded :
    record_failure whole_seconds two_failures (λ i. 100) (λ i f. f) 1 call transport_failure absent
    ≡ some (ok (file_of one_failure))
unfolding record_failure circuit_rounds read_state create_state validate_circuit
transport_recorded = refl

closed-below_threshold_example :
    (o : Option CircuitState) × (read_state (circuit_contract whole_seconds) (file_of one_failure)
      ≡ ok o)
    × WithinThreshold two_failures o
closed-below_threshold_example =
    closed-below_threshold whole_seconds two_failures (file_of one_failure) (omega arith)
      (failed_call fresh call transport_failure (λ i. 100) (file_of one_failure) transport_recorded)
