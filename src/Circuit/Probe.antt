-- ===== src/Circuit/Probe.antt =====
-- The half-open probe of packages/ac-llm/src/ac_llm/gate.py and its lease.
use ac_foundation.Circuit.Admission.{
  CircuitFiles, acquire_probe, taken_probe, admitted, before_call, before_state, Admission,
  probe_state,
}
use ac_foundation.Storage.{JsonFile, absent, holding}
use ac_foundation.LeasePool.{
  acquire, acquire_round, acquire_rounds, bind_capacity, choose, open_pool, persisted_capacity,
  pool_document, scan, Pool, take_slot,
}
use ac_foundation.Errors.{err, ok, run_busy, Result}
use ac_foundation.Prelude.{
  inl, inr, refl, true, ℕ, ◌≡◌, ◌⊎◌, Bool-cases, Option, false, if◌then◌else◌, none, some, ◌||◌,
  Bool, ◌∙◌, ap, subst, sym, arith,
}
use ac_foundation.Circuit.{CircuitState, CircuitToken, FloatOps, circuit_contract, float_less}
use ac_foundation.LeasePool.Limits.{held}
use ac_foundation.Storage.State.{read_state}

-- pool.json of the probe pool: none yet, or of one slot.
unfoldable pub IsProbePool : JsonFile → Type 0
IsProbePool file = (file ≡ absent) ⊎ (file ≡ holding (pool_document 1))

open_pool-one :
    (file : JsonFile) → IsProbePool file → open_pool 1 file ≡ ok (holding (pool_document 1), 1)
unfolding open_pool bind_capacity persisted_capacity IsProbePool
open_pool-one file (inl e) = rw e refl
open_pool-one file (inr e) = rw e refl

abbrev one_slot : Pool → Option (Result (ℕ × Pool))
one_slot p =
    if p.acquiring || p.slots 0
    then some (err run_busy)
    else some (ok (0, record p { slots = take_slot 0 p.slots }))

acquire_round-one_slot :
    (p : Pool)
    → acquire_round 1 1 p ≡ (
        if p.acquiring || p.slots 0
        then (none, p)
        else (some 0, record p { slots = take_slot 0 p.slots }))
unfolding acquire_round scan choose
acquire_round-one_slot p = elim (Bool-cases p.acquiring) [
  | inl y ↦ simp y refl
  | inr n ↦ elim (Bool-cases (p.slots 0)) [ inl h ↦ simp (n, h) refl | inr f ↦ simp (n, f) refl ]
]

abbrev probe_round : Option ℕ × Pool → Option (Result (ℕ × Pool))
probe_round (none, q) = some (err run_busy)
probe_round (some slot, q) = some (ok (slot, q))

acquire-probe_round :
    (p : Pool) (m : Option ℕ × Pool)
    → acquire_round 1 1 p ≡ m
    → acquire (λ i q. q) (λ i. ok tt) false 1 none 1 p ≡ probe_round m
unfolding acquire acquire_rounds
acquire-probe_round p (none, q) e = rw (acquire_rounds, e) refl
acquire-probe_round p (some slot, q) e =
    rw (acquire_rounds, e) (ap (λ (x : Option ℕ × Pool). some (ok (slot, x.1))) e)

-- One round without waiting on a pool of one slot.
acquire-one_slot : (p : Pool) → acquire (λ i q. q) (λ i. ok tt) false 1 none 1 p ≡ one_slot p
acquire-one_slot p =
    acquire-probe_round p _ (acquire_round-one_slot p) ∙ by_test (p.acquiring || p.slots 0)
  where
    by_test :
        (b : Bool)
        → probe_round (if b then (none, p) else (some 0, record p { slots = take_slot 0 p.slots }))
          ≡ (if b
              then some (err run_busy)
              else some (ok (0, record p { slots = take_slot 0 p.slots })))
    by_test true = refl
    by_test false = refl

acquire_probe-one_slot :
    (files : CircuitFiles)
    → IsProbePool files.probe_file
    → acquire_probe files
      ≡ taken_probe (record files { probe_file = holding (pool_document 1) }) (one_slot files.probe)
unfolding acquire_probe
acquire_probe-one_slot files one =
    rw (open_pool-one files.probe_file one) (rw (acquire-one_slot files.probe) refl)

one_slot-held : (p : Pool) → p.slots 0 ≡ true → one_slot p ≡ some (err run_busy)
one_slot-held p held = ground (arith, held)

one_slot-free :
    (p : Pool)
    → (p.acquiring || p.slots 0) ≡ false
    → one_slot p ≡ some (ok (0, record p { slots = take_slot 0 p.slots }))
one_slot-free p free = rw free refl

-- The one slot of the probe pool is held.
abbrev pub IsHeld : CircuitFiles → Type 0
IsHeld files = IsProbePool files.probe_file × (files.probe.slots 0 ≡ true)

-- What other processes do that leave the capacity of the pool alone, and that do not release the lease
-- of the probe while it is held. They may do what they like with the circuit.
abbrev pub KeepsPool : (CircuitFiles → CircuitFiles) → Type 0
KeepsPool others =
    (files : CircuitFiles) → IsProbePool files.probe_file → IsProbePool (others files).probe_file

abbrev pub KeepsLease : (CircuitFiles → CircuitFiles) → Type 0
KeepsLease others = (files : CircuitFiles) → IsHeld files → IsHeld (others files)

admitted_injective : {t u : CircuitToken} → admitted t ≡ admitted u → t ≡ u
admitted_injective h = cc

no_probe :
    (epoch : ℕ) (token : CircuitToken)
    → admitted (record { epoch = epoch; half_open_probe = false }) ≡ admitted token
    → token.half_open_probe ≡ false
no_probe epoch token a = ap (λ (t : CircuitToken). t.half_open_probe) (sym (admitted_injective a))

module _ (ops : FloatOps) (clock : ℕ → ℕ) (turns : ℕ → CircuitFiles → CircuitFiles)
    (files : CircuitFiles) (token : CircuitToken) where
  -- A call that finds the probe held is no probe.
  Ordinary : Admission × CircuitFiles → Type 0
  Ordinary out = out.0 ≡ admitted token → token.half_open_probe ≡ false

  before_state-Ordinary :
      (m : Result (Option CircuitState))
      → IsHeld (turns 0 files)
      → Ordinary (before_state ops clock turns files m)
  unfolding before_state Ordinary
  before_state-Ordinary (err e) h = λ a. absurd cc
  before_state-Ordinary (ok none) h = λ a. no_probe 0 token a
  before_state-Ordinary (ok (some s)) h = by_deadline s.opened_until refl
    where
      open_state :
          (until : ℕ)
          → Ordinary (
              before_state ops clock turns files
                (ok (some (record s { opened_until = some until }))))
      open_state until = elim (Bool-cases (float_less (clock 0) until)) [
        | inl y ↦ rw y (λ a. absurd cc)
        | inr n ↦ rw n (
            rw (acquire_probe-one_slot (turns 0 files) h.0)
              (rw (one_slot-held (turns 0 files).probe h.1) (λ a. absurd cc)))
      ]

      by_deadline :
          (o : Option ℕ)
          → s.opened_until ≡ o
          → Ordinary (before_state ops clock turns files (ok (some s)))
      by_deadline none e =
          subst (λ t. Ordinary (before_state ops clock turns files (ok (some t))))
            (λ i. record s { opened_until = sym e i }) (λ a. no_probe s.epoch token a)
      by_deadline (some until) e =
          subst (λ t. Ordinary (before_state ops clock turns files (ok (some t))))
            (λ i. record s { opened_until = sym e i }) (open_state until)

  -- A call that is admitted as a probe holds the probe.
  Holder : Admission × CircuitFiles → Type 0
  Holder out = out.0 ≡ admitted token → token.half_open_probe ≡ true → IsHeld out.1

  not_both : {A : Type 0} → token.half_open_probe ≡ false → token.half_open_probe ≡ true → A
  not_both a b = absurd cc

  probe_state-Holder :
      (seen : CircuitFiles) (m : Result (Option CircuitState))
      → IsHeld seen
      → Holder (probe_state ops (clock 1) 0 seen m)
  unfolding probe_state Holder
  probe_state-Holder seen (err e) h = λ a p. absurd cc
  probe_state-Holder seen (ok none) h = λ a p. not_both (no_probe 0 token a) p
  probe_state-Holder seen (ok (some s)) h = by_deadline s.opened_until refl
    where
      open_state :
          (until : ℕ)
          → Holder (
              probe_state ops (clock 1) 0 seen (ok (some (record s { opened_until = some until }))))
      open_state until = elim (Bool-cases (float_less (clock 1) until)) [
        | inl y ↦ rw y (λ a p. absurd cc)
        | inr n ↦ rw n (λ a p. h)
      ]

      by_deadline :
          (o : Option ℕ)
          → s.opened_until ≡ o
          → Holder (probe_state ops (clock 1) 0 seen (ok (some s)))
      by_deadline none e =
          subst (λ t. Holder (probe_state ops (clock 1) 0 seen (ok (some t))))
            (λ i. record s { opened_until = sym e i })
            (λ a p. not_both (no_probe s.epoch token a) p)
      by_deadline (some until) e =
          subst (λ t. Holder (probe_state ops (clock 1) 0 seen (ok (some t))))
            (λ i. record s { opened_until = sym e i }) (open_state until)

  taken : CircuitFiles
  taken = record (turns 0 files) {
    probe_file = holding (pool_document 1);
    probe = record (turns 0 files).probe { slots = take_slot 0 (turns 0 files).probe.slots };
  }

  taken-IsHeld : IsHeld taken
  unfolding taken IsProbePool
  taken-IsHeld = (inr refl, refl)

  before_state-Holder :
      (m : Result (Option CircuitState))
      → IsProbePool (turns 0 files).probe_file
      → KeepsLease (turns 1)
      → Holder (before_state ops clock turns files m)
  unfolding before_state Holder taken
  before_state-Holder (err e) one keeps = λ a p. absurd cc
  before_state-Holder (ok none) one keeps = λ a p. not_both (no_probe 0 token a) p
  before_state-Holder (ok (some s)) one keeps = by_deadline s.opened_until refl
    where
      seen : CircuitFiles
      seen = turns 1 taken

      open_state :
          (until : ℕ)
          → Holder (
              before_state ops clock turns files
                (ok (some (record s { opened_until = some until }))))
      open_state until = elim (Bool-cases (float_less (clock 0) until)) [
        | inl y ↦ rw y (λ a p. absurd cc)
        | inr n ↦ rw n (
            rw (acquire_probe-one_slot (turns 0 files) one)
              (elim (Bool-cases
                ((turns 0 files).probe.acquiring || (turns 0 files).probe.slots 0)) [
                  | inl busy ↦ rw busy (λ a p. absurd cc)
                  | inr free ↦ rw (one_slot-free (turns 0 files).probe free) (
                      probe_state-Holder seen (read_state (circuit_contract ops) seen.circuit)
                        (keeps taken taken-IsHeld))
                ]))
      ]

      by_deadline :
          (o : Option ℕ)
          → s.opened_until ≡ o
          → Holder (before_state ops clock turns files (ok (some s)))
      by_deadline none e =
          subst (λ t. Holder (before_state ops clock turns files (ok (some t))))
            (λ i. record s { opened_until = sym e i })
            (λ a p. not_both (no_probe s.epoch token a) p)
      by_deadline (some until) e =
          subst (λ t. Holder (before_state ops clock turns files (ok (some t))))
            (λ i. record s { opened_until = sym e i }) (open_state until)

-- After a call was admitted as the half-open probe, and as long as its lease is not released, no other
-- call is admitted as a probe, whatever other processes do with the circuit before and during the calls.
pub before_call-one_probe :
    (ops : FloatOps) (clock later_clock : ℕ → ℕ)
    (turns later_turns : ℕ → CircuitFiles → CircuitFiles) (between : CircuitFiles → CircuitFiles)
    (files : CircuitFiles) (token later_token : CircuitToken)
    → IsProbePool files.probe_file
    → KeepsPool (turns 0)
    → KeepsLease (turns 1)
    → KeepsLease between
    → KeepsLease (later_turns 0)
    → (before_call ops clock turns files).0 ≡ admitted token
    → token.half_open_probe ≡ true
    → (before_call ops later_clock later_turns (between (before_call ops clock turns files).1)).0
      ≡ admitted later_token
    → later_token.half_open_probe ≡ false
unfolding before_call Holder Ordinary
before_call-one_probe ops clock later_clock turns later_turns between files token later_token one
      pool first_keeps between_keeps later_keeps admits probes admits_later =
    let held =
      before_state-Holder ops clock turns files token
        (read_state (circuit_contract ops) files.circuit) (pool files one) first_keeps admits
        probes in
    let later = between (before_call ops clock turns files).1 in
    before_state-Ordinary ops later_clock later_turns later later_token
      (read_state (circuit_contract ops) later.circuit)
      (later_keeps later (between_keeps (before_call ops clock turns files).1 held)) admits_later
