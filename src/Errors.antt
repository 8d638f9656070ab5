-- ===== src/Errors.antt =====
-- packages/ac-jobs/src/ac_jobs/errors.py: the exceptions of the run kernel, as values. The text of
-- a message is left out: two errors of one class are one value.
use ac_foundation.Prelude.{
  Bool, true, false, ◌≡◌, refl, ◌⊎◌, inl, inr, String, if◌then◌else◌, subst,
}

-- The classes of errors.py that are raised, then the built-in exceptions that the code raises or
-- lets through: `foreign` is any other exception, with its text, and `base_exception` what
-- `except Exception` does not catch.
pub data JobsError : Type 0 where
  invalid_run_id unsupported_schema corrupt_state invalid_transition : JobsError
  state_conflict revision_conflict artifact_conflict idempotency_conflict : JobsError
  resume_input_conflict run_not_found run_busy resume_mismatch stopped : JobsError
  value_error type_error assertion_error os_error base_exception : JobsError
  foreign : String → JobsError

-- What a Python call does: it raises or returns.
pub data Result {ℓ} (T : Type ℓ) : Type ℓ where
  err : JobsError → Result T
  ok : T → Result T

-- `if b: raise e`
abbrev pub raise_if : Bool → JobsError → Result (Unit {0})
raise_if true raised = err raised
raise_if false _ = ok tt

-- One statement after another, where an exception ends the function.
infixl 5 ◌>>=◌ ◌>>◌
abbrev pub ◌>>=◌ {κ ℓ} : {T : Type κ} {U : Type ℓ} → Result T → (T → Result U) → Result U
err raised >>= k = err raised
ok value >>= k = k value

abbrev pub ◌>>◌ {ℓ} : {T : Type ℓ} → Result (Unit {0}) → Result T → Result T
call >> rest = call >>= λ _. rest

-- A chain that returns has returned at each of its calls.
pub >>=-eq-ok {κ ℓ} :
    {T : Type κ} {U : Type ℓ} (call : Result T) (k : T → Result U) {u : U}
    → (call >>= k) ≡ ok u
    → (t : T) × (call ≡ ok t) × (k t ≡ ok u)
>>=-eq-ok (err raised) k h = cc
>>=-eq-ok (ok t) k h = (t, refl, h)

-- What every result of the continuation has, every result of the chain has.
pub >>=-yields {ℓ κ ι} :
    {A : Type ℓ} {B : Type κ} (P : B → Type ι) (m : Result A) (f : A → Result B) (b : B)
    → ((a : A) → f a ≡ ok b → P b)
    → (m >>= f) ≡ ok b
    → P b
>>=-yields P (ok a) f b k h = k a h
>>=-yields P (err e) f b k h = absurd cc

-- The same for the rest of a proof, whose terms then stay small.
pub >>=-cases {κ ℓ ι} :
    {T : Type κ} {U : Type ℓ} {P : Type ι} (call : Result T) (k : T → Result U) {u : U}
    → (call >>= k) ≡ ok u
    → ((t : T) → call ≡ ok t → k t ≡ ok u → P)
    → P
>>=-cases (err raised) k h rest = cc
>>=-cases (ok t) k h rest = rest t refl h

pub Result-cases {ℓ} :
    {A : Type ℓ} (m : Result A) → ((a : A) × (m ≡ ok a)) ⊎ ((e : JobsError) × (m ≡ err e))
Result-cases (ok a) = inl (a, refl)
Result-cases (err e) = inr (e, refl)

-- A guard that is passed.
pub raise_if-ok : (b : Bool) (e : JobsError) {t : Unit {0}} → raise_if b e ≡ ok t → b ≡ false
raise_if-ok true e h = cc
raise_if-ok false e h = refl

-- What a call returns is determined.
pub value_injective {ℓ} : {A : Type ℓ} {a b : A} → ok a ≡ ok b → a ≡ b
value_injective h = cc

let_through {ℓ} :
    {A : Type ℓ} (b : Bool) (x t : A) (e : JobsError)
    → (if b then ok x else err e) ≡ ok t
    → (b ≡ true) × (x ≡ t)
let_through true x t e h = (refl, value_injective h)
let_through false x t e h = cc

-- A value that a test lets through passes the test.
pub passed_test {ℓ} :
    {A : Type ℓ} (test : A → Bool) (x t : A) (e : JobsError)
    → (if test x then ok x else err e) ≡ ok t
    → test t ≡ true
passed_test test x t e h =
    let (p, q) = let_through (test x) x t e h in subst (λ y. test y ≡ true) q p
