-- ===== src/Snapshot/Store/Laws.antt =====
-- What one successful write of `_SnapshotStore.compare_and_swap`
-- (packages/ac-jobs/src/ac_jobs/engine.py) has checked and done.
use ac_foundation.Snapshot.Store.{compare_and_swap, read}
use ac_foundation.Errors.{Result-cases, ok, >>=-yields, Result, ◌>>=◌, ◌>>◌, >>=-eq-ok}
use ac_foundation.Models.{RunSnapshot, status_of}
use ac_foundation.Prelude.{
  arith, false, inl, inr, suc, ℕ, ◌≡◌, refl, none, true, subst, if◌then◌else◌,
}
use ac_foundation.Snapshot.Codec.{
  encode, decode, decode_awaiting, decode_error, decode_ref, decode_schema, flag, known, natural,
  text,
}
use ac_foundation.Snapshot.{validate, validate_shape, validate_step, validate_run_error}
use ac_foundation.Json.{Fields, get, int, pos}
use ac_foundation.Snapshot.Codec.RoundTrip.{decode-encode}
use ac_foundation.Storage.{JsonFile, holding, absent, damaged}

-- The facts behind a write of `value` over a file that held `previous`.
pub record Written (previous value : RunSnapshot) (expected_revision : ℕ) (file' : JsonFile)
    : Type 0 where
  pub at_revision : previous.revision ≡ expected_revision
  pub next_revision : value.revision ≡ suc expected_revision
  pub shape : validate_shape value false ≡ ok tt
  pub step : validate_step previous value ≡ ok tt
  pub reads_back : read file' ≡ ok value

pub read-holding : (fs : Fields) → read (holding fs) ≡ decode fs
unfolding read
read-holding fs = refl

-- A compare-and-swap that returns has found a readable record at the expected revision, has
-- validated the record and the step, and leaves a file from which exactly the new record is read.
pub compare_and_swap-Written :
    (file : JsonFile) (expected_revision : ℕ) (value : RunSnapshot) {file' : JsonFile}
    {returned : RunSnapshot}
    → compare_and_swap file expected_revision value ≡ ok (file', returned)
    → (previous : RunSnapshot) × (read file ≡ ok previous)
      × Written previous value expected_revision file'
      × (returned ≡ value)
unfolding compare_and_swap validate
compare_and_swap-Written file r v h = elim (Result-cases (read file)) [
  | inl (p, ep) ↦ elim (Result-cases (encode v)) [
    | inl (d, ed) ↦
        let shape : validate_shape v false ≡ ok tt = ground arith in
        (
          p,
          ep,
          record {
            at_revision = ground arith;
            next_revision = ground arith;
            shape = shape;
            step = ground arith;
            reads_back = ground (arith, read-holding d, decode-encode v shape ed);
          },
          ground arith,
        )
    | inr (x, ed) ↦ absurd (ground arith)
  ]
  | inr (x, e) ↦ absurd (ground arith)
]

-- Exactly when a compare-and-swap over a readable record goes through: the record is at the
-- expected revision, the new one is the next, it is valid by itself and after the old one, and its
-- artifact references can be encoded.
pub compare_and_swap-total :
    (file : JsonFile) (expected_revision : ℕ) (value previous : RunSnapshot) {fs : Fields}
    → read file ≡ ok previous
    → previous.revision ≡ expected_revision
    → value.revision ≡ suc expected_revision
    → validate_shape value false ≡ ok tt
    → validate_step previous value ≡ ok tt
    → encode value ≡ ok fs
    → compare_and_swap file expected_revision value ≡ ok (holding fs, value)
unfolding compare_and_swap validate
compare_and_swap-total file r v p er e1 e2 sh st en = ground arith

decode-valid : (fs : Fields) (s : RunSnapshot) → decode fs ≡ ok s → validate none s true ≡ ok tt
unfolding decode
decode-valid fs s = yields (decode_schema fs) _ λ v3. yields (text (get "status" fs)) _ λ status.
    yields (known (status_of status)) _ λ _. yields (text (get "run_id" fs)) _ λ _.
      yields (natural (get "revision" fs)) _ λ _. yields (natural (get "attempt" fs)) _ λ _.
        yields (text (get "created_at" fs)) _ λ _. yields (text (get "updated_at" fs)) _ λ _.
          yields (flag (get "interrupted" fs)) _ λ _.
            yields (natural (if v3 then get "recovery_epoch" fs else int (pos 0))) _ λ _.
              yields (decode_error (get "error" fs)) _ λ _.
                yields (decode_awaiting (get "awaiting" fs)) _
                  λ _. yields (decode_ref (get "result_ref" fs)) _ λ _. leaf _
  where
    yields :
        {A : Type 0} (m : Result A) (f : A → Result RunSnapshot)
        → ((a : A) → f a ≡ ok s → validate none s true ≡ ok tt)
        → (m >>= f) ≡ ok s
        → validate none s true ≡ ok tt
    yields m f = >>=-yields (λ t. validate none t true ≡ ok tt) m f s

    leaf : (t : RunSnapshot) → (validate none t true >> ok t) ≡ ok s → validate none s true ≡ ok tt
    leaf t h =
        let (a, p, q) = >>=-eq-ok (validate none t true) (λ _. ok t) h in
        let same : t ≡ s = cc in subst (λ x. validate none x true ≡ ok tt) same p

read-decode :
    (file : JsonFile) (s : RunSnapshot) → read file ≡ ok s → (fs : Fields) × (decode fs ≡ ok s)
unfolding read
read-decode absent s h = absurd (ground arith)
read-decode damaged s h = absurd (ground arith)
read-decode (holding fs) s h = (fs, h)

-- What may be read may be written.
reading-shape : (s : RunSnapshot) → validate none s true ≡ ok tt → validate_shape s false ≡ ok tt
unfolding validate validate_shape validate_run_error
reading-shape s h = ground arith

-- Every record that can be read has been validated.
pub read-valid :
    (file : JsonFile) (s : RunSnapshot) → read file ≡ ok s → validate_shape s false ≡ ok tt
read-valid file s h = let (fs, e) = read-decode file s h in reading-shape s (decode-valid fs s e)
