-- ===== src/ArtifactStore/Conflicts.antt =====
-- `_publish` of packages/ac-jobs/src/ac_jobs/storage.py under an id that is published already, and
-- under one that is not.
use ac_foundation.Models.{ArtifactDigest, ArtifactRef}
use ac_foundation.Json.{Fields, JsonValue, end, field, get, lookup, obj, str}
use ac_foundation.Prelude.{
  String, arith, some, true, ◌≡◌, &&-eq-true, Bool, Bool-cases, Option, [], ap, eq_iff, false, inl,
  inr, none, not, refl, str_eq, ◌&&◌, ◌∙◌, ◌∷◌, subst, ◌≢◌, ◌⊎◌, sym,
}
use ac_foundation.Artifacts.{
  decode_artifact_digest, as_object, as_size, as_text, has_shape, validate_digest,
}
use ac_foundation.Json.Equality.{fields_eq, json_eq}
use ac_foundation.Errors.{
  ok, >>=-eq-ok, Result, corrupt_state, raise_if, value_error, artifact_conflict, err,
}
use ac_foundation.ArtifactStore.Reading.{ref_from_manifest, digest_from_json, read_bytes}
use ac_foundation.Snapshot.Codec.{corrupt_value, text}
use ac_foundation.ArtifactStore.{
  object_path, ArtifactDirectory, Bytes, Hashing, bytes_eq, finish_publish, logical_id,
  manifest_document, prepare_publish, publish, publish_bytes, publish_prepared, store_manifest,
  store_object,
}
use ac_foundation.ArtifactStore.Readable.{Readable, Readable-of}
use ac_foundation.ArtifactStore.RoundTrip.{digest_document, encode_artifact_digest-of}

found_field :
    (v : JsonValue) (o : Option JsonValue) (rest : Bool)
    → (elim o [ none ↦ false | some w ↦ json_eq v w ] && rest) ≡ true
    → (w : JsonValue) × (o ≡ some w) × (json_eq v w ≡ true)
found_field v none rest h = absurd (ground arith)
found_field v (some w) rest h = (w, refl, (&&-eq-true (json_eq v w) rest h).0)

-- The fields of one document are fields of an equal one.
lookup-fields_eq :
    (k : String) (v : JsonValue) (fs gs : Fields)
    → lookup k fs ≡ some v
    → fields_eq fs gs ≡ true
    → (w : JsonValue) × (lookup k gs ≡ some w) × (json_eq v w ≡ true)
unfolding fields_eq
lookup-fields_eq k v end gs l e = absurd cc
lookup-fields_eq k v (field j u fs) gs l e = elim (Bool-cases (str_eq j k)) [
  | inl y ↦
      let here : u ≡ v = ground arith in
      let same : j ≡ k = (eq_iff j k).0 y in
      found_field v (lookup k gs) (fields_eq fs gs) (cc (here, same, e))
  | inr n ↦ lookup-fields_eq k v fs gs (ground arith) (&&-eq-true _ _ e).1
]

lookup-text : (k t : String) (fs : Fields) → get k fs ≡ str t → lookup k fs ≡ some (str t)
lookup-text k t end h = absurd (ground arith)
lookup-text k t (field j u fs) h = ground (arith, lookup-text k t fs)

lookup-object : (k : String) (os fs : Fields) → get k fs ≡ obj os → lookup k fs ≡ some (obj os)
lookup-object k os end h = absurd (ground arith)
lookup-object k os (field j u fs) h = ground (arith, lookup-object k os fs)

as_object-ok : (v : JsonValue) (fs : Fields) → as_object v ≡ ok fs → v ≡ obj fs
as_object-ok v fs h = ground arith

as_text-ok : (v : JsonValue) (t : String) → as_text v ≡ ok t → v ≡ str t
as_text-ok v t h = ground arith

-- A decoded digest stands in its document.
decode_artifact_digest-value :
    (v : JsonValue) (a : ArtifactDigest)
    → decode_artifact_digest v ≡ ok a
    → (fs : Fields) × (v ≡ obj fs) × (get "value" fs ≡ str a.value)
unfolding decode_artifact_digest
decode_artifact_digest-value v a h =
    let (fs, p, q) = >>=-eq-ok (as_object v) _ h in
    let (t1, p1, q1) =
      >>=-eq-ok
        (raise_if (not (has_shape ("algorithm" ∷ "value" ∷ "size_bytes" ∷ []) fs)) value_error) _
        q in
    let (t2, p2, q2) = >>=-eq-ok (as_text (get "algorithm" fs)) _ q1 in
    let (t, p3, q3) = >>=-eq-ok (as_text (get "value" fs)) _ q2 in
    let (n, p4, q4) = >>=-eq-ok (as_size (get "size_bytes" fs)) _ q3 in
    let (t5, p5, q5) =
      >>=-eq-ok (validate_digest (record { algorithm = t2; value = t; size_bytes = n })) _ q4 in
    let same : record { algorithm = "sha256"; value = t; size_bytes = n } ≡ a = cc in
    (fs, as_object-ok v fs p, as_text-ok _ t p3 ∙ ap (λ (x : ArtifactDigest). str x.value) same)

corrupt_value-ok :
    (m : Result ArtifactDigest) (a : ArtifactDigest) → corrupt_value m ≡ ok a → m ≡ ok a
corrupt_value-ok m a h = ground arith

ref_from_manifest-digest :
    (fs : Fields) (ref : ArtifactRef)
    → ref_from_manifest fs ≡ ok ref
    → decode_artifact_digest (get "digest" fs) ≡ ok ref.digest
unfolding ref_from_manifest
ref_from_manifest-digest fs ref h =
    let (t1, p1, q1) = >>=-eq-ok (text (get "artifact_id" fs)) _ h in
    let (t2, p2, q2) = >>=-eq-ok (text (get "media_type" fs)) _ q1 in
    let (t3, p3, q3) = >>=-eq-ok (text (get "relative_path" fs)) _ q2 in
    let (a, p4, q4) = >>=-eq-ok (digest_from_json (get "digest" fs)) _ q3 in
    let (t5, p5, q5) =
      >>=-eq-ok (raise_if (not (str_eq t3 (object_path a.value))) corrupt_state) _ q4 in
    let same : record { artifact_id = t1; digest = a; media_type = t2; relative_path = t3 } ≡ ref =
      cc in
    corrupt_value-ok _ a p4 ∙ ap (λ (r : ArtifactRef). ok r.digest) same

some-injective : {a b : JsonValue} → some a ≡ some b → a ≡ b
some-injective h = cc

json_eq-fields_eq : (fs gs : Fields) → json_eq (obj fs) (obj gs) ≡ true → fields_eq fs gs ≡ true
unfolding json_eq fields_eq
json_eq-fields_eq fs gs h = (&&-eq-true _ _ h).1

json_eq-str : (s t : String) → json_eq (str s) (str t) ≡ true → s ≡ t
unfolding json_eq
json_eq-str s t h = (eq_iff s t).0 h

module _ (h : Hashing) (d : ArtifactDirectory) (ref : ArtifactRef) (old content : Bytes)
    (media_type : String) (published : read_bytes h d ref ≡ ok old) where
  abbrev behind : Readable h d ref old
  behind = Readable-of h d ref old published

  abbrev new_manifest : Fields
  new_manifest =
      manifest_document ref.artifact_id (digest_document h content) media_type
        (object_path (h.content_sha256 content)) none

  -- Two manifests that are equal documents name one object.
  json_eq-digest :
      json_eq (obj behind.fields) (obj new_manifest) ≡ true
      → ref.digest.value ≡ h.content_sha256 content
  unfolding digest_document
  json_eq-digest e =
      let (ds, has, value) =
        decode_artifact_digest-value _ ref.digest
          (ref_from_manifest-digest behind.fields ref behind.refers) in
      let (w, found, same) =
        lookup-fields_eq "digest" (obj ds) behind.fields new_manifest
          (lookup-object "digest" ds behind.fields has)
          (json_eq-fields_eq behind.fields new_manifest e) in
      let is_digest : w ≡ obj (digest_document h content) = sym (some-injective found) in
      let (u, found', same') =
        lookup-fields_eq "value" (str ref.digest.value) ds (digest_document h content)
          (lookup-text "value" ref.digest.value ds value)
          (json_eq-fields_eq ds (digest_document h content)
            (subst (λ x. json_eq (obj ds) x ≡ true) is_digest same)) in
      json_eq-str _ _
        (subst (λ x. json_eq (str ref.digest.value) x ≡ true) (sym (some-injective found')) same')

  finish_publish-conflict :
      (m : Result (Unit {0}) × ArtifactDirectory)
      → m.1.manifests ≡ d.manifests
      → (m.0 ≡ err artifact_conflict)
        ⊎ ((m.0 ≡ ok tt) × (ref.digest.value ≢ h.content_sha256 content))
      → (finish_publish h ref.artifact_id content media_type none (digest_document h content) m).0
        ≡ err artifact_conflict
  unfolding finish_publish store_manifest
  finish_publish-conflict (err e, d') same (inl p) =
      let raised : e ≡ artifact_conflict = cc in ap err raised
  finish_publish-conflict (err e, d') same (inr (p, other)) = absurd cc
  finish_publish-conflict (ok t, d') same (inl p) = absurd cc
  finish_publish-conflict (ok t, d') same (inr (p, other)) =
      rw (ap (λ f. f (h.id_sha256 ref.artifact_id)) same ∙ behind.manifest)
        (elim (Bool-cases (json_eq (obj behind.fields) (obj new_manifest))) [
          | inl y ↦ absurd (other (json_eq-digest y))
          | inr n ↦ rw n refl
        ])

  store_object-other :
      (sha : String) (o : Option Bytes)
      → ((store_object sha content o d).1.manifests ≡ d.manifests)
        × (((store_object sha content o d).0 ≡ ok tt)
            ⊎ ((store_object sha content o d).0 ≡ err artifact_conflict))
  unfolding store_object
  store_object-other sha none = (refl, inl refl)
  store_object-other sha (some existing) = elim (Bool-cases (bytes_eq existing content)) [
    | inl y ↦ rw y (refl, inl refl)
    | inr n ↦ rw n (refl, inr refl)
  ]

  there :
      ref.digest.value ≡ h.content_sha256 content → d.objects (h.content_sha256 content) ≡ some old
  there e = subst (λ s. d.objects s ≡ some old) e behind.object

  -- An id whose artifact can be read is not published again with another content.
  pub publish_bytes-conflict :
      bytes_eq old content ≡ false
      → str_eq media_type "" ≡ false
      → (publish_bytes h none ref.artifact_id content media_type d).0 ≡ err artifact_conflict
  unfolding publish_bytes publish publish_prepared prepare_publish logical_id store_object
  publish_bytes-conflict other typed = rw behind.valid (
      rw (typed, encode_artifact_digest-of h content)
        (elim (Bool-cases (str_eq ref.digest.value (h.content_sha256 content))) [
          | inl y ↦
              rw (there ((eq_iff _ _).0 y)) (finish_publish-conflict _ refl (inl (rw other refl)))
          | inr n ↦
              let (same, res) =
                store_object-other (h.content_sha256 content)
                  (d.objects (h.content_sha256 content)) in
              finish_publish-conflict _ same (elim res [
                | inl p ↦ inr (
                  p,
                  λ q.
                      absurd
                        (ground (arith, (eq_iff ref.digest.value (h.content_sha256 content)).1 q)),
                )
                | inr p ↦ inl p
              ])
        ]))

-- Nor does it return a reference of another content in any other way.
pub publish_bytes-no_other :
    (h : Hashing) (d : ArtifactDirectory) (ref r : ArtifactRef) (old content : Bytes)
    (media_type : String)
    → read_bytes h d ref ≡ ok old
    → bytes_eq old content ≡ false
    → (publish_bytes h none ref.artifact_id content media_type d).0 ≢ ok r
unfolding publish_bytes publish publish_prepared prepare_publish logical_id
publish_bytes-no_other h d ref r old content media_type published other p =
    elim (Bool-cases (str_eq media_type "")) [
      | inl y ↦ let e = untyped y in cc
      | inr n ↦
          let e = publish_bytes-conflict h d ref old content media_type published other n in cc
    ]
  where
    untyped :
        str_eq media_type "" ≡ true
        → (publish_bytes h none ref.artifact_id content media_type d).0 ≡ err value_error
    untyped y = rw (behind h d ref old content media_type published).valid (rw y refl)
