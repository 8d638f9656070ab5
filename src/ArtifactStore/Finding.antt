-- ===== src/ArtifactStore/Finding.antt =====
-- What `find` of packages/ac-jobs/src/ac_jobs/storage.py returns: a reference of the id that was asked
-- for, or None where the id is free.
use ac_foundation.Errors.{>>=-eq-ok, corrupt_state, ok, raise_if, ◌>>=◌, ◌>>◌}
use ac_foundation.ArtifactStore.{ArtifactDirectory, Bytes, Hashing, logical_id, object_path}
use ac_foundation.Models.{ArtifactRef}
use ac_foundation.Json.{Fields, JsonValue, get}
use ac_foundation.Storage.{JsonFile, absent, damaged, holding}
use ac_foundation.Prelude.{
  Option, String, ap, arith, eq_iff, none, not, refl, some, str_eq, subst, sym, true, ◌∙◌, ◌≡◌,
}
use ac_foundation.ArtifactStore.Readable.{
  Readable-of, read_manifest-parts, validate_artifact_id-same,
}
use ac_foundation.ArtifactStore.Reading.{
  digest_from_json, find, find_existing, read_bytes, read_manifest, ref_from_manifest, verify,
}
use ac_foundation.Snapshot.Codec.{is_text, text}
use ac_foundation.Identity.{validate_artifact_id}

-- `find` returns every reference that can be read.
pub find-Readable :
    (h : Hashing) (d : ArtifactDirectory) (ref : ArtifactRef) (content : Bytes)
    → read_bytes h d ref ≡ ok content
    → find h none d ref.artifact_id ≡ ok (some ref)
unfolding find logical_id find_existing verify
find-Readable h d ref content e =
    let r = Readable-of h d ref content e in
    rw r.valid (rw r.manifest (rw r.reads (rw r.refers (rw e refl))))

text-named :
    (id : String) (v : JsonValue) (t : String) → is_text id v ≡ true → text v ≡ ok t → t ≡ id
text-named id v t named e = ground (arith, eq_iff t id)

ref_from_manifest-id :
    (fs : Fields) (ref : ArtifactRef) (id : String)
    → is_text id (get "artifact_id" fs) ≡ true
    → ref_from_manifest fs ≡ ok ref
    → ref.artifact_id ≡ id
unfolding ref_from_manifest
ref_from_manifest-id fs ref id named e =
    let (t1, p1, q1) = >>=-eq-ok (text (get "artifact_id" fs)) _ e in
    let (t2, p2, q2) = >>=-eq-ok (text (get "media_type" fs)) _ q1 in
    let (t3, p3, q3) = >>=-eq-ok (text (get "relative_path" fs)) _ q2 in
    let (a, p4, q4) = >>=-eq-ok (digest_from_json (get "digest" fs)) _ q3 in
    let (t5, p5, q5) =
      >>=-eq-ok (raise_if (not (str_eq t3 (object_path a.value))) corrupt_state) _ q4 in
    let same : record { artifact_id = t1; digest = a; media_type = t2; relative_path = t3 } ≡ ref =
      cc in
    sym (ap (λ (r : ArtifactRef). r.artifact_id) same) ∙ text-named id _ t1 named p1

ok-option : {a b : Option ArtifactRef} → ok a ≡ ok b → a ≡ b
ok-option h = cc

-- A manifest that is there is never looked up as None, and gives a reference of its id.
existing_found :
    (h : Hashing) (d : ArtifactDirectory) (id : String) (o : Option ArtifactRef)
    → (do fs ← read_manifest h d id; ref ← ref_from_manifest fs; verify h d ref; ok (some ref))
      ≡ ok o
    → (ref : ArtifactRef) × (o ≡ some ref) × (ref.artifact_id ≡ id)
unfolding verify
existing_found h d id o e =
    let (fs, p, q) = >>=-eq-ok (read_manifest h d id) _ e in
    let (ref, p1, q1) = >>=-eq-ok (ref_from_manifest fs) _ q in
    let (t, p2, q2) = >>=-eq-ok (verify h d ref) _ q1 in
    let (valid, there, named) = read_manifest-parts h d id fs p in
    (ref, ok-option (sym q2), ref_from_manifest-id fs ref id named p1)

find_existing-none :
    (h : Hashing) (d : ArtifactDirectory) (id : String) (file : JsonFile)
    → find_existing h d id file ≡ ok none
    → file ≡ absent
unfolding find_existing
find_existing-none h d id absent e = refl
find_existing-none h d id damaged e = let (ref, p, q) = existing_found h d id none e in absurd cc
find_existing-none h d id (holding gs) e =
    let (ref, p, q) = existing_found h d id none e in absurd cc

pub logical_id-none : (id logical : String) → logical_id none id ≡ ok logical → id ≡ logical
unfolding logical_id
logical_id-none id logical h =
    let (v, p, q) = >>=-eq-ok (validate_artifact_id id) _ h in
    validate_artifact_id-same id logical q

-- `find` returns None only for an id that is free.
pub find-none :
    (h : Hashing) (d : ArtifactDirectory) (id : String)
    → find h none d id ≡ ok none
    → d.manifests (h.id_sha256 id) ≡ absent
unfolding find logical_id
find-none h d id e =
    let (v, p, q) = >>=-eq-ok (logical_id none id) _ e in
    find_existing-none h d id _ (
      subst (λ s. find_existing h d s (d.manifests (h.id_sha256 s)) ≡ ok none)
        (sym (logical_id-none id v p)) q)

found_id :
    (h : Hashing) (d : ArtifactDirectory) (id : String) (ref : ArtifactRef)
    → (do fs ← read_manifest h d id; r ← ref_from_manifest fs; verify h d r; ok (some r))
      ≡ ok (some ref)
    → ref.artifact_id ≡ id
unfolding verify
found_id h d id ref e =
    let (r, p, q) = existing_found h d id (some ref) e in
    let same : ref ≡ r = cc in ap (λ (x : ArtifactRef). x.artifact_id) same ∙ q

find_existing-some :
    (h : Hashing) (d : ArtifactDirectory) (id : String) (file : JsonFile) (ref : ArtifactRef)
    → find_existing h d id file ≡ ok (some ref)
    → ref.artifact_id ≡ id
unfolding find_existing
find_existing-some h d id absent ref e = absurd cc
find_existing-some h d id damaged ref e = found_id h d id ref e
find_existing-some h d id (holding gs) ref e = found_id h d id ref e

-- `find` returns a reference of the id that was asked for.
pub find-some :
    (h : Hashing) (d : ArtifactDirectory) (id : String) (ref : ArtifactRef)
    → find h none d id ≡ ok (some ref)
    → ref.artifact_id ≡ id
unfolding find logical_id
find-some h d id ref e =
    let (v, p, q) = >>=-eq-ok (logical_id none id) _ e in
    find_existing-some h d v _ ref q ∙ sym (logical_id-none id v p)
