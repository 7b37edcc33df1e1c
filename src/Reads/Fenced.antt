-- ===== src/Reads/Fenced.antt =====
-- What a response has that passes the fence of pmiri/read_operations.py.
use ragsistemi.Prelude.{
  String, Bool, true, false, not, ◌≡◌, refl, ◌==◌, string_eq, ok, arith, raise_if_passed,
  raise_if_last, bind-eq-ok,
}
use ragsistemi.Host.{Host}
use ragsistemi.Canonical.{sha256_json}
use ragsistemi.Canonical.Serial.{Json, null, bool, num, str, arr, obj, Fields}
use ragsistemi.Canonical.Equality.{json_eq}
use ragsistemi.Decisions.{get}
use ragsistemi.Disclosure.{disclosure_fingerprint}
use ragsistemi.Reads.Operations.{
  EmissionFence, assert_valid, check_bound, check_shape, check_authority, evidence_list,
}

-- The typed result says what the result and the lineage of the projection say.
pub record IsAuthoritative (f : EmissionFence) (typed_result result lineage : Fields) : Type 0 where
  pub projection :
      json_eq (get "projection_fingerprint" typed_result) (str f.projection_fingerprint) ≡ true
  pub disposition : json_eq (get "disposition" typed_result) (get "disposition" result) ≡ true
  pub coverage : json_eq (get "coverage" typed_result) (get "coverage" result) ≡ true
  pub ref : json_eq (get "authorization_ref" typed_result) (get "authorization_ref" lineage) ≡ true
  pub refs :
      (listed : Json) × (evidence_list lineage ≡ ok listed)
      × (json_eq (get "evidence_refs" typed_result) listed ≡ true)

not-false : (b : Bool) → not b ≡ false → b ≡ true
not-false true h = refl
not-false false h = cc

module _ (host : Host) where
  -- An envelope whose two parts are those that the fence was made for.
  pub record IsFenced (f : EmissionFence) (envelope : Fields) : Type 0 where
    pub projection : Fields
    pub typed_result : Fields
    pub result : Fields
    pub lineage : Fields
    pub projection_is : get "projection" envelope ≡ obj projection
    pub typed_result_is : get "typed_result" envelope ≡ obj typed_result
    pub result_is : get "result" projection ≡ obj result
    pub lineage_is : get "lineage" projection ≡ obj lineage
    pub valid : f.status ≡ "EMIT_VALID"
    pub operation : json_eq (get "operation" envelope) (str f.operation) ≡ true
    pub typed_operation : json_eq (get "operation" typed_result) (str f.operation) ≡ true
    pub projection_digest : disclosure_fingerprint host projection ≡ f.projection_fingerprint
    pub typed_result_digest : sha256_json host (obj typed_result) ≡ f.typed_result_fingerprint
    pub authoritative : IsAuthoritative f typed_result result lineage

  check_authority-IsAuthoritative :
      (f : EmissionFence) (t r l : Fields)
      → check_authority host f t r l ≡ ok tt
      → IsAuthoritative f t r l
  unfolding check_authority
  check_authority-IsAuthoritative f t r l h =
      let (a, h1) = raise_if_passed _ _ _ h in
      let (b, h2) = raise_if_passed _ _ _ h1 in
      let (c, h3) = raise_if_passed _ _ _ h2 in
      let (d, h4) = raise_if_passed _ _ _ h3 in
      let (refs, made, h5) = bind-eq-ok (evidence_list l) _ h4 in
      record {
        projection = not-false _ a;
        disposition = not-false _ b;
        coverage = not-false _ c;
        ref = not-false _ d;
        refs = (refs, made, not-false _ (raise_if_last _ _ h5));
      }

  -- what `check_shape` finds
  abbrev Shaped : EmissionFence → Fields → Json → Json → Type 0
  Shaped f t u v = (r : Fields) × (l : Fields) × (u ≡ obj r) × (v ≡ obj l) × IsAuthoritative f t r l

  check_shape-Shaped :
      (f : EmissionFence) (t : Fields) (u v : Json)
      → check_shape host f t u v ≡ ok tt
      → Shaped f t u v
  unfolding check_shape
  check_shape-Shaped f t (obj r) (obj l) h =
      (r, l, refl, refl, check_authority-IsAuthoritative f t r l h)
  check_shape-Shaped f t (obj r) null h = cc
  check_shape-Shaped f t (obj r) (bool b) h = cc
  check_shape-Shaped f t (obj r) (num i) h = cc
  check_shape-Shaped f t (obj r) (str s) h = cc
  check_shape-Shaped f t (obj r) (arr xs) h = cc
  check_shape-Shaped f t null v h = cc
  check_shape-Shaped f t (bool b) v h = cc
  check_shape-Shaped f t (num i) v h = cc
  check_shape-Shaped f t (str s) v h = cc
  check_shape-Shaped f t (arr xs) v h = cc

  -- what `check_bound` finds
  record Bound (f : EmissionFence) (u v : Json) : Type 0 where
    projection : Fields
    typed_result : Fields
    projection_is : u ≡ obj projection
    typed_result_is : v ≡ obj typed_result
    projection_digest : disclosure_fingerprint host projection ≡ f.projection_fingerprint
    typed_result_digest : sha256_json host (obj typed_result) ≡ f.typed_result_fingerprint
    typed_operation : json_eq (get "operation" typed_result) (str f.operation) ≡ true
    shaped : Shaped f typed_result (get "result" projection) (get "lineage" projection)

  same_text : (s t : String) → not (s == t) ≡ false → s ≡ t
  same_text s t h = ground arith

  check_bound-Bound :
      (f : EmissionFence) (u v : Json) → check_bound host f u v ≡ ok tt → Bound f u v
  unfolding check_bound
  check_bound-Bound f (obj p) (obj t) h =
      let (a, h1) = raise_if_passed _ _ _ h in
      let (b, h2) = raise_if_passed _ _ _ h1 in
      let (c, h3) = raise_if_passed _ _ _ h2 in
      record {
        projection = p;
        typed_result = t;
        projection_is = refl;
        typed_result_is = refl;
        projection_digest = same_text _ _ a;
        typed_result_digest = same_text _ _ b;
        typed_operation = not-false _ c;
        shaped = check_shape-Shaped f t (get "result" p) (get "lineage" p) h3;
      }
  check_bound-Bound f (obj p) null h = cc
  check_bound-Bound f (obj p) (bool b) h = cc
  check_bound-Bound f (obj p) (num i) h = cc
  check_bound-Bound f (obj p) (str s) h = cc
  check_bound-Bound f (obj p) (arr xs) h = cc
  check_bound-Bound f null v h = cc
  check_bound-Bound f (bool b) v h = cc
  check_bound-Bound f (num i) v h = cc
  check_bound-Bound f (str s) v h = cc
  check_bound-Bound f (arr xs) v h = cc

  -- An envelope that passes the fence names the fence's operation, twice; its projection and its
  -- typed result have the fingerprints that the fence was made with; and disposition, coverage,
  -- authorization reference and evidence references of the typed result are those of the projection.
  pub assert_valid-IsFenced :
      (f : EmissionFence) (envelope : Fields)
      → assert_valid host f envelope ≡ ok tt
      → IsFenced f envelope
  unfolding assert_valid
  assert_valid-IsFenced f envelope h =
      let (a, h1) = raise_if_passed _ _ _ h in
      let (b, h2) = raise_if_passed _ _ _ h1 in
      let w = check_bound-Bound f (get "projection" envelope) (get "typed_result" envelope) h2 in
      let (r, l, r_is, l_is, authority) = w.shaped in
      record {
        projection = w.projection;
        typed_result = w.typed_result;
        result = r;
        lineage = l;
        projection_is = w.projection_is;
        typed_result_is = w.typed_result_is;
        result_is = r_is;
        lineage_is = l_is;
        valid = same_text _ _ a;
        operation = not-false _ b;
        typed_operation = w.typed_operation;
        projection_digest = w.projection_digest;
        typed_result_digest = w.typed_result_digest;
        authoritative = authority;
      }
