-- ===== src/Reads/Emitted.antt =====
-- What pmiri/read_operations.py emits.
use ragsistemi.Prelude.{
  String, Bool, true, false, not, ◌&&◌, ◌≡◌, refl, ◌∙◌, ◌↔◌, ◌⊎◌, inl, inr, List, if◌then◌else◌,
  ◌==◌, string_eq, contains, ok, arith, Bool-cases, raise_if_passed,
}
use ragsistemi.Host.{Host}
use ragsistemi.Canonical.{sha256_json}
use ragsistemi.Canonical.Serial.{Json, null, str, obj, Fields, field, dict, string_list}
use ragsistemi.Canonical.Equality.{json_eq, json_eq-str, json_eq-string_list}
use ragsistemi.Decisions.{get, names}
use ragsistemi.Disclosure.{disclosure_fingerprint}
use ragsistemi.Reads.Projection.{fields_of, put}
use ragsistemi.Reads.Operations.{
  read_operations, EmissionFence, create, assert_valid, check_authority, operation_cursor,
  typed_result_of, envelope_of, emit, list_of, evidence_list, listed_or_null, fence_entry,
}

pub get-put :
    (j k : String) (v : Json) (d : Fields) → get j (put k v d) ≡ (if k == j then v else get j d)
unfolding get put
get-put j k v Fields.end = refl
get-put j k v (field i w rest) = ground (arith, get-put j k v rest)

-- A projection with the entries that the fence compares, each of its type.
pub record HasShape (projection : Fields) : Type 0 where
  pub result : Fields
  pub lineage : Fields
  pub result_is : get "result" projection ≡ obj result
  pub lineage_is : get "lineage" projection ≡ obj lineage
  pub disposition : String
  pub disposition_is : get "disposition" result ≡ str disposition
  pub coverage : String
  pub coverage_is : get "coverage" result ≡ str coverage
  pub ref : String
  pub ref_is : get "authorization_ref" lineage ≡ str ref
  pub refs : List String
  pub refs_are : get "evidence_refs" lineage ≡ string_list refs

get-named :
    (k : String) (d : Fields) (xs : List String)
    → get k d ≡ string_list xs
    → contains (names d) k ≡ true
unfolding get names string_list
get-named k Fields.end xs h = cc
get-named k (field j v rest) xs h = elim (Bool-cases (j == k)) [
  | inl here ↦ ground (arith, here)
  | inr later ↦ ground (arith, get-named k rest xs (rw later at h), later)
]

list_of-string_list : (refs : List String) → list_of (string_list refs) ≡ ok (string_list refs)
unfolding list_of string_list
list_of-string_list refs = refl

evidence_list-string_list :
    (lineage : Fields) (refs : List String)
    → get "evidence_refs" lineage ≡ string_list refs
    → evidence_list lineage ≡ ok (string_list refs)
unfolding evidence_list
evidence_list-string_list lineage refs h =
    rw (get-named "evidence_refs" lineage refs h, h) (list_of-string_list refs)

evidence_list-HasShape :
    (p : Fields) (h : HasShape p)
    → evidence_list (fields_of (get "lineage" p)) ≡ ok (string_list h.refs)
unfolding fields_of
evidence_list-HasShape p h = rw h.lineage_is (evidence_list-string_list h.lineage h.refs h.refs_are)

either : (x y : Bool) → (not x && not y) ≡ false → (x ≡ true) ⊎ (y ≡ true)
either true y h = inl refl
either false true h = inr refl
either false false h = cc

module _ (host : Host) where
  -- what the typed result says is what the projection says
  typed_operation :
      (operation : String) (p : Fields)
      → get "operation" (typed_result_of host operation p) ≡ str operation
  unfolding typed_result_of get dict string_eq
  typed_operation operation p = refl

  typed_disposition :
      (operation : String) (p : Fields)
      → get "disposition" (typed_result_of host operation p)
        ≡ get "disposition" (fields_of (get "result" p))
  unfolding typed_result_of get dict string_eq
  typed_disposition operation p = refl

  typed_coverage :
      (operation : String) (p : Fields)
      → get "coverage" (typed_result_of host operation p)
        ≡ get "coverage" (fields_of (get "result" p))
  unfolding typed_result_of get dict string_eq
  typed_coverage operation p = refl

  typed_ref :
      (operation : String) (p : Fields)
      → get "authorization_ref" (typed_result_of host operation p)
        ≡ get "authorization_ref" (fields_of (get "lineage" p))
  unfolding typed_result_of get dict string_eq
  typed_ref operation p = refl

  typed_refs :
      (operation : String) (p : Fields)
      → get "evidence_refs" (typed_result_of host operation p)
        ≡ listed_or_null (evidence_list (fields_of (get "lineage" p)))
  unfolding typed_result_of get dict string_eq
  typed_refs operation p = refl

  typed_fingerprint :
      (operation : String) (p : Fields)
      → get "projection_fingerprint" (typed_result_of host operation p)
        ≡ str (disclosure_fingerprint host p)
  unfolding typed_result_of get dict string_eq
  typed_fingerprint operation p = refl

  check_authority-typed_result_of :
      (operation : String) (p : Fields) (h : HasShape p) (f : EmissionFence)
      → f.projection_fingerprint ≡ disclosure_fingerprint host p
      → check_authority host f (typed_result_of host operation p) h.result h.lineage ≡ ok tt
  unfolding check_authority fields_of json_eq listed_or_null
  check_authority-typed_result_of operation p h f same =
      let refs = evidence_list-string_list h.lineage h.refs h.refs_are in
      simp (
        typed_fingerprint, typed_disposition, typed_coverage, typed_ref, typed_refs, h.result_is,
        h.lineage_is, h.disposition_is, h.coverage_is, h.ref_is, refs, same, json_eq-str,
        json_eq-string_list,
      )

  -- an envelope holds what was put in it
  envelope_operation :
      (operation : String) (p t : Fields)
      → get "operation" (dict (envelope_of host operation p t)) ≡ str operation
  unfolding envelope_of get dict string_eq
  envelope_operation operation p t = refl

  envelope_projection :
      (operation : String) (p t : Fields)
      → get "projection" (dict (envelope_of host operation p t)) ≡ obj p
  unfolding envelope_of get dict string_eq
  envelope_projection operation p t = refl

  envelope_typed_result :
      (operation : String) (p t : Fields)
      → get "typed_result" (dict (envelope_of host operation p t)) ≡ obj t
  unfolding envelope_of get dict string_eq
  envelope_typed_result operation p t = refl

  text_eq_self : (s : String) → (s == s) ≡ true
  text_eq_self s = ground arith

  -- the fence that `create` makes passes the envelope that it was made for
  assert_valid-envelope_of :
      (operation : String) (p : Fields) (h : HasShape p)
      → assert_valid host
          (record {
            operation = operation;
            projection_fingerprint = disclosure_fingerprint host p;
            typed_result_fingerprint = sha256_json host (obj (typed_result_of host operation p));
            status = "EMIT_VALID";
          })
          (dict (envelope_of host operation p (typed_result_of host operation p)))
        ≡ ok tt
  unfolding assert_valid
  assert_valid-envelope_of operation p h = simp (
    envelope_operation,
    envelope_projection,
    envelope_typed_result,
    text_eq_self,
    json_eq-str,
    typed_operation,
    h.result_is,
    h.lineage_is,
    check_authority-typed_result_of operation p h,
  )

  put_continuation-HasShape :
      (v : Json) (p : Fields) → HasShape p → HasShape (put "continuation" v p)
  unfolding string_eq
  put_continuation-HasShape v p h = record {
    result = h.result;
    lineage = h.lineage;
    result_is = get-put "result" "continuation" v p ∙ h.result_is;
    lineage_is = get-put "lineage" "continuation" v p ∙ h.lineage_is;
    disposition = h.disposition;
    disposition_is = h.disposition_is;
    coverage = h.coverage;
    coverage_is = h.coverage_is;
    ref = h.ref;
    ref_is = h.ref_is;
    refs = h.refs;
    refs_are = h.refs_are;
  }

  -- A cursor that is not supplied, or is the operation's for that projection.
  abbrev pub Fits : String → Fields → String → Type 0
  Fits operation payload expected =
      (json_eq (get "cursor" payload) null ≡ true)
      ⊎ (json_eq (get "cursor" payload) (str expected) ≡ true)

  -- the response to an operation, from the answer of the handler and the operation's cursor
  pub response_to : String → Fields → String → Fields
  response_to operation answered cursor =
      let p = put "continuation" (str cursor) answered in
      let t = typed_result_of host operation p in
      put "emission_fence"
        (fence_entry (record {
          operation = operation;
          projection_fingerprint = disclosure_fingerprint host p;
          typed_result_fingerprint = sha256_json host (obj t);
          status = "EMIT_VALID";
        }))
        (dict (envelope_of host operation p t))

  emit_fits :
      (operation : String) (payload answered : Fields) (h : HasShape answered) (cursor : String)
      → contains read_operations operation ≡ true
      → operation_cursor host operation answered ≡ ok cursor
      → (not (json_eq (get "cursor" payload) null)
          && not (json_eq (get "cursor" payload) (str cursor)))
        ≡ false
      → emit host operation payload answered ≡ ok (response_to operation answered cursor)
  unfolding emit create response_to
  emit_fits operation payload answered h cursor known derived fits =
      let p = put "continuation" (str cursor) answered in
      simp (
        derived,
        fits,
        known,
        evidence_list-HasShape p (put_continuation-HasShape (str cursor) answered h),
        assert_valid-envelope_of operation p (put_continuation-HasShape (str cursor) answered h),
      )

  -- An answer that has the shape of a projection is emitted, with its fence, exactly when the request
  -- supplies no cursor or the one of this operation on this answer: the fence that is made for a
  -- response never refuses it.
  pub emit_iff :
      (operation : String) (payload answered : Fields) (cursor : String)
      → HasShape answered
      → contains read_operations operation ≡ true
      → operation_cursor host operation answered ≡ ok cursor
      → (emit host operation payload answered ≡ ok (response_to operation answered cursor))
        ↔ Fits operation payload cursor
  unfolding emit
  emit_iff operation payload answered cursor h known derived = (
    λ e.
        either (json_eq (get "cursor" payload) null) (json_eq (get "cursor" payload) (str cursor))
          (raise_if_passed _ _ _ (rw derived at e)).0,
    λ fits. emit_fits operation payload answered h cursor known derived (ground (arith, fits)),
  )
