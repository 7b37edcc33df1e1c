-- ===== src/Auth/Service/Bound.antt =====
-- What `_build_binding` returns and raises.
use mathlib.Core.Path.{subst}
use ragsistemi.Prelude.{
  String, ◌≡◌, sym, ◌↔◌, true, [], ◌∷◌, List, some, Option, string_eq, ok, err, arith, concat,
  Error, is_value_error, bind-eq-err, bind-eq-ok, ok_injective, inl, inr, nat_eq,
}
use ragsistemi.Prelude.Dict.{Dict}
use ragsistemi.Prelude.Int.{ℤ, pos, negsuc}
use ragsistemi.Host.{Host}
use ragsistemi.Canonical.Serial.{Json}
use ragsistemi.Models.{QueryRequest, normalized, as_dict, raises-normalized, normalized-as_dict}
use ragsistemi.Security.Scope.{ScopeValue}
use ragsistemi.Security.Scope.Raises.{raises-intersect_authority}
use ragsistemi.Security.Subject
use ragsistemi.Security.Subject.{
  SubjectChain, PurposeBinding, create_purpose, verify_requested_purpose, derive,
}
use ragsistemi.Auth.Principal.{Principal}
use ragsistemi.Auth.Service.{
  Binding, bind, bind_request, bind_purpose, build_binding, same_binding, same_int, scopes_of,
}

raises-derive :
    (service attestation operation purpose : String) (scopes : List (Dict ScopeValue))
    (human workload : Option String) (grants : List String) (e : Error)
    → derive service attestation operation purpose scopes human workload grants ≡ err e
    → is_value_error e ≡ true
unfolding derive
raises-derive service attestation operation purpose scopes human workload grants e h =
    ground (arith, raises-intersect_authority scopes e)

module _ (host : Host) where
  raises-create_purpose :
      (operation purpose derivation : String) (e : Error)
      → create_purpose host operation purpose derivation ≡ err e
      → is_value_error e ≡ true
  unfolding create_purpose
  raises-create_purpose operation purpose derivation e h = ground arith

  raises-bind_purpose :
      (operation : String) (r : QueryRequest) (p : Principal) (issued_at : String) (j : Json)
      (b : PurposeBinding) (e : Error)
      → bind_purpose host operation r p issued_at j b ≡ err e
      → is_value_error e ≡ true
  unfolding bind_purpose verify_requested_purpose
  raises-bind_purpose operation r p issued_at j b e h = ground (
    arith,
    raises-derive p.service_principal_ref p.attestation.attestation_id
        (concat ("pmiri://operation/" ∷ operation ∷ [])) b.purpose_binding_id
        (scopes_of operation r p) p.human_principal_ref p.workload_principal_ref
        p.delegation_grant_refs e,
  )

  raises-bind_request :
      (operation : String) (r : QueryRequest) (p : Principal) (issued_at : String) (j : Json)
      (e : Error)
      → bind_request host operation r p issued_at j ≡ err e
      → is_value_error e ≡ true
  unfolding bind_request
  raises-bind_request operation r p issued_at j e h =
      let ref = concat ("pmiri://operation/" ∷ operation ∷ []) in
      elim (bind-eq-err (create_purpose host ref r.purpose p.policy_bundle_ref)
        (bind_purpose host operation r p issued_at j) h) [
          | inl early ↦ raises-create_purpose ref r.purpose p.policy_bundle_ref e early
          | inr (b, made, late) ↦ raises-bind_purpose operation r p issued_at j b e late
        ]

  -- The exceptions of `_build_binding` are among those that its callers catch.
  pub raises-build_binding :
      (operation : String) (r : QueryRequest) (p : Principal) (issued_at : String) (e : Error)
      → build_binding host operation r p issued_at ≡ err e
      → is_value_error e ≡ true
  unfolding build_binding
  raises-build_binding operation r p issued_at e h =
      elim (bind-eq-err (normalized r) (bind_request host operation r p issued_at) h) [
        | inl early ↦ raises-normalized r e early
        | inr (j, made, late) ↦ raises-bind_request operation r p issued_at j e late
      ]

  -- A binding that is returned is `bind` of the request's dictionary and of two fingerprints.
  pub build_binding-bind :
      (operation : String) (r : QueryRequest) (p : Principal) (issued_at : String) (b : Binding)
      → build_binding host operation r p issued_at ≡ ok b
      → (subject_fp : String) × (purpose_fp : String) × (b
          ≡ bind host (as_dict r) operation r p subject_fp purpose_fp issued_at)
  unfolding build_binding bind_request bind_purpose
  build_binding-bind operation r p issued_at b h =
      let ref = concat ("pmiri://operation/" ∷ operation ∷ []) in
      let (j, made, h1) = bind-eq-ok (normalized r) (bind_request host operation r p issued_at) h in
      let (purpose, created, h2) =
        bind-eq-ok (create_purpose host ref r.purpose p.policy_bundle_ref)
          (bind_purpose host operation r p issued_at j) h1 in
      let (verified, _x, h3) =
        bind-eq-ok (verify_requested_purpose purpose (some r.purpose)) _ h2 in
      let (subject, derived, h4) =
        bind-eq-ok
          (derive p.service_principal_ref p.attestation.attestation_id ref
            purpose.purpose_binding_id (scopes_of operation r p) p.human_principal_ref
            p.workload_principal_ref p.delegation_grant_refs)
          _ h3 in
      let same = normalized-as_dict r j made in
      (
        Subject.fingerprint host subject,
        purpose.fingerprint,
        subst
            (λ (x : Json).
              b
              ≡ bind host x operation r p (Subject.fingerprint host subject) purpose.fingerprint
                  issued_at)
            same (sym (ok_injective h4)),
      )

same_int_iff : (i j : ℤ) → (same_int i j ≡ true) ↔ (i ≡ j)
unfolding same_int
same_int_iff (pos m) (pos n) = ground arith
same_int_iff (pos m) (negsuc n) = ground arith
same_int_iff (negsuc m) (pos n) = ground arith
same_int_iff (negsuc m) (negsuc n) = ground arith

-- Bindings are compared field by field.
pub same_binding_iff : (a b : Binding) → (same_binding a b ≡ true) ↔ (a ≡ b)
unfolding same_binding
same_binding_iff a b = ground (arith, same_int_iff a.policy_epoch b.policy_epoch)
