-- ===== src/Auth/Service/Integrity.antt =====
-- `integrity_valid` and `public_lineage` of `RequestAuthorizationBinding`.
use ragsistemi.Prelude.{
  String, ◌≡◌, sym, Bool, true, false, not, ◌||◌, [], ◌∷◌, if◌then◌else◌, ◌==◌, string_eq, Result,
  ok, err, arith, concat, take_chars, bind-eq-ok,
}
use mathlib.Core.Path.{subst}
use ragsistemi.Prelude.Dict.{Dict}
use ragsistemi.Host.{Host}
use ragsistemi.Canonical.{sha256_json}
use ragsistemi.Canonical.Serial.{Json, str, num, object}
use ragsistemi.Models.{QueryRequest, normalized, as_dict, normalized-as_dict}
use ragsistemi.Auth.Principal.{Principal}
use ragsistemi.Auth.Service
use ragsistemi.Auth.Service.{Binding, bind, build_binding}
use ragsistemi.Auth.Service.Bound.{build_binding-bind}

-- the payload that is hashed again
unfoldable pub own_payload : Json → Binding → Json
own_payload request b = object (
    ("request", request)
    ∷ ("authentication_ref", str b.authentication_ref)
    ∷ ("principal_ref", str b.principal_ref)
    ∷ ("subject_chain_fingerprint", str b.subject_chain_fingerprint)
    ∷ ("trust_zone_attestation_fingerprint", str b.trust_zone_attestation_fingerprint)
    ∷ ("trust_zone", str b.trust_zone)
    ∷ ("purpose_binding_fingerprint", str b.purpose_binding_fingerprint)
    ∷ ("operation", str b.operation)
    ∷ ("project_constraint", str b.project_constraint)
    ∷ ("policy_bundle_ref", str b.policy_bundle_ref)
    ∷ ("policy_version", str b.policy_version)
    ∷ ("policy_epoch", num b.policy_epoch)
    ∷ ("issued_at", str b.issued_at)
    ∷ ("valid_until", str b.valid_until)
    ∷ [])

module _ (host : Host) where
  -- `normalized` raises nothing but ValueErrors, which are caught.
  integrity_of : Binding → QueryRequest → Result Json → Bool
  integrity_of b r (err e) = false
  integrity_of b r (ok request) =
      if not (b.request_id == r.request_id)
        || not (b.request_fingerprint == sha256_json host request)
      then false
      else b.fingerprint == sha256_json host (own_payload request b)

  unfoldable pub integrity_valid : Binding → QueryRequest → Bool
  unfolding integrity_of
  integrity_valid b r = integrity_of b r (normalized r)

  unfoldable pub public_lineage : Binding → Dict String
  public_lineage b =
      let digest = sha256_json host (
        object (
          ("request_fingerprint", str b.request_fingerprint)
          ∷ ("scope", str "server-derived-local-read")
          ∷ [])) in
      ("authorization_ref", concat ("auth_" ∷ take_chars 32 digest ∷ []))
      ∷ ("request_fingerprint", b.request_fingerprint)
      ∷ ("scope", b.project_constraint)
      ∷ []

  bind_integrity :
      (operation : String) (r : QueryRequest) (p : Principal)
      (subject_fp purpose_fp issued_at : String)
      → integrity_of
          (bind host (as_dict r) operation r p subject_fp purpose_fp issued_at)
          r
          (ok (as_dict r))
        ≡ true
  unfolding integrity_of bind own_payload Service.payload
  bind_integrity operation r p subject_fp purpose_fp issued_at = ground arith

  -- A binding that the service derives passes the integrity check of its request.
  pub integrity_valid-build_binding :
      (operation : String) (r : QueryRequest) (p : Principal) (issued_at : String) (b : Binding)
      → build_binding host operation r p issued_at ≡ ok b
      → integrity_valid b r ≡ true
  unfolding integrity_valid build_binding
  integrity_valid-build_binding operation r p issued_at b h =
      let (subject_fp, purpose_fp, e) = build_binding-bind host operation r p issued_at b h in
      let (j, made, h1) = bind-eq-ok (normalized r) _ h in
      rw (made, normalized-as_dict r j made)
        (subst (λ (x : Binding). integrity_of x r (ok (as_dict r)) ≡ true) (sym e)
          (bind_integrity operation r p subject_fp purpose_fp issued_at))
