-- ===== src/Auth/Principal.antt =====
-- `TrustZoneAttestation` and `AuthenticatedPrincipal` of pmiri/request_auth.py. Python checks that
-- the arguments are strings; here their types do.
pub mod Verified
pub mod Again
use ragsistemi.Prelude.{
  ℕ, String, Bool, true, false, not, ◌&&◌, ◌||◌, List, [], ◌∷◌, none, some, Option, if◌then◌else◌,
  ◌==◌, string_eq, nat_eq, Result, ok, err, request_authorization_error, ◌>>=◌, ◌>>◌, raise_if,
  all_truthy, truthy, concat, take_chars,
}
use ragsistemi.Prelude.Order.{sorted_set}
use ragsistemi.Prelude.Int.{ℤ, pos, negsuc, is_below}
use ragsistemi.Host.{Host}
use ragsistemi.Canonical.{sha256_json}
use ragsistemi.Canonical.Serial.{Json, str, num, object, string_list, optional}
use ragsistemi.Canonical.Time.{valid_interval}

abbrev pub active : String
active = "ACTIVE"

pub record Attestation : Type 0 where
  pub attestation_id : String
  pub principal_ref : String
  pub zone_id : String
  pub issuer_ref : String
  pub evidence_refs : List String
  pub issued_at : String
  pub valid_until : String
  pub status : String
  pub fingerprint : String

pub record Principal : Type 0 where
  pub authentication_ref : String
  pub principal_ref : String
  pub principal_type : String
  pub service_principal_ref : String
  pub workload_principal_ref : Option String
  pub human_principal_ref : Option String
  pub attestation : Attestation
  pub allowed_projects : List String
  pub allowed_operations : List String
  pub allowed_purposes : List String
  pub delegation_grant_refs : List String
  pub policy_bundle_ref : String
  pub policy_version : String
  pub policy_epoch : ℤ
  pub issued_at : String
  pub valid_until : String
  pub status : String
  pub fingerprint : String

-- The keyword arguments of `AuthenticatedPrincipal.verified`.
pub record PrincipalArgs : Type 0 where
  pub authentication_ref : String
  pub principal_ref : String
  pub principal_type : String
  pub service_principal_ref : String
  pub attestation : Attestation
  pub allowed_projects : List String
  pub allowed_operations : List String
  pub allowed_purposes : List String
  pub policy_bundle_ref : String
  pub policy_version : String
  pub policy_epoch : ℤ
  pub issued_at : String
  pub valid_until : String
  pub workload_principal_ref : Option String
  pub human_principal_ref : Option String
  pub delegation_grant_refs : List String
  pub status : String

-- The keyword arguments of `verified` that a principal keeps.
unfoldable pub args_of : Principal → PrincipalArgs
args_of p = record {
  authentication_ref = p.authentication_ref;
  principal_ref = p.principal_ref;
  principal_type = p.principal_type;
  service_principal_ref = p.service_principal_ref;
  attestation = p.attestation;
  allowed_projects = p.allowed_projects;
  allowed_operations = p.allowed_operations;
  allowed_purposes = p.allowed_purposes;
  policy_bundle_ref = p.policy_bundle_ref;
  policy_version = p.policy_version;
  policy_epoch = p.policy_epoch;
  issued_at = p.issued_at;
  valid_until = p.valid_until;
  workload_principal_ref = p.workload_principal_ref;
  human_principal_ref = p.human_principal_ref;
  delegation_grant_refs = p.delegation_grant_refs;
  status = p.status;
}

abbrev pub is_empty : List String → Bool
is_empty [] = true
is_empty (x ∷ xs) = false

-- `principal.policy_epoch == current_policy_epoch`
unfoldable pub same_epoch : ℤ → ℕ → Bool
same_epoch (pos n) k = n == k
same_epoch (negsuc n) k = false

unfoldable pub required : PrincipalArgs → List String
required a =
    a.authentication_ref ∷ a.principal_ref ∷ a.principal_type ∷ a.service_principal_ref
    ∷ a.policy_bundle_ref ∷ a.policy_version ∷ a.issued_at ∷ a.valid_until ∷ []

-- One of the three is empty, or holds an empty string.
unfoldable pub authority_is_empty : (projects operations purposes : List String) → Bool
authority_is_empty projects operations purposes =
    is_empty projects
    || is_empty operations
    || is_empty purposes
    || not (all_truthy projects && all_truthy operations && all_truthy purposes)

module _ (host : Host) where
  attestation_json :
      (principal zone issuer : String) → List String → (issued until status : String) → Json
  attestation_json principal zone issuer refs issued until status = object (
      ("principal_ref", str principal)
      ∷ ("zone_id", str zone)
      ∷ ("issuer_ref", str issuer)
      ∷ ("evidence_refs", string_list refs)
      ∷ ("issued_at", str issued)
      ∷ ("valid_until", str until)
      ∷ ("status", str status)
      ∷ [])

  -- `TrustZoneAttestation.issue`
  unfoldable pub issue :
      (principal zone issuer : String)
      → (evidence : List String) → (issued until status : String) → Result Attestation
  unfolding attestation_json
  issue principal zone issuer evidence issued until status =
      let refs = sorted_set evidence in
      let digest =
        sha256_json host (attestation_json principal zone issuer refs issued until status) in
      do
        raise_if (not (all_truthy (principal ∷ zone ∷ issuer ∷ issued ∷ until ∷ [])))
            (request_authorization_error "trust_zone_attestation_missing")
        raise_if
            (is_empty refs
              || not (status == active)
              || not (valid_interval host issued until issued))
            (request_authorization_error "trust_zone_attestation_invalid")
        ok (record {
          attestation_id = concat ("trust-attestation://" ∷ take_chars 32 digest ∷ []);
          principal_ref = principal;
          zone_id = zone;
          issuer_ref = issuer;
          evidence_refs = refs;
          issued_at = issued;
          valid_until = until;
          status = status;
          fingerprint = digest;
        })

  -- `TrustZoneAttestation.is_valid`
  unfoldable pub attestation_is_valid : Attestation → String → String → Bool
  attestation_is_valid a principal now =
      a.status == active
      && a.principal_ref == principal
      && valid_interval host a.issued_at a.valid_until now

  principal_json : PrincipalArgs → (projects operations purposes grants : List String) → Json
  principal_json a projects operations purposes grants = object (
      ("authentication_ref", str a.authentication_ref)
      ∷ ("principal_ref", str a.principal_ref)
      ∷ ("principal_type", str a.principal_type)
      ∷ ("service_principal_ref", str a.service_principal_ref)
      ∷ ("workload_principal_ref", optional a.workload_principal_ref)
      ∷ ("human_principal_ref", optional a.human_principal_ref)
      ∷ ("trust_zone_attestation_fingerprint", str a.attestation.fingerprint)
      ∷ ("allowed_projects", string_list projects)
      ∷ ("allowed_operations", string_list operations)
      ∷ ("allowed_purposes", string_list purposes)
      ∷ ("delegation_grant_refs", string_list grants)
      ∷ ("policy_bundle_ref", str a.policy_bundle_ref)
      ∷ ("policy_version", str a.policy_version)
      ∷ ("policy_epoch", num a.policy_epoch)
      ∷ ("issued_at", str a.issued_at)
      ∷ ("valid_until", str a.valid_until)
      ∷ ("status", str a.status)
      ∷ [])

  -- The principal that `verified` returns once its checks have passed.
  unfoldable pub build : PrincipalArgs → Principal
  unfolding principal_json
  build a =
      let projects = sorted_set a.allowed_projects in
      let operations = sorted_set a.allowed_operations in
      let purposes = sorted_set a.allowed_purposes in
      let grants = sorted_set a.delegation_grant_refs in
      record {
        authentication_ref = a.authentication_ref;
        principal_ref = a.principal_ref;
        principal_type = a.principal_type;
        service_principal_ref = a.service_principal_ref;
        workload_principal_ref = a.workload_principal_ref;
        human_principal_ref = a.human_principal_ref;
        attestation = a.attestation;
        allowed_projects = projects;
        allowed_operations = operations;
        allowed_purposes = purposes;
        delegation_grant_refs = grants;
        policy_bundle_ref = a.policy_bundle_ref;
        policy_version = a.policy_version;
        policy_epoch = a.policy_epoch;
        issued_at = a.issued_at;
        valid_until = a.valid_until;
        status = a.status;
        fingerprint = sha256_json host (principal_json a projects operations purposes grants);
      }

  -- `AuthenticatedPrincipal.verified`
  unfoldable pub verified : PrincipalArgs → Result Principal
  unfolding required authority_is_empty
  verified a = do
    raise_if (not (all_truthy (required a)))
        (request_authorization_error "principal_required_field_missing")
    raise_if
        (authority_is_empty (sorted_set a.allowed_projects) (sorted_set a.allowed_operations)
          (sorted_set a.allowed_purposes))
        (request_authorization_error "principal_authority_empty")
    raise_if (is_below a.policy_epoch 0 || not (a.status == active))
        (request_authorization_error "principal_state_invalid")
    raise_if (not (a.attestation.principal_ref == a.principal_ref))
        (request_authorization_error "trust_zone_principal_mismatch")
    raise_if (not (valid_interval host a.issued_at a.valid_until a.issued_at))
        (request_authorization_error "principal_validity_invalid")
    ok (build a)

  -- `AuthenticatedPrincipal.is_valid`
  unfoldable pub is_valid : Principal → String → ℕ → Bool
  is_valid p now epoch =
      p.status == active
      && same_epoch p.policy_epoch epoch
      && valid_interval host p.issued_at p.valid_until now
      && attestation_is_valid p.attestation p.principal_ref now
