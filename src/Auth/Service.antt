-- ===== src/Auth/Service.antt =====
-- `RequestAuthorizationService` of pmiri/request_auth.py, over the ports of `Auth/Adapters`. The
-- locks make each port's call atomic; the service is one object, passed along.
pub mod Bound
pub mod Integrity
pub mod Calls
use ragsistemi.Prelude.{
  ℕ, String, Bool, true, false, not, ◌&&◌, ◌||◌, List, [], ◌∷◌, none, some, Option, if◌then◌else◌,
  ◌==◌, string_eq, option_eq, nat_eq, contains, ltb, Result, ok, err, Error, value_error, ◌>>=◌,
  ◌>>◌, raise_if, is_value_error, concat, take_chars, truthy,
}
use ragsistemi.Prelude.Dict.{Dict}
use ragsistemi.Prelude.Int.{ℤ, pos, negsuc}
use ragsistemi.Host.{Host}
use ragsistemi.Canonical.{sha256_json}
use ragsistemi.Canonical.Serial.{Json, str, num, object}
use ragsistemi.Canonical.Time.{valid_interval}
use ragsistemi.Models.{QueryRequest, normalized}
use ragsistemi.Security.Scope.{ScopeValue, array}
use ragsistemi.Security.Subject
use ragsistemi.Security.Subject.{PurposeBinding, create_purpose, verify_requested_purpose, derive}
use ragsistemi.Auth.Principal
use ragsistemi.Auth.Principal.{Principal, same_epoch}
use ragsistemi.Auth.Adapters.{
  RegistryAdapter, RateLimiterAdapter, PolicyEpochAdapter, ReplayGuardAdapter,
}

-- `RequestAuthorizationBinding`
pub record Binding : Type 0 where
  pub binding_id : String
  pub request_id : String
  pub request_fingerprint : String
  pub authentication_ref : String
  pub principal_ref : String
  pub subject_chain_fingerprint : String
  pub trust_zone_attestation_fingerprint : String
  pub trust_zone : String
  pub purpose_binding_fingerprint : String
  pub operation : String
  pub purpose : String
  pub project_constraint : String
  pub policy_bundle_ref : String
  pub policy_version : String
  pub policy_epoch : ℤ
  pub issued_at : String
  pub valid_until : String
  pub fingerprint : String

unfoldable pub same_int : ℤ → ℤ → Bool
same_int (pos m) (pos n) = m == n
same_int (negsuc m) (negsuc n) = m == n
same_int _ _ = false

-- `candidate == binding` of the frozen dataclass
unfoldable pub same_binding : Binding → Binding → Bool
same_binding a b =
    a.binding_id == b.binding_id
    && a.request_id == b.request_id
    && a.request_fingerprint == b.request_fingerprint
    && a.authentication_ref == b.authentication_ref
    && a.principal_ref == b.principal_ref
    && a.subject_chain_fingerprint == b.subject_chain_fingerprint
    && a.trust_zone_attestation_fingerprint == b.trust_zone_attestation_fingerprint
    && a.trust_zone == b.trust_zone
    && a.purpose_binding_fingerprint == b.purpose_binding_fingerprint
    && a.operation == b.operation
    && a.purpose == b.purpose
    && a.project_constraint == b.project_constraint
    && a.policy_bundle_ref == b.policy_bundle_ref
    && a.policy_version == b.policy_version
    && same_int a.policy_epoch b.policy_epoch
    && a.issued_at == b.issued_at
    && a.valid_until == b.valid_until
    && a.fingerprint == b.fingerprint

-- `AuthorizationEvaluation`: denied for a reason, or allowed with a binding. The source's third
-- shape, allowed without a binding, is never made.
pub data Evaluation : Type 0 where
  deny : String → Evaluation
  allow : Binding → Evaluation

-- `now or utc_now()`
unfoldable pub now_or : Option String → String → String
now_or none clock = clock
now_or (some now) clock = if truthy now then now else clock

-- The two scopes that `_build_binding` intersects: what the principal may do, and the request.
unfoldable pub scopes_of : String → QueryRequest → Principal → List (Dict ScopeValue)
scopes_of operation r p =
    (("project", array p.allowed_projects)
      ∷ ("operation", array p.allowed_operations)
      ∷ ("purpose", array p.allowed_purposes)
      ∷ [])
    ∷ (("project", array (r.project_constraint ∷ []))
        ∷ ("operation", array (operation ∷ []))
        ∷ ("purpose", array (r.purpose ∷ []))
        ∷ [])
    ∷ []

unfoldable pub payload :
    Json → Principal → (operation project subject_fp purpose_fp issued_at : String) → Json
payload request p operation project subject_fp purpose_fp issued_at = object (
    ("request", request)
    ∷ ("authentication_ref", str p.authentication_ref)
    ∷ ("principal_ref", str p.principal_ref)
    ∷ ("subject_chain_fingerprint", str subject_fp)
    ∷ ("trust_zone_attestation_fingerprint", str p.attestation.fingerprint)
    ∷ ("trust_zone", str p.attestation.zone_id)
    ∷ ("purpose_binding_fingerprint", str purpose_fp)
    ∷ ("operation", str operation)
    ∷ ("project_constraint", str project)
    ∷ ("policy_bundle_ref", str p.policy_bundle_ref)
    ∷ ("policy_version", str p.policy_version)
    ∷ ("policy_epoch", num p.policy_epoch)
    ∷ ("issued_at", str issued_at)
    ∷ ("valid_until", str p.valid_until)
    ∷ [])

module _ (host : Host) where
  -- The binding, once the request is normalized and the two fingerprints are made.
  unfoldable pub bind :
      Json
      → String
      → QueryRequest
      → Principal
      → (subject_fp purpose_fp issued_at : String) → Binding
  bind request operation r p subject_fp purpose_fp issued_at =
      let digest =
        sha256_json host
          (payload request p operation r.project_constraint subject_fp purpose_fp issued_at) in
      record {
        binding_id = concat ("request-auth://" ∷ take_chars 32 digest ∷ []);
        request_id = r.request_id;
        request_fingerprint = sha256_json host request;
        authentication_ref = p.authentication_ref;
        principal_ref = p.principal_ref;
        subject_chain_fingerprint = subject_fp;
        trust_zone_attestation_fingerprint = p.attestation.fingerprint;
        trust_zone = p.attestation.zone_id;
        purpose_binding_fingerprint = purpose_fp;
        operation = operation;
        purpose = r.purpose;
        project_constraint = r.project_constraint;
        policy_bundle_ref = p.policy_bundle_ref;
        policy_version = p.policy_version;
        policy_epoch = p.policy_epoch;
        issued_at = issued_at;
        valid_until = p.valid_until;
        fingerprint = digest;
      }

  -- the rest of `_build_binding`, from the purpose binding on
  unfoldable pub bind_purpose :
      String → QueryRequest → Principal → String → Json → PurposeBinding → Result Binding
  bind_purpose operation r p issued_at request purpose = do
    verify_requested_purpose purpose (some r.purpose)
    subject ←
        derive p.service_principal_ref p.attestation.attestation_id
          (concat ("pmiri://operation/" ∷ operation ∷ [])) purpose.purpose_binding_id
          (scopes_of operation r p) p.human_principal_ref p.workload_principal_ref
          p.delegation_grant_refs
    ok (bind request operation r p (Subject.fingerprint host subject) purpose.fingerprint issued_at)

  unfoldable pub bind_request : String → QueryRequest → Principal → String → Json → Result Binding
  bind_request operation r p issued_at request = do
    purpose ←
        create_purpose host (concat ("pmiri://operation/" ∷ operation ∷ [])) r.purpose
          p.policy_bundle_ref
    bind_purpose operation r p issued_at request purpose

  -- `_build_binding`
  unfoldable pub build_binding : String → QueryRequest → Principal → String → Result Binding
  build_binding operation r p issued_at = do
    request ← normalized r
    bind_request operation r p issued_at request

  -- `RequestAuthorizationBinding.is_valid`
  unfoldable pub binding_is_valid : Binding → String → ℕ → Bool
  binding_is_valid b now epoch =
      same_epoch b.policy_epoch epoch && valid_interval host b.issued_at b.valid_until now
