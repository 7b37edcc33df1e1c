-- ===== src/Security/Subject.antt =====
-- `AuthorizationSubjectChain` and `PurposeBinding` of pmiri/security.py.
use ragsistemi.Prelude.{
  String, Bool, true, false, not, List, [], ◌∷◌, none, some, Option, ◌==◌, string_eq, Result, ok,
  security_contract_violation, ◌>>=◌, ◌>>◌, raise_if, all_truthy,
}
use ragsistemi.Prelude.Order.{sorted_set}
use ragsistemi.Prelude.Dict.{Dict}
use ragsistemi.Host.{Host}
use ragsistemi.Canonical.{sha256_json, ref}
use ragsistemi.Canonical.Serial.{Json, str, object, string_list, optional}
use ragsistemi.Security.Scope.{Authority, ScopeValue, intersect_authority}

pub record SubjectChain : Type 0 where
  pub service_principal_ref : String
  pub originating_trust_zone_attestation_ref : String
  pub operation_ref : String
  pub purpose_binding_ref : String
  pub effective_authority : Authority
  pub human_principal_ref : Option String
  pub workload_principal_ref : Option String
  pub delegation_grant_refs : List String

-- `any(effective.values())`; an empty dictionary has no value
unfoldable pub any_value : Authority → Bool
any_value [] = false
any_value ((key, []) ∷ rest) = any_value rest
any_value ((key, v ∷ values) ∷ rest) = true

-- `AuthorizationSubjectChain.derive`
unfoldable pub derive :
    (service attestation operation purpose : String)
    → List (Dict ScopeValue)
    → (human workload : Option String) → List String
    → Result SubjectChain
unfolding any_value
derive service attestation operation purpose scopes human workload grants = do
  raise_if (not (all_truthy (service ∷ attestation ∷ operation ∷ purpose ∷ [])))
      (security_contract_violation "subject_chain_required_component_missing")
  effective ← intersect_authority scopes
  raise_if (not (any_value effective)) (security_contract_violation "effective_authority_empty")
  ok (record {
    service_principal_ref = service;
    originating_trust_zone_attestation_ref = attestation;
    operation_ref = operation;
    purpose_binding_ref = purpose;
    effective_authority = effective;
    human_principal_ref = human;
    workload_principal_ref = workload;
    delegation_grant_refs = sorted_set grants;
  })

authority_entries : Authority → List (String × Json)
authority_entries [] = []
authority_entries ((key, values) ∷ rest) = (key, string_list values) ∷ authority_entries rest

pub record PurposeBinding : Type 0 where
  pub purpose_binding_id : String
  pub operation_ref : String
  pub recognized_purpose : String
  pub derivation_ref : String
  pub fingerprint : String

module _ (host : Host) where
  -- `AuthorizationSubjectChain.fingerprint`
  unfoldable pub fingerprint : SubjectChain → String
  unfolding authority_entries
  fingerprint c = sha256_json host (
      object (
        ("human_principal_ref", optional c.human_principal_ref)
        ∷ ("service_principal_ref", str c.service_principal_ref)
        ∷ ("workload_principal_ref", optional c.workload_principal_ref)
        ∷ ("delegation_grant_refs", string_list c.delegation_grant_refs)
        ∷ ("originating_trust_zone_attestation_ref", str c.originating_trust_zone_attestation_ref)
        ∷ ("operation_ref", str c.operation_ref)
        ∷ ("purpose_binding_ref", str c.purpose_binding_ref)
        ∷ ("effective_authority", object (authority_entries c.effective_authority))
        ∷ []))

  purpose_payload : String → String → String → Json
  purpose_payload operation purpose derivation = object (
      ("operation_ref", str operation)
      ∷ ("recognized_purpose", str purpose)
      ∷ ("derivation_ref", str derivation)
      ∷ [])

  -- `PurposeBinding.create`
  unfoldable pub create_purpose : (operation purpose derivation : String) → Result PurposeBinding
  unfolding purpose_payload
  create_purpose operation purpose derivation = do
    raise_if (not (all_truthy (operation ∷ purpose ∷ derivation ∷ [])))
        (security_contract_violation "purpose_binding_missing")
    ok (record {
      purpose_binding_id = ref host "purpose" (purpose_payload operation purpose derivation);
      operation_ref = operation;
      recognized_purpose = purpose;
      derivation_ref = derivation;
      fingerprint = sha256_json host (purpose_payload operation purpose derivation);
    })

-- `PurposeBinding.verify_requested_purpose`
unfoldable pub verify_requested_purpose : PurposeBinding → Option String → Result (Unit {0})
verify_requested_purpose b none = ok tt
verify_requested_purpose b (some requested) =
    raise_if (not (requested == b.recognized_purpose))
      (security_contract_violation "purpose_relabeling_forbidden")
