-- ===== src/Security/Egress.antt =====
-- `DerivedSensitivityAssessment`, `SecurityDecisionValidity`, `EgressMaterialManifest`,
-- `EgressDecision` and `ProviderSendFence` of pmiri/security.py.
pub mod Fence
use ragsistemi.Prelude.{
  String, Bool, true, false, not, ◌&&◌, ◌||◌, List, [], ◌∷◌, none, some, Option, if◌then◌else◌,
  ◌==◌, string_eq, option_eq, contains, truthy, Result, ok, err, permission_error, ◌>>=◌, ◌>>◌,
  raise_if,
}
use ragsistemi.Prelude.Order.{sorted_set}
use ragsistemi.Prelude.Int.{ℤ, int_eq}
use ragsistemi.Host.{Host}
use ragsistemi.Canonical.{sha256_json, ref}
use ragsistemi.Canonical.Serial.{Json, str, num, object, string_list, optional}
use ragsistemi.Canonical.Time.{valid_interval}
use ragsistemi.Security.Classification
use ragsistemi.Security.Classification.{ClassificationBinding}

pub record SensitivityAssessment : Type 0 where
  pub assessment_id : String
  pub derived_artifact_ref : String
  pub input_security_lineage_refs : List String
  pub aggregation_semantics_ref : Option String
  pub policy_epoch : ℤ
  pub result : String
  pub required_security_bindings : List String
  pub fingerprint : String

-- `not value` of a `str | None`, negated
abbrev pub is_given : Option String → Bool
is_given none = false
is_given (some s) = truthy s

abbrev pub is_empty : List String → Bool
is_empty [] = true
is_empty (x ∷ xs) = false

unfoldable pub assessed_result : List String → Option String → Bool → String
assessed_result lineage semantics additional =
    if is_empty lineage || not (is_given semantics)
    then "INDETERMINATE"
    else if additional
    then "ADDITIONAL_RESTRICTION_REQUIRED"
    else "NO_NEW_RESTRICTION_IDENTIFIED"

pub record DecisionValidity : Type 0 where
  pub subject_chain_fingerprint : String
  pub trust_zone_fingerprint : String
  pub purpose : String
  pub material_manifest_fingerprint : String
  pub operation : String
  pub policy_version : String
  pub policy_epoch : ℤ
  pub destination_binding_fingerprint : Option String
  pub valid_until : String

-- `self == other` of the frozen dataclass: field by field
unfoldable pub same_validity : DecisionValidity → DecisionValidity → Bool
same_validity a b =
    a.subject_chain_fingerprint == b.subject_chain_fingerprint
    && a.trust_zone_fingerprint == b.trust_zone_fingerprint
    && a.purpose == b.purpose
    && a.material_manifest_fingerprint == b.material_manifest_fingerprint
    && a.operation == b.operation
    && a.policy_version == b.policy_version
    && a.policy_epoch == b.policy_epoch
    && a.destination_binding_fingerprint == b.destination_binding_fingerprint
    && a.valid_until == b.valid_until

pub record MaterialManifest : Type 0 where
  pub manifest_id : String
  pub source_refs : List String
  pub security_lineage_refs : List String
  pub derived_sensitivity_refs : List String
  pub semantic_obligation_refs : List String
  pub material_members_digest : String
  pub policy_epoch : ℤ
  pub fingerprint : String

pub record EgressDecision : Type 0 where
  pub result : String
  pub reason : String
  pub validity : DecisionValidity
  pub material_manifest_fingerprint : String
  pub destination_binding_fingerprint : Option String
  pub fingerprint : String

validity_json : DecisionValidity → Json
validity_json v = object (
    ("subject_chain_fingerprint", str v.subject_chain_fingerprint)
    ∷ ("trust_zone_fingerprint", str v.trust_zone_fingerprint)
    ∷ ("purpose", str v.purpose)
    ∷ ("material_manifest_fingerprint", str v.material_manifest_fingerprint)
    ∷ ("operation", str v.operation)
    ∷ ("policy_version", str v.policy_version)
    ∷ ("policy_epoch", num v.policy_epoch)
    ∷ ("destination_binding_fingerprint", optional v.destination_binding_fingerprint)
    ∷ ("valid_until", str v.valid_until)
    ∷ [])

module _ (host : Host) where
  assessment_json : String → List String → Option String → ℤ → String → List String → Json
  assessment_json artifact lineage semantics epoch result bindings = object (
      ("derived_artifact_ref", str artifact)
      ∷ ("input_security_lineage_refs", string_list lineage)
      ∷ ("aggregation_semantics_ref", optional semantics)
      ∷ ("policy_epoch", num epoch)
      ∷ ("result", str result)
      ∷ ("required_security_bindings", string_list bindings)
      ∷ [])

  -- `DerivedSensitivityAssessment.assess`
  unfoldable pub assess :
      String → List String → Option String → ℤ → Bool → List String → SensitivityAssessment
  unfolding assessment_json assessed_result
  assess artifact lineage_refs semantics epoch additional required =
      let lineage = sorted_set lineage_refs in
      let bindings = sorted_set required in
      let result = assessed_result lineage semantics additional in
      let payload = assessment_json artifact lineage semantics epoch result bindings in
      record {
        assessment_id = ref host "assessment" payload;
        derived_artifact_ref = artifact;
        input_security_lineage_refs = lineage;
        aggregation_semantics_ref = semantics;
        policy_epoch = epoch;
        result = result;
        required_security_bindings = bindings;
        fingerprint = sha256_json host payload;
      }

  -- `SecurityDecisionValidity.is_valid`
  unfoldable pub is_current : DecisionValidity → DecisionValidity → String → Bool
  is_current self current now =
      same_validity self current && valid_interval host "1970-01-01T00:00:00Z" self.valid_until now

  manifest_json : List String → List String → List String → List String → String → ℤ → Json
  manifest_json sources lineage assessments obligations digest epoch = object (
      ("source_refs", string_list sources)
      ∷ ("security_lineage_refs", string_list lineage)
      ∷ ("derived_sensitivity_refs", string_list assessments)
      ∷ ("semantic_obligation_refs", string_list obligations)
      ∷ ("material_members_digest", str digest)
      ∷ ("policy_epoch", num epoch)
      ∷ [])

  -- `EgressMaterialManifest.create`
  unfoldable pub create_manifest :
      (source_refs lineage_refs sensitivity_refs obligation_refs members : List String)
      → ℤ
      → MaterialManifest
  unfolding manifest_json
  create_manifest source_refs lineage_refs sensitivity_refs obligation_refs members epoch =
      let sources = sorted_set source_refs in
      let lineage = sorted_set lineage_refs in
      let assessments = sorted_set sensitivity_refs in
      let obligations = sorted_set obligation_refs in
      let digest = sha256_json host (string_list members) in
      let payload = manifest_json sources lineage assessments obligations digest epoch in
      record {
        manifest_id = ref host "manifest" payload;
        source_refs = sources;
        security_lineage_refs = lineage;
        derived_sensitivity_refs = assessments;
        semantic_obligation_refs = obligations;
        material_members_digest = digest;
        policy_epoch = epoch;
        fingerprint = sha256_json host payload;
      }

  -- A binding that forbids external egress: missing, not valid now, or local only.
  unfoldable pub is_blocking : Option ClassificationBinding → String → Bool
  is_blocking none now = true
  is_blocking (some b) now =
      not (Classification.is_valid host b now) || b.classification == "LOCAL_ONLY"

  unfoldable pub any_blocking : List (Option ClassificationBinding) → String → Bool
  any_blocking [] now = false
  any_blocking (b ∷ bindings) now = is_blocking b now || any_blocking bindings now

  -- The `if` and `elif` chain of `EgressDecision.evaluate`: the result and its reason.
  unfoldable pub verdict :
      (validity current : DecisionValidity)
      → MaterialManifest
      → (destination : Option String) → (destination_kind : String)
      → List (Option ClassificationBinding)
      → SensitivityAssessment
      → (now : String) → (constrained : Bool) → String × String
  verdict validity current manifest destination kind bindings sensitivity now constrained =
      if not (is_current validity current now)
      then ("RECOMPILE_REQUIRED_WITH_CONSTRAINTS", "POLICY_EPOCH_CHANGED")
      else if not (validity.material_manifest_fingerprint == manifest.fingerprint)
      then ("DENY", "MATERIAL_FINGERPRINT_MISMATCH")
      else if not (destination == validity.destination_binding_fingerprint)
      then ("DENY", "EXACT_BINDING_MISSING")
      else if kind == "EXTERNAL_PROVIDER" && any_blocking bindings now
      then ("DENY", "CLASSIFICATION_MISMATCH")
      else if sensitivity.result == "INDETERMINATE"
      then ("INDETERMINATE", "CLASSIFICATION_UNKNOWN")
      else if sensitivity.result == "ADDITIONAL_RESTRICTION_REQUIRED"
      then ("RECOMPILE_REQUIRED_WITH_CONSTRAINTS", "ADDITIONAL_RESTRICTION_REQUIRED")
      else (if constrained then "ALLOW_WITH_CONSTRAINTS" else "ALLOW_AS_IS", "NONE")

  -- `EgressDecision.evaluate`
  unfoldable pub evaluate :
      (validity current : DecisionValidity)
      → MaterialManifest
      → (destination : Option String) → (destination_kind : String)
      → List (Option ClassificationBinding)
      → SensitivityAssessment
      → (now : String) → (constrained : Bool) → EgressDecision
  unfolding validity_json
  evaluate validity current manifest destination kind bindings sensitivity now constrained =
      let v =
        verdict validity current manifest destination kind bindings sensitivity now constrained in
      record {
        result = v.0;
        reason = v.1;
        validity = validity;
        material_manifest_fingerprint = manifest.fingerprint;
        destination_binding_fingerprint = destination;
        fingerprint = sha256_json host (
            object (
              ("result", str v.0)
              ∷ ("reason", str v.1)
              ∷ ("validity", validity_json validity)
              ∷ ("material_manifest_fingerprint", str manifest.fingerprint)
              ∷ ("destination", optional destination)
              ∷ []));
      }

-- `decision.result in {"ALLOW_AS_IS", "ALLOW_WITH_CONSTRAINTS"}`
unfoldable pub allows : String → Bool
allows result = contains ("ALLOW_AS_IS" ∷ "ALLOW_WITH_CONSTRAINTS" ∷ []) result

-- `ProviderSendFence.authorize`
unfoldable pub authorize :
    EgressDecision → (current_context expected_context : String) → Result (Unit {0})
authorize decision current_context expected_context = do
  raise_if (not (allows decision.result)) (permission_error decision.reason)
  raise_if (not (current_context == expected_context))
      (permission_error "context_revalidation_required")
