-- ===== src/Decisions/Trust.antt =====
-- `validate_trust_decision` and `validate_capability_decision` of pmiri/decisions.py.
pub mod Verdicts
use ragsistemi.Prelude.{
  String, Bool, true, false, not, ◌&&◌, ◌||◌, List, [], ◌∷◌, if◌then◌else◌, contains, string_eq,
  Result, ok, err, contract_violation, ◌>>=◌, ◌>>◌, raise_if,
}
use ragsistemi.Host.{Host}
use ragsistemi.Canonical.{sha256_json}
use ragsistemi.Canonical.Serial.{Json, arr, obj, Items, nil, cons, Fields}
use ragsistemi.Decisions.{
  actions, reason_classes, get, names, without, missing, is_empty, required_fields, has_exactly,
  is_text, is_filled, is_digest, is_size, raise_unless_in,
}
use ragsistemi.Decisions.Outbound.{is_allowing}

abbrev pub trust_states : List String
trust_states =
    "TRUSTED_FOR_BOUND_PURPOSE" ∷ "CONDITIONALLY_TRUSTED" ∷ "UNTRUSTED" ∷ "UNKNOWN" ∷ "EXPIRED"
    ∷ "REVOKED" ∷ "CONTRADICTED" ∷ "INVALID" ∷ []

abbrev pub capability_states : List String
capability_states =
    "FRESH" ∷ "STALE" ∷ "MISSING" ∷ "REVOKED" ∷ "CONTRADICTED" ∷ "INVALID" ∷ "OUT_OF_SCOPE" ∷ []

abbrev pub trust_fields : List String
trust_fields =
    "record_type" ∷ "schema_version" ∷ "decision_id" ∷ "destination_binding_ref"
    ∷ "purpose_binding_ref" ∷ "material_manifest_ref" ∷ "trust_assertion_refs"
    ∷ "capability_decision_ref" ∷ "authority_manifest_fingerprint" ∷ "freshness_profile_id"
    ∷ "freshness_profile_fingerprint" ∷ "validity_ref" ∷ "trust_state" ∷ "action_result"
    ∷ "content_lifecycle" ∷ "reason_class" ∷ "decision_fingerprint" ∷ []

abbrev pub trust_options : List String
trust_options = "constraint_artifact_ref" ∷ "allowed_feature_refs" ∷ "redaction_profile_ref" ∷ []

abbrev pub capability_fields : List String
capability_fields =
    "record_type" ∷ "schema_version" ∷ "decision_id" ∷ "subject_binding" ∷ "purpose"
    ∷ "material_manifest_ref" ∷ "material_manifest_fingerprint" ∷ "capability_profile_fingerprint"
    ∷ "observation_refs" ∷ "policy_version" ∷ "invalidation_epoch"
    ∷ "authority_manifest_fingerprint" ∷ "freshness_profile_id" ∷ "freshness_profile_fingerprint"
    ∷ "capability_state" ∷ "action_result" ∷ "reason_class" ∷ "validity_ref"
    ∷ "decision_fingerprint" ∷ []

-- `all(isinstance(value, str) and value for value in items)`
unfoldable pub all_filled : Items → Bool
all_filled nil = true
all_filled (cons v rest) = is_filled v && all_filled rest

-- a list of texts, none of them empty
unfoldable pub is_refs : Json → Bool
is_refs (arr items) = all_filled items
is_refs v = false

-- a list that has an element
unfoldable pub is_filled_list : Json → Bool
is_filled_list (arr nil) = false
is_filled_list (arr (cons v rest)) = true
is_filled_list v = false

-- `trust_state in {"UNTRUSTED", ...}` of a state that is known
unfoldable pub is_untrusted : Json → Bool
is_untrusted v =
    is_text "UNTRUSTED" v
    || is_text "UNKNOWN" v
    || is_text "EXPIRED" v
    || is_text "REVOKED" v
    || is_text "CONTRADICTED" v
    || is_text "INVALID" v

module _ (host : Host) where
  -- `record["decision_fingerprint"] != sha256_json(...)`, negated
  is_own_fingerprint : Fields → Bool
  is_own_fingerprint r =
      is_text (sha256_json host (obj (without "decision_fingerprint" r)))
        (get "decision_fingerprint" r)

  check_trust_record : Fields → Result (Unit {0})
  unfolding is_own_fingerprint
  check_trust_record r = do
    required_fields r trust_fields "trust_decision"
    raise_if
        (not (is_empty (missing (missing (names r) trust_fields) trust_options))
          || not (is_text "PMIRI_D2_TRUST_DECISION" (get "record_type" r))
          || not (is_text "0.3" (get "schema_version" r)))
        (contract_violation "trust_decision_schema_invalid")
    raise_if (not (is_filled_list (get "trust_assertion_refs" r)))
        (contract_violation "trust_assertion_refs_invalid")
    raise_if (not (is_refs (get "trust_assertion_refs" r)))
        (contract_violation "trust_assertion_refs_invalid")
    raise_if
        (not (is_digest (get "authority_manifest_fingerprint" r))
          || not (is_digest (get "freshness_profile_fingerprint" r)))
        (contract_violation "trust_fingerprint_invalid")
    raise_if (not (is_digest (get "decision_fingerprint" r)))
        (contract_violation "trust_decision_fingerprint_invalid")
    raise_if (not (is_own_fingerprint r)) (contract_violation "trust_decision_fingerprint_mismatch")

  check_trust_words : Fields → Result (Unit {0})
  check_trust_words r = do
    raise_unless_in trust_states (get "trust_state" r) "trust_state_unknown"
    raise_unless_in reason_classes (get "reason_class" r) "trust_reason_class_invalid"
    raise_unless_in actions (get "action_result" r) "action_unknown"
    raise_if (not (is_text "NOT_APPLICABLE" (get "content_lifecycle" r)))
        (contract_violation "trust_content_lifecycle_must_be_not_applicable")

  check_trust_action : Fields → Result (Unit {0})
  check_trust_action r = do
    raise_if (is_untrusted (get "trust_state" r) && is_allowing (get "action_result" r))
        (contract_violation "non_trusted_trust_cannot_allow")
    raise_if
        (is_text "CONDITIONALLY_TRUSTED" (get "trust_state" r)
          && not (is_text "ALLOW_WITH_CONSTRAINTS" (get "action_result" r)))
        (contract_violation "conditional_trust_requires_constraints")
    raise_if
        (is_text "ALLOW_WITH_CONSTRAINTS" (get "action_result" r)
          && not (
              is_filled (get "constraint_artifact_ref" r)
              && is_filled (get "redaction_profile_ref" r)))
        (contract_violation "trust_constraints_missing")
    raise_if
        (contains (names r) "allowed_feature_refs" && not (is_refs (get "allowed_feature_refs" r)))
        (contract_violation "trust_allowed_features_invalid")

  unfoldable pub validate_trust_decision : Fields → Result (Unit {0})
  unfolding check_trust_record check_trust_words check_trust_action
  validate_trust_decision r = do check_trust_record r; check_trust_words r; check_trust_action r

  check_capability_record : Fields → Result (Unit {0})
  unfolding is_own_fingerprint
  check_capability_record r = do
    required_fields r capability_fields "capability_decision"
    raise_if
        (not (has_exactly r capability_fields)
          || not (is_text "PMIRI_D2_CAPABILITY_DECISION" (get "record_type" r))
          || not (is_text "0.2" (get "schema_version" r)))
        (contract_violation "capability_decision_schema_invalid")
    raise_if (not (is_refs (get "observation_refs" r)))
        (contract_violation "capability_observation_refs_invalid")
    raise_if
        (not (is_text "MISSING" (get "capability_state" r))
          && not (is_filled_list (get "observation_refs" r)))
        (contract_violation "capability_observation_refs_missing")
    raise_if
        (not (
          is_digest (get "material_manifest_fingerprint" r)
          && is_digest (get "capability_profile_fingerprint" r)
          && is_digest (get "authority_manifest_fingerprint" r)
          && is_digest (get "freshness_profile_fingerprint" r)
          && is_digest (get "decision_fingerprint" r)))
        (contract_violation "capability_decision_fingerprint_invalid")
    raise_if (not (is_own_fingerprint r))
        (contract_violation "capability_decision_fingerprint_mismatch")
    raise_if (not (is_size (get "invalidation_epoch" r)))
        (contract_violation "capability_decision_epoch_invalid")

  check_capability_action : Fields → Result (Unit {0})
  check_capability_action r = do
    raise_unless_in capability_states (get "capability_state" r) "capability_vocabulary_invalid"
    raise_unless_in actions (get "action_result" r) "capability_vocabulary_invalid"
    raise_unless_in reason_classes (get "reason_class" r) "capability_reason_class_invalid"
    raise_if
        (not (is_text "FRESH" (get "capability_state" r)) && is_allowing (get "action_result" r))
        (contract_violation "non_fresh_capability_cannot_allow")
    raise_if
        (is_text "MISSING" (get "capability_state" r)
          && not (is_text "CAPABILITY_MISSING" (get "reason_class" r)))
        (contract_violation "capability_missing_reason_mismatch")

  unfoldable pub validate_capability_decision : Fields → Result (Unit {0})
  unfolding check_capability_record check_capability_action
  validate_capability_decision r = do check_capability_record r; check_capability_action r
