-- ===== src/Examples/Verdicts.antt =====
-- A trust decision and a capability decision on small inputs.
use ragsistemi.Prelude.{◌≡◌, ◌⊎◌, refl, true, false, [], ◌∷◌, ok, string_eq}
use ragsistemi.Prelude.Int.{pos}
use ragsistemi.Canonical.{sha256_json, is_sha256}
use ragsistemi.Canonical.Serial.{num, str, arr, nil, cons, Fields, dict}
use ragsistemi.Decisions
use ragsistemi.Decisions.Outbound.{is_allowing}
use ragsistemi.Decisions.Trust
use ragsistemi.Decisions.Trust.{validate_trust_decision, validate_capability_decision}
use ragsistemi.Decisions.Trust.Verdicts.{
  IsTrusted, validate_trust_decision-allowing, validate_capability_decision-fresh,
}
use ragsistemi.Examples.Hosts.{digest, hex_host}

unfoldable trust : Fields
unfolding dict
trust = dict (
    ("record_type", str "PMIRI_D2_TRUST_DECISION")
    ∷ ("schema_version", str "0.3")
    ∷ ("decision_id", str "d")
    ∷ ("destination_binding_ref", str "b")
    ∷ ("purpose_binding_ref", str "p")
    ∷ ("material_manifest_ref", str "m")
    ∷ ("trust_assertion_refs", arr (cons (str "t") nil))
    ∷ ("capability_decision_ref", str "c")
    ∷ ("authority_manifest_fingerprint", str digest)
    ∷ ("freshness_profile_id", str "f")
    ∷ ("freshness_profile_fingerprint", str digest)
    ∷ ("validity_ref", str "v")
    ∷ ("trust_state", str "CONDITIONALLY_TRUSTED")
    ∷ ("action_result", str "ALLOW_WITH_CONSTRAINTS")
    ∷ ("content_lifecycle", str "NOT_APPLICABLE")
    ∷ ("reason_class", str "NONE")
    ∷ ("decision_fingerprint", str digest)
    ∷ ("constraint_artifact_ref", str "a")
    ∷ ("redaction_profile_ref", str "r")
    ∷ [])

trust_passes : validate_trust_decision hex_host trust ≡ ok tt
unfolding validate_trust_decision trust Decisions.required_fields Decisions.names string_eq
    Decisions.is_text Decisions.get Decisions.is_filled Decisions.raise_unless_in
    Decisions.is_digest is_sha256 Decisions.is_size sha256_json Decisions.has_exactly
    Decisions.missing Trust.all_filled Trust.is_refs Trust.is_filled_list Trust.is_untrusted
    is_allowing
trust_passes = refl

trust_allows : is_allowing (Decisions.get "action_result" trust) ≡ true
unfolding is_allowing Decisions.get trust Decisions.is_text string_eq
trust_allows = refl

validate_trust_decision-allowing_example : IsTrusted hex_host trust
validate_trust_decision-allowing_example =
    validate_trust_decision-allowing hex_host trust trust_passes trust_allows

unfoldable capability : Fields
unfolding dict
capability = dict (
    ("record_type", str "PMIRI_D2_CAPABILITY_DECISION")
    ∷ ("schema_version", str "0.2")
    ∷ ("decision_id", str "d")
    ∷ ("subject_binding", str "s")
    ∷ ("purpose", str "retrieval")
    ∷ ("material_manifest_ref", str "m")
    ∷ ("material_manifest_fingerprint", str digest)
    ∷ ("capability_profile_fingerprint", str digest)
    ∷ ("observation_refs", arr (cons (str "o") nil))
    ∷ ("policy_version", str "v1")
    ∷ ("invalidation_epoch", num (pos 3))
    ∷ ("authority_manifest_fingerprint", str digest)
    ∷ ("freshness_profile_id", str "f")
    ∷ ("freshness_profile_fingerprint", str digest)
    ∷ ("capability_state", str "FRESH")
    ∷ ("action_result", str "ALLOW")
    ∷ ("reason_class", str "NONE")
    ∷ ("validity_ref", str "v")
    ∷ ("decision_fingerprint", str digest)
    ∷ [])

capability_passes : validate_capability_decision hex_host capability ≡ ok tt
unfolding validate_capability_decision capability Decisions.required_fields Decisions.names
    string_eq Decisions.is_text Decisions.get Decisions.is_filled Decisions.raise_unless_in
    Decisions.is_digest is_sha256 Decisions.is_size sha256_json Decisions.has_exactly
    Decisions.missing Trust.all_filled Trust.is_refs Trust.is_filled_list Trust.is_untrusted
    is_allowing
capability_passes = refl

validate_capability_decision-fresh_example :
    ((is_allowing (Decisions.get "action_result" capability) ≡ false)
      ⊎ (Decisions.is_text "FRESH" (Decisions.get "capability_state" capability) ≡ true))
    × ((Decisions.is_text "MISSING" (Decisions.get "capability_state" capability) ≡ false)
        ⊎ (Decisions.is_text "CAPABILITY_MISSING" (Decisions.get "reason_class" capability) ≡ true))
validate_capability_decision-fresh_example =
    validate_capability_decision-fresh hex_host capability capability_passes
