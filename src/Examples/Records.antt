-- ===== src/Examples/Records.antt =====
-- Lifecycles, outbound decisions and the decision cache on small inputs.
use ragsistemi.Prelude.{String, ◌≡◌, refl, true, [], ◌∷◌, ok, All, string_eq, nat_eq}
use ragsistemi.Prelude.Int.{ℤ, pos, int_eq}
use ragsistemi.Prelude.Dict.{lookup, NodupKeys}
use ragsistemi.Canonical.{sha256_json, is_sha256}
use ragsistemi.Canonical.Time.{parse_time, normalize_zone}
use ragsistemi.Canonical.Serial.{Json, bool, num, str, arr, nil, cons, Fields, dict, object}
use ragsistemi.Decisions
use ragsistemi.Decisions.Lifecycle
use ragsistemi.Decisions.Lifecycle.{validate_lifecycle}
use ragsistemi.Decisions.Lifecycle.Checked.{IsLifecycle, validate_lifecycle-IsLifecycle}
use ragsistemi.Decisions.Outbound
use ragsistemi.Decisions.Outbound.{validate_outbound_decision, allow_statuses, is_allowing}
use ragsistemi.Decisions.Outbound.Allowed.{
  Shows, IsBound, IsSealed, validate_outbound_decision-allowing,
}
use ragsistemi.Cache.{CachedDecision}
use ragsistemi.Examples.Hosts.{host, digest, hex_host}
use ragsistemi.Examples.Principals.{start, end}

abbrev transition : ℤ → (start_state next event at : String) → Json
unfolding object dict
transition n start_state next event at = object (
    ("sequence", num n)
    ∷ ("from_state", str start_state)
    ∷ ("to_state", str next)
    ∷ ("event", str event)
    ∷ ("observed_at", str at)
    ∷ ("actor_ref", str "actor")
    ∷ ("reason_class", str "NONE")
    ∷ [])

abbrev predicate : Json
unfolding object dict
predicate = object (
    ("explicit_operation", str "external_fetch")
    ∷ ("explicit_operation_ref", str "op")
    ∷ ("origin_bound", bool true)
    ∷ ("parser_result_ref", str "p")
    ∷ ("classification_ref", str "c")
    ∷ ("validation_result_ref", str "v")
    ∷ ("content_policy_result_ref", str "q")
    ∷ ("instruction_influence_prohibited", bool true)
    ∷ ("control_influence_prohibited", bool true)
    ∷ [])

unfoldable lifecycle : Fields
unfolding dict transition predicate
lifecycle = dict (
    ("record_type", str "PMIRI_D2_FETCHED_CONTENT_LIFECYCLE")
    ∷ ("schema_version", str "0.3")
    ∷ ("content_id", str "content")
    ∷ ("operation", str "external_fetch")
    ∷ ("purpose", str "retrieval")
    ∷ ("origin_binding_ref", str "origin")
    ∷ ("destination_binding_ref", str "destination")
    ∷ ("response_fingerprint", str digest)
    ∷ ("terminal_response_fingerprint", str digest)
    ∷ ("observed_content_type", str "text/plain")
    ∷ ("response_size_bytes", num (pos 12))
    ∷ ("initial_classification", str "RESTRICTED")
    ∷ ("trust_state", str "UNKNOWN")
    ∷ ("history_start_state", str "NOT_APPLICABLE")
    ∷ ("history_terminal_state", str "ADMITTED_TYPED_DATA")
    ∷ ("admission_state", str "ADMITTED_TYPED_DATA")
    ∷ ("retrieval_visibility", str "TYPED_DATA_ONLY")
    ∷ ("canonical_or_control_influence_prohibited", bool true)
    ∷ (
      "transitions",
      arr (
          cons (transition (pos 0) "NOT_APPLICABLE" "QUARANTINED" "FETCH_COMPLETED" start) (
            cons (transition (pos 1) "QUARANTINED" "ADMITTED_TYPED_DATA" "ADMISSION_APPROVED" end)
              nil)),
    )
    ∷ ("authority_manifest_fingerprint", str digest)
    ∷ ("lifecycle_fingerprint", str digest)
    ∷ ("admission_predicate", predicate)
    ∷ ("typed_data_schema_ref", str "schema")
    ∷ ("typed_data_fingerprint", str "typed")
    ∷ [])

lifecycle_passes : validate_lifecycle hex_host lifecycle ≡ ok tt
unfolding validate_lifecycle lifecycle Decisions.required_fields Decisions.names string_eq
    Decisions.is_text Decisions.get Decisions.is_filled Decisions.raise_unless_in Lifecycle.text_of
    Decisions.is_digest is_sha256 Decisions.is_size Decisions.is_true sha256_json
    Decisions.has_exactly Lifecycle.visibility_of Lifecycle.check_history Decisions.is_index dict
    object normalize_zone parse_time Lifecycle.is_legal Lifecycle.observed_time Decisions.missing
    nat_eq
lifecycle_passes = refl

validate_lifecycle-IsLifecycle_example :
    (terminal : String) × IsLifecycle hex_host lifecycle terminal
validate_lifecycle-IsLifecycle_example =
    validate_lifecycle-IsLifecycle hex_host lifecycle lifecycle_passes

unfoldable outbound : Fields
unfolding dict
outbound = dict (
    ("operation", str "provider_call")
    ∷ ("purpose", str "provider_call")
    ∷ ("action_result", str "ALLOW")
    ∷ ("content_lifecycle", str "NOT_APPLICABLE")
    ∷ ("reason_class", str "NONE")
    ∷ ("tls_identity_status", str "MATCHED")
    ∷ ("resolution_set_status", str "ALL_ALLOWLISTED_PUBLIC")
    ∷ ("connection_binding_status", str "VALIDATED")
    ∷ ("final_revalidation_result", str "MATCHED")
    ∷ [])

outbound_passes : validate_outbound_decision host outbound ≡ ok tt
unfolding validate_outbound_decision outbound Decisions.required_fields Decisions.names string_eq
    Decisions.raise_unless_in Decisions.get Decisions.is_text Outbound.any_given Outbound.is_none
    is_allowing Outbound.is_truthy
outbound_passes = refl

outbound_allows : is_allowing (Decisions.get "action_result" outbound) ≡ true
unfolding is_allowing Decisions.get outbound Decisions.is_text string_eq
outbound_allows = refl

validate_outbound_decision-allowing_example :
    All (Shows outbound) allow_statuses × IsBound host outbound × IsSealed host outbound
validate_outbound_decision-allowing_example =
    validate_outbound_decision-allowing host outbound outbound_passes outbound_allows

abbrev decision : CachedDecision String
decision = record {
  key = "k";
  value = "v";
  invalidation_epoch = pos 3;
  freshness_profile_id = "p";
  freshness_profile_fingerprint = "f";
}

one_decision : NodupKeys (("k", decision) ∷ [])
unfolding lookup
one_decision = (refl, tt)
