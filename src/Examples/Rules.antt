-- ===== src/Examples/Rules.antt =====
-- Scopes, classifications, the egress fence and timestamps on small inputs.
use ragsistemi.Prelude.{String, ◌≡◌, ◌↔◌, refl, true, false, [], ◌∷◌, some, truthy, string_eq}
use ragsistemi.Prelude.Int.{pos}
use ragsistemi.Canonical.Time.{valid_interval, parse_time, normalize_zone}
use ragsistemi.Models.{QueryRequest}
use ragsistemi.Security.Scope.{Authority, meet}
use ragsistemi.Security.Scope.Meet.{permits, all_permit, permits-meet}
use ragsistemi.Security.Classification
use ragsistemi.Security.Classification.{
  ClassificationBinding, SameTarget, accept_iff, evaluate_classification_change,
}
use ragsistemi.Security.Egress
use ragsistemi.Security.Egress.{DecisionValidity, MaterialManifest, SensitivityAssessment}
use ragsistemi.Examples.Hosts.{host}
use ragsistemi.Examples.Principals.{start, end}

-- a time without a zone is in no interval
naive_refused : valid_interval host start end "2026-01-01T00:00:00" ≡ false
unfolding valid_interval parse_time normalize_zone string_eq
naive_refused = refl

abbrev request : QueryRequest
request = record {
  request_id = "r";
  project_constraint = "p";
  query = " q";
  purpose = "";
  max_results = pos 1000;
}

abbrev broad : Authority
broad = ("project", "p1" ∷ "p2" ∷ []) ∷ ("operation", "read" ∷ []) ∷ []

abbrev narrow : Authority
narrow = ("operation", "read" ∷ "write" ∷ []) ∷ ("project", "p2" ∷ "p3" ∷ []) ∷ []

permits-meet_example :
    permits (meet (broad ∷ narrow ∷ [])) "project" "p2"
    ≡ all_permit (broad ∷ narrow ∷ []) "project" "p2"
permits-meet_example = permits-meet broad (narrow ∷ []) "project" "p2"

abbrev binding : ClassificationBinding
binding = record {
  binding_id = "b";
  target_kind = "artifact";
  target_id = "t";
  classification = "CLOUD_OK";
  assigning_authority_ref = "authority";
  policy_basis_ref = "basis";
  provenance_ref = "provenance";
  valid_from = start;
  valid_until = some end;
}

accept_iff_example :
    ((evaluate_classification_change host
        (some binding)
        binding
        "actor"
        "v1"
        "2026-01-01T00:00:05Z").result
      ≡ "ACCEPT")
    ↔ ((truthy "actor" ≡ true)
        × (truthy "v1" ≡ true)
        × (Classification.is_valid host binding "2026-01-01T00:00:05Z" ≡ true)
        × SameTarget host (some binding) binding)
accept_iff_example = accept_iff host (some binding) binding "actor" "v1" "2026-01-01T00:00:05Z"

abbrev external : String
external = "EXTERNAL_PROVIDER"

abbrev context : String
context = "c"

abbrev validity : DecisionValidity
validity = record {
  subject_chain_fingerprint = "s";
  trust_zone_fingerprint = "z";
  purpose = "p";
  material_manifest_fingerprint = "m";
  operation = "egress";
  policy_version = "v1";
  policy_epoch = pos 3;
  destination_binding_fingerprint = some "d";
  valid_until = end;
}

abbrev manifest : MaterialManifest
manifest = record {
  manifest_id = "id";
  source_refs = [];
  security_lineage_refs = [];
  derived_sensitivity_refs = [];
  semantic_obligation_refs = [];
  material_members_digest = "digest";
  policy_epoch = pos 3;
  fingerprint = "m";
}

abbrev assessment : SensitivityAssessment
assessment = record {
  assessment_id = "a";
  derived_artifact_ref = "t";
  input_security_lineage_refs = [];
  aggregation_semantics_ref = some "u";
  policy_epoch = pos 3;
  result = "NO_NEW_RESTRICTION_IDENTIFIED";
  required_security_bindings = [];
  fingerprint = "f";
}
