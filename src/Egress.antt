-- ===== src/Egress.antt =====
-- pmiri/egress.py: the envelope that is compiled for a provider, and the final fence.
pub mod Emission
use ragsistemi.Prelude.{
  String, Bool, true, false, not, ◌||◌, List, [], ◌∷◌, if◌then◌else◌, ◌==◌, string_eq, Result, ok,
  err, permission_error, ◌>>=◌, ◌>>◌, raise_if,
}
use ragsistemi.Host.{Host}
use ragsistemi.Canonical.{sha256_json}
use ragsistemi.Canonical.Serial.{Json, str, object, string_list}
use ragsistemi.Models.Evidence.{Disposition, empty_, degraded, conflict, partial_}
use ragsistemi.Models.Artifact.{ContextArtifact, artifact_fingerprint}

-- `ProviderEnvelope`
pub record ProviderEnvelope : Type 0 where
  pub artifact_kind : String
  pub material : String
  pub citation_refs : List String
  pub evidence_refs : List String
  pub authorization_lineage : String
  pub context_fingerprint : String
  pub action_result : String
  pub destination : String

-- `ProviderEnvelope.structured`
unfoldable pub envelope_json : ProviderEnvelope → Json
envelope_json p = object (
    ("artifact_kind", str p.artifact_kind)
    ∷ ("material", str p.material)
    ∷ ("citation_refs", string_list p.citation_refs)
    ∷ ("evidence_refs", string_list p.evidence_refs)
    ∷ ("authorization_lineage", str p.authorization_lineage)
    ∷ ("context_fingerprint", str p.context_fingerprint)
    ∷ ("action_result", str p.action_result)
    ∷ ("destination", str p.destination)
    ∷ [])

-- what the disposition of the context allows
unfoldable pub action_of : Disposition → String
action_of empty_ = "DENY"
action_of degraded = "REQUIRE_REVIEW"
action_of conflict = "REQUIRE_REVIEW"
action_of partial_ = "REQUIRE_REVIEW"
action_of d = "LOCAL_ONLY"

module _ (host : Host) where
  -- `ProviderEnvelope.fingerprint`
  unfoldable pub envelope_fingerprint : ProviderEnvelope → String
  unfolding envelope_json
  envelope_fingerprint p = sha256_json host (envelope_json p)

  abbrev pub envelope_for : ContextArtifact → String → ProviderEnvelope
  envelope_for c destination = record {
    artifact_kind = "ProviderNeutralContextArtifact";
    material = c.text;
    citation_refs = c.citation_refs;
    evidence_refs = c.evidence_refs;
    authorization_lineage = c.authorization_lineage;
    context_fingerprint = artifact_fingerprint host c;
    action_result = action_of c.disposition;
    destination = destination;
  }

  -- `compile_provider_neutral`
  unfoldable pub compile_provider_neutral : ContextArtifact → String → Result ProviderEnvelope
  compile_provider_neutral c destination = do
    raise_if (not (destination == "LOCAL_ONLY"))
        (permission_error "external_destination_not_authorized_in_s0")
    ok (envelope_for c destination)

-- `ExternalEmissionFence.emit`
unfoldable pub emit : ProviderEnvelope → String → String → Result (Unit {0})
emit p current_context_fingerprint destination = do
  raise_if (not (destination == p.destination) || not (destination == "LOCAL_ONLY"))
      (permission_error "external_emission_denied")
  raise_if (not (p.context_fingerprint == current_context_fingerprint))
      (permission_error "context_revalidation_required")
  raise_if (not (p.action_result == "LOCAL_ONLY"))
      (permission_error "typed_result_does_not_authorize_emission")
