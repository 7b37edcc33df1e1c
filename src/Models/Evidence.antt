-- ===== src/Models/Evidence.antt =====
-- `SourceRecord`, `EvidenceItem` and `EvidenceSet` of pmiri/models.py.
use ragsistemi.Prelude.{
  String, List, [], ◌∷◌, Option, none, some, if◌then◌else◌, truthy, Result, ok, ◌>>=◌,
}
use ragsistemi.Prelude.Int.{ℤ}
use ragsistemi.Prelude.Dict.{Dict}
use ragsistemi.Host.{Host}
use ragsistemi.Canonical.{sha256_json}
use ragsistemi.Canonical.Serial.{Json, str, num, arr, Items, nil, cons, object}
use ragsistemi.Models.{QueryRequest, normalized}

pub data Coverage : Type 0 where
  complete partial unknown not_applicable : Coverage

-- `coverage.value`
unfoldable pub coverage_value : Coverage → String
coverage_value complete = "complete"
coverage_value partial = "partial"
coverage_value unknown = "unknown"
coverage_value not_applicable = "not_applicable"

pub data Disposition : Type 0 where
  supported empty_ partial_ denied conflict degraded schema_rejected : Disposition
  type_rejected no_mutation allowed_within_envelope : Disposition

-- `disposition.value`
unfoldable pub disposition_value : Disposition → String
disposition_value supported = "SUPPORTED"
disposition_value empty_ = "EMPTY"
disposition_value partial_ = "UNKNOWN_OR_PARTIAL"
disposition_value denied = "DENIED"
disposition_value conflict = "CONFLICT_PRESERVED"
disposition_value degraded = "DEGRADED"
disposition_value schema_rejected = "SCHEMA_REJECTED"
disposition_value type_rejected = "TYPE_REJECTED"
disposition_value no_mutation = "NO_MUTATION"
disposition_value allowed_within_envelope = "ALLOWED_WITHIN_ENVELOPE"

pub record SourceRecord : Type 0 where
  pub source_id : String
  pub version_id : String
  pub project_id : String
  pub source_name : String
  pub content_fingerprint : String
  pub content : String
  pub capture_time : String
  pub metadata : Dict String

pub record EvidenceItem : Type 0 where
  pub evidence_ref : String
  pub source_id : String
  pub version_id : String
  pub project_id : String
  pub anchor : String
  pub text : String
  pub fingerprint : String
  pub score : ℤ
  pub conflict_group : Option String

-- a conflict group that is named: neither None nor the empty text
unfoldable pub named : Option String → Option String
named none = none
named (some g) = if truthy g then some g else none

group_field : Option String → List (String × Json)
group_field none = []
group_field (some g) = ("conflict_group", str g) ∷ []

-- `EvidenceItem.public_dict`
unfoldable pub item_dict : EvidenceItem → Json
unfolding group_field
item_dict i = object (
    ("evidence_ref", str i.evidence_ref)
    ∷ ("source_id", str i.source_id)
    ∷ ("version_id", str i.version_id)
    ∷ ("project_id", str i.project_id)
    ∷ ("anchor", str i.anchor)
    ∷ ("fingerprint", str i.fingerprint)
    ∷ ("score", num i.score)
    ∷ group_field (named i.conflict_group))

unfoldable pub item_dicts : List EvidenceItem → Items
item_dicts [] = nil
item_dicts (i ∷ items) = cons (item_dict i) (item_dicts items)

unfoldable pub item_refs : List EvidenceItem → List String
item_refs [] = []
item_refs (i ∷ items) = i.evidence_ref ∷ item_refs items

unfoldable pub item_anchors : List EvidenceItem → List String
item_anchors [] = []
item_anchors (i ∷ items) = i.anchor ∷ item_anchors items

pub record EvidenceSet : Type 0 where
  pub request : QueryRequest
  pub items : List EvidenceItem
  pub coverage : Coverage
  pub authorization_lineage : String
  pub conflict_groups : List String

of_coverage : Coverage → Disposition
of_coverage complete = supported
of_coverage partial = partial_
of_coverage unknown = partial_
of_coverage not_applicable = supported

-- the three tests of `EvidenceSet.disposition`
unfoldable pub disposition_of : List EvidenceItem → List String → Coverage → Disposition
unfolding of_coverage
disposition_of [] groups c = empty_
disposition_of (i ∷ items) (g ∷ groups) c = conflict
disposition_of (i ∷ items) [] c = of_coverage c

-- `EvidenceSet.disposition`
unfoldable pub disposition : EvidenceSet → Disposition
unfolding disposition_of
disposition e = disposition_of e.items e.conflict_groups e.coverage

module _ (host : Host) where
  -- `EvidenceSet.fingerprint`
  unfoldable pub fingerprint : EvidenceSet → Result String
  fingerprint e = do
    request ← normalized e.request
    ok (
        sha256_json host (
          object (
            ("request", request)
            ∷ ("items", arr (item_dicts e.items))
            ∷ ("coverage", str (coverage_value e.coverage))
            ∷ ("authorization_lineage", str e.authorization_lineage)
            ∷ [])))
