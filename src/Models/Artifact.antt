-- ===== src/Models/Artifact.antt =====
-- `ContextArtifact` and `QueryResult` of pmiri/models.py.
use ragsistemi.Prelude.{
  ℕ, String, List, [], ◌∷◌, ◌++◌, Result, ok, ◌>>=◌, concat, join_with, truthy, if◌then◌else◌,
}
use ragsistemi.Prelude.Int.{pos}
use ragsistemi.Host.{Host}
use ragsistemi.Canonical.{sha256_json}
use ragsistemi.Canonical.Serial.{
  Json, str, num, arr, Items, nil, cons, Fields, object, dict, string_list,
}
use ragsistemi.Models.{QueryRequest, normalized}
use ragsistemi.Models.Evidence.{
  Coverage, coverage_value, Disposition, disposition_value, EvidenceItem, item_dicts, item_refs,
}

-- an entry of the omission ledger
pub record Omission : Type 0 where
  pub reason : String
  pub reference : String

pub record ContextArtifact : Type 0 where
  pub artifact_kind : String
  pub bound : ℕ
  pub text : String
  pub coverage : Coverage
  pub disposition : Disposition
  pub evidence_refs : List String
  pub citation_refs : List String
  pub authorization_lineage : String
  pub omission_ledger : List Omission

omission_dicts : List Omission → Items
omission_dicts [] = nil
omission_dicts (o ∷ ledger) =
    cons (object (("reason", str o.reason) ∷ ("reference", str o.reference) ∷ []))
      (omission_dicts ledger)

-- the entries of `ContextArtifact.public_dict`
unfoldable pub artifact_entries : ContextArtifact → List (String × Json)
unfolding omission_dicts
artifact_entries a =
    ("artifact_kind", str a.artifact_kind)
    ∷ ("bound", num (pos a.bound))
    ∷ ("text", str a.text)
    ∷ ("coverage", str (coverage_value a.coverage))
    ∷ ("disposition", str (disposition_value a.disposition))
    ∷ ("evidence_refs", string_list a.evidence_refs)
    ∷ ("citation_refs", string_list a.citation_refs)
    ∷ ("authorization_lineage", str a.authorization_lineage)
    ∷ ("omission_ledger", arr (omission_dicts a.omission_ledger))
    ∷ []

pub record QueryResult : Type 0 where
  pub request : QueryRequest
  pub disposition : Disposition
  pub coverage : Coverage
  pub evidence : List EvidenceItem
  pub authorization_lineage : String
  pub context : ContextArtifact

citation_lines : List String → List String
citation_lines [] = []
citation_lines (c ∷ refs) = "" ∷ concat ("Citations: " ∷ join_with ", " (c ∷ refs) ∷ []) ∷ []

-- `QueryResult.render`
unfoldable pub render : QueryResult → String
unfolding citation_lines
render r = join_with "\n" (
    (concat ("Disposition: " ∷ disposition_value r.disposition ∷ [])
      ∷ concat ("Coverage: " ∷ coverage_value r.coverage ∷ [])
      ∷ concat ("Project: " ∷ r.request.project_constraint ∷ [])
      ∷ [])
    ++ ((if truthy r.context.text then "" ∷ r.context.text ∷ [] else [])
        ++ citation_lines r.context.citation_refs))

module _ (host : Host) where
  -- `ContextArtifact.fingerprint`
  unfoldable pub artifact_fingerprint : ContextArtifact → String
  artifact_fingerprint a = sha256_json host (object (artifact_entries a))

  -- the values that `QueryResult.structured` gives beside the request
  unfoldable pub result_entry : QueryResult → Json
  result_entry r = object (
      ("disposition", str (disposition_value r.disposition))
      ∷ ("coverage", str (coverage_value r.coverage))
      ∷ [])

  unfoldable pub context_entry : QueryResult → Json
  context_entry r =
      object
        (artifact_entries r.context ++ ("fingerprint", str (artifact_fingerprint r.context)) ∷ [])

  -- `QueryResult.structured`
  unfoldable pub structured : QueryResult → Result Fields
  structured r = do
    request ← normalized r.request
    ok (
        dict (
          ("request", request)
          ∷ ("result", result_entry r)
          ∷ ("evidence", arr (item_dicts r.evidence))
          ∷ (
            "lineage",
            object (
                ("authorization_ref", str r.authorization_lineage)
                ∷ ("evidence_refs", string_list (item_refs r.evidence))
                ∷ []),
          )
          ∷ ("context", context_entry r)
          ∷ []))
