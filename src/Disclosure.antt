-- ===== src/Disclosure.antt =====
-- pmiri/disclosure.py: what of an answer a caller is shown.
use ragsistemi.Prelude.{
  String, Bool, true, false, not, ◌||◌, List, [], ◌∷◌, ◌++◌, if◌then◌else◌, concat, take_chars,
  Result, ok, ◌>>=◌,
}
use ragsistemi.Prelude.Int.{pos}
use ragsistemi.Host.{Host}
use ragsistemi.Canonical.{sha256_json}
use ragsistemi.Canonical.Serial.{Json, str, num, arr, obj, nil, Fields, object, dict}
use ragsistemi.Decisions.{get}
use ragsistemi.Models.{QueryRequest, normalized}
use ragsistemi.Models.Evidence.{EvidenceItem}
use ragsistemi.Models.Artifact.{QueryResult, structured}

-- the entries of a request that a caller is shown
unfoldable pub request_entry : QueryRequest → Json
request_entry r = object (
    ("request_id", str r.request_id)
    ∷ ("project_constraint", str r.project_constraint)
    ∷ ("purpose", str r.purpose)
    ∷ [])

no_items : List EvidenceItem → Bool
no_items [] = true
no_items (i ∷ items) = false

module _ (host : Host) where
  lineage : QueryRequest → String
  unfolding concat take_chars
  lineage r = concat (
      "auth_"
      ∷ take_chars 32 (
          sha256_json host (
            object (
              ("project", str r.project_constraint)
              ∷ ("purpose", str r.purpose)
              ∷ ("request_id", str r.request_id)
              ∷ [])))
      ∷ [])

  empty_context : QueryRequest → QueryResult → List (String × Json)
  unfolding lineage
  empty_context r result =
      ("artifact_kind", str "CompiledContextArtifact")
      ∷ ("bound", num (pos result.context.bound))
      ∷ ("text", str "")
      ∷ ("coverage", str "unknown")
      ∷ ("disposition", str "EMPTY")
      ∷ ("evidence_refs", arr nil)
      ∷ ("citation_refs", arr nil)
      ∷ ("authorization_lineage", str (lineage r))
      ∷ ("omission_ledger", arr nil)
      ∷ []

  unfoldable pub empty_fields : QueryResult → Fields
  unfolding empty_context
  empty_fields result =
      let context = empty_context result.request result in
      dict (
        ("disclosure_version", str "0.1")
        ∷ ("request", request_entry result.request)
        ∷ ("result", object (("disposition", str "EMPTY") ∷ ("coverage", str "unknown") ∷ []))
        ∷ ("evidence", arr nil)
        ∷ (
          "lineage",
          object (
              ("authorization_ref", str (lineage result.request))
              ∷ ("evidence_refs", arr nil)
              ∷ []),
        )
        ∷ (
          "context",
          object (context ++ ("fingerprint", str (sha256_json host (object context))) ∷ []),
        )
        ∷ [])

  -- `_empty_projection`, whose request is normalized first
  unfoldable pub empty_projection : QueryResult → Result Fields
  unfolding empty_fields
  empty_projection result = do request ← normalized result.request; ok (empty_fields result)

  unfoldable pub full_fields : QueryResult → Fields → Fields
  full_fields result whole = dict (
      ("disclosure_version", str "0.1")
      ∷ ("request", request_entry result.request)
      ∷ ("result", get "result" whole)
      ∷ ("evidence", get "evidence" whole)
      ∷ ("lineage", get "lineage" whole)
      ∷ ("context", get "context" whole)
      ∷ [])

  unfoldable pub full_projection : QueryResult → Result Fields
  full_projection result = do whole ← structured host result; ok (full_fields result whole)

  -- `project_query_result`
  unfoldable pub project_query_result : QueryResult → Bool → Result Fields
  unfolding empty_projection full_projection no_items
  project_query_result result authorized =
      if not authorized || no_items result.evidence
      then empty_projection result
      else full_projection result

  -- `disclosure_fingerprint`
  unfoldable pub disclosure_fingerprint : Fields → String
  disclosure_fingerprint projection = sha256_json host (obj projection)
