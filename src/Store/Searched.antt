-- ===== src/Store/Searched.antt =====
-- A search of pmiri/retrieval.py over the store of pmiri/store.py.
use ragsistemi.Prelude.{
  String, false, ◌≡◌, refl, List, [], ◌∷◌, ◌++◌, All, All_map, Any, inl, inr, some, string_eq, ok,
}
use ragsistemi.Prelude.Dict.{Dict}
use ragsistemi.Host.{Host}
use ragsistemi.Models.{QueryRequest, normalized}
use ragsistemi.Models.Evidence.{SourceRecord, EvidenceItem, EvidenceSet}
use ragsistemi.Canonical.Serial.{Json}
use ragsistemi.Retrieval.{
  Unicode, tokens, is_empty_list, slice_to, sort_items, scored, lt_texts, search_evidence,
}
use ragsistemi.Retrieval.Origin.{IsMatched}
use ragsistemi.Retrieval.Found.{search-IsFound}
use ragsistemi.Retrieval
use ragsistemi.Store.{Blob, Store, list_sources}
use ragsistemi.Store.Sound.{IsSound, list_sources-returns}
use ragsistemi.Store.Listed.{IsAsked, IsStored, list_sources-IsStored}

module _ (host : Host) where
  projects :
      (blobs : Dict Blob) (p : String) (records : List SourceRecord)
      → All (λ (r : SourceRecord). IsStored host blobs r × IsAsked (some p) r.project_id) records
      → All (λ (r : SourceRecord). r.project_id ≡ p) records
  projects blobs p [] h = tt
  projects blobs p (r ∷ records) h = (h.0.1, projects blobs p records h.1)

  module _ (unicode : Unicode) where
    -- An item of a line of a source of the project that shares a token with the query.
    abbrev pub IsHit : QueryRequest → List SourceRecord → EvidenceItem → Type 0
    IsHit r records i =
        Any
          (λ (source : SourceRecord).
            (source.project_id ≡ r.project_constraint)
            × IsMatched host unicode (tokens host unicode r.query) i source)
          records

    within :
        (r : QueryRequest) (records : List SourceRecord) (i : EvidenceItem)
        → All (λ (s : SourceRecord). s.project_id ≡ r.project_constraint) records
        → Any (IsMatched host unicode (tokens host unicode r.query) i) records
        → IsHit r records i
    within r [] i h w = w
    within r (s ∷ records) i h (inl here) = inl (h.0, here)
    within r (s ∷ records) i h (inr later) = inr (within r records i h.1 later)

    first_items :
        (P : EvidenceItem → Type 0) (xs ys : List EvidenceItem) → All P (xs ++ ys) → All P xs
    first_items P [] ys h = tt
    first_items P (x ∷ xs) ys h = (h.0, first_items P xs ys h.1)

    -- A search over the current sources of a sound store returns, for every request that is
    -- normalized and has a token in its query; the store has listed sources for it, and each item
    -- is of a line of one of them, a source of the request's project, that has a token of the query
    -- among its own, the item's score being how many of the different tokens of the query it has.
    pub search-stored :
        (s : Store) (r : QueryRequest) (fields : Json)
        → IsSound host s
        → normalized r ≡ ok fields
        → is_empty_list (tokens host unicode r.query) ≡ false
        → (e : EvidenceSet) × (records : List SourceRecord) × (search_evidence host unicode
              (λ p. list_sources host s (some p) false)
              r
            ≡ ok e)
          × (list_sources host s (some r.project_constraint) false ≡ ok records)
          × All (IsHit r records) e.items
    unfolding search_evidence
    search-stored s r fields w formed some_token =
        let (records, listed) = list_sources-returns host s (some r.project_constraint) false w in
        let e = Retrieval.evidence_of host unicode r records (
          slice_to r.max_results
            (sort_items (scored host unicode (tokens host unicode r.query) records))) in
        let found : search_evidence host unicode (λ p. list_sources host s (some p) false) r
            ≡ ok e =
          rw (formed, some_token, listed) refl in
        let f = search-IsFound host unicode (λ p. list_sources host s (some p) false) r e found in
        let own =
          projects s.blobs r.project_constraint f.sources
            (list_sources-IsStored host s (some r.project_constraint) false f.sources f.listed) in
        (
          e,
          f.sources,
          found,
          f.listed,
          first_items (IsHit r f.sources) e.items f.dropped (
              All_map {Q = IsHit r f.sources} (λ (i : EvidenceItem) m. within r f.sources i own m) _
                f.matched),
        )
