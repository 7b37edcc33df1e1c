-- ===== src/Retrieval/Found.antt =====
-- What `Retriever.search` of pmiri/retrieval.py answers.
use mathlib.Core.List.{Perm}
use ragsistemi.Prelude.{
  ℕ, zero, suc, ◌≤◌, ◌≡◌, refl, ◌∙◌, String, true, List, [], ◌∷◌, ◌++◌, string_eq, nat_eq, contains,
  arith, All, All_map, Any, Option-cases, length, Result, ok, ◌⊎◌, inl, inr, bind-eq-ok,
  split_lines, raise_if_passed, ok_injective,
}
use ragsistemi.Prelude.Int.{ℤ, pos}
use ragsistemi.Prelude.Order.{sorted_set, contains-sorted_set}
use ragsistemi.Host.{Host}
use ragsistemi.Models.{QueryRequest, normalized, normalized-as_dict, normalized_iff}
use ragsistemi.Models.Evidence.{SourceRecord, EvidenceItem, EvidenceSet, named}
use ragsistemi.Context.Grows.{all_declared}
use ragsistemi.Retrieval
use ragsistemi.Retrieval.{
  Unicode, tokens, scored, search_evidence, sort_items, take, slice_to, group_names, is_empty_list,
  RetrievedSpan,
}
use ragsistemi.Retrieval.Ranked.{IsRanked, sort_items-IsRanked, sort_items-perm}
use ragsistemi.Retrieval.Kept.{All-sort_items, Any-sort_items}
use ragsistemi.Retrieval.Common.{Shares}
use ragsistemi.Retrieval.Origin.{IsMatch, IsMatched, IsCovered, scored-IsMatched, scored-IsCovered}

-- The first `n` of a list, with what they leave.
record IsHead (n : ℕ) (items whole : List EvidenceItem) : Type 0 where
  dropped : List EvidenceItem
  split : items ++ dropped ≡ whole
  few : length items ≤ n
  full : (dropped ≡ []) ⊎ (length items ≡ n)

full_suc :
    {dropped : List EvidenceItem} {m n : ℕ}
    → (dropped ≡ []) ⊎ (m ≡ n)
    → (dropped ≡ []) ⊎ (suc m ≡ suc n)
full_suc (inl none_) = inl none_
full_suc (inr all) = inr (omega arith)

take-IsHead : (n : ℕ) (whole : List EvidenceItem) → IsHead n (take n whole) whole
unfolding take
take-IsHead zero whole = record {
  dropped = whole;
  split = refl;
  few = omega arith;
  full = inr (omega arith);
}
take-IsHead (suc n) [] = record { dropped = []; split = refl; few = omega arith; full = inl refl }
take-IsHead (suc n) (x ∷ xs) =
    let h = take-IsHead n xs in
    record {
      dropped = h.dropped;
      split = cc (h.split);
      few = omega (arith, h.few);
      full = full_suc h.full;
    }

slice_to-IsHead :
    (i : ℤ) (n : ℕ) (whole : List EvidenceItem) → i ≡ pos n → IsHead n (slice_to i whole) whole
unfolding slice_to
slice_to-IsHead i n whole e = rw e (take-IsHead n whole)

all_declared_of :
    (names : List String) (items : List EvidenceItem)
    → ((g : String) → contains (group_names items) g ≡ true → contains names g ≡ true)
    → all_declared names items ≡ true
unfolding all_declared group_names
all_declared_of names [] h = refl
all_declared_of names (i ∷ items) h = elim (Option-cases (named i.conflict_group)) [
  | inl absent ↦ rw absent (all_declared_of names items (λ g k. h g (rw (absent, group_names) k)))
  | inr (g, given) ↦ rw given (
      let here : contains names g ≡ true = h g (rw (given, group_names) (ground arith)) in
      let later =
        all_declared_of names items (λ g' k. h g' (rw (given, group_names) (ground (arith, k)))) in
      ground (arith, here, later))
]

-- The groups that `search` declares are those that its items name.
pub all_declared-group_names :
    (items : List EvidenceItem) → all_declared (sorted_set (group_names items)) items ≡ true
all_declared-group_names items =
    all_declared_of (sorted_set (group_names items)) items
      (λ g k. contains-sorted_set g (group_names items) ∙ k)

module _ (host : Host) (unicode : Unicode)
    (list_sources : String → Result (List SourceRecord)) where
  -- An answer: the first of the candidates in the order of their ranks, and never more than were
  -- asked for, nor fewer while there are candidates left.
  pub record IsFound (r : QueryRequest) (e : EvidenceSet) : Type 0 where
    pub sources : List SourceRecord
    pub listed : list_sources r.project_constraint ≡ ok sources
    pub limit : ℕ
    pub limit_is : r.max_results ≡ pos limit
    pub dropped : List EvidenceItem
    pub ranked : IsRanked (e.items ++ dropped)
    pub candidates :
        Perm (e.items ++ dropped) (scored host unicode (tokens host unicode r.query) sources)
    pub matched :
        All
          (λ i. Any (IsMatched host unicode (tokens host unicode r.query) i) sources)
          (e.items ++ dropped)
    pub covered :
        All (IsCovered host unicode (tokens host unicode r.query) (e.items ++ dropped)) sources
    pub few : length e.items ≤ limit
    pub full : (dropped ≡ []) ⊎ (length e.items ≡ limit)
    pub declared : all_declared e.conflict_groups e.items ≡ true
    pub of_request : e.request ≡ r

  -- ordering the candidates keeps what they match
  sorted-IsCovered :
      (query : List String) (sources : List SourceRecord)
      → All (IsCovered host unicode query (sort_items (scored host unicode query sources))) sources
  sorted-IsCovered query sources =
      All_map {Q = IsCovered host unicode query (sort_items (scored host unicode query sources))}
        (λ (s : SourceRecord) c.
          All_map
            {Q = λ line.
              Shares query (tokens host unicode line)
              → Any (IsMatch host unicode query s line)
                  (sort_items (scored host unicode query sources))}
            (λ (line : String) f w. Any-sort_items (IsMatch host unicode query s line) _ (f w))
            (split_lines s.content) c)
        sources (scored-IsCovered host unicode query sources)

  IsFound-evidence_of :
      (r : QueryRequest) (sources : List SourceRecord) (items : List EvidenceItem) (n : ℕ)
      → list_sources r.project_constraint ≡ ok sources
      → r.max_results ≡ pos n
      → IsHead n items (sort_items (scored host unicode (tokens host unicode r.query) sources))
      → IsFound r (Retrieval.evidence_of host unicode r sources items)
  unfolding Retrieval.evidence_of
  IsFound-evidence_of r sources items n listed limit_is head = record {
    sources = sources;
    listed = listed;
    limit = n;
    limit_is = limit_is;
    dropped = head.dropped;
    ranked = rw head.split (sort_items-IsRanked _);
    candidates = rw head.split (sort_items-perm _);
    matched = rw head.split (All-sort_items _ _ (scored-IsMatched host unicode _ sources));
    covered = rw head.split (sorted-IsCovered _ sources);
    few = head.few;
    full = head.full;
    declared = all_declared-group_names items;
    of_request = refl;
  }

  -- What `search` returns is found: the store has listed the sources of the project; the items
  -- are, in the order of their ranks, as many as were asked for or all there are; each is of a line
  -- of one of those sources that has a token of the query among its own, its score the number of
  -- the different tokens that both have; every line that shares a token with the query has an item,
  -- returned or dropped for the number asked for; and every conflict group that an item names is
  -- declared.
  pub search-IsFound :
      (r : QueryRequest) (e : EvidenceSet)
      → search_evidence host unicode list_sources r ≡ ok e
      → IsFound r e
  unfolding search_evidence
  search-IsFound r e h =
      let (j, fields, h1) = bind-eq-ok (normalized r) _ h in
      let (there, h2) = raise_if_passed (is_empty_list (tokens host unicode r.query)) _ _ h1 in
      let (sources, listed, h3) = bind-eq-ok (list_sources r.project_constraint) _ h2 in
      let formed = (normalized_iff r).0 (rw (← normalized-as_dict r j fields) fields) in
      let (n, limit_is, low, high) = formed.in_bounds in
      rw (← ok_injective h3) (
        IsFound-evidence_of r sources _ n listed limit_is
          (slice_to-IsHead r.max_results n _ limit_is))
