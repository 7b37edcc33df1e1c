-- ===== src/Retrieval/Origin.antt =====
-- What the items of pmiri/retrieval.py match, told by the lines of the sources.
use ragsistemi.Prelude.{
  ℕ, ◌+◌, ◌≤◌, ◌≡◌, refl, String, true, List, [], ◌∷◌, ◌++◌, ◌==◌, nat_eq, arith, All, All_map, Any,
  Any-map, Bool-cases, inl, inr, strip, split_lines,
}
use ragsistemi.Prelude.Int.{pos}
use ragsistemi.Prelude.Order.{sorted_set}
use ragsistemi.Host.{Host}
use ragsistemi.Models.Evidence.{SourceRecord, EvidenceItem}
use ragsistemi.Retrieval
use ragsistemi.Retrieval.{common_count, Unicode, tokens, scored, RetrievedSpan, matching_spans}
use ragsistemi.Retrieval.Common.{IsCommon, Shares, common_count-IsCommon, IsCommon-counts}
use ragsistemi.Retrieval.Kept.{All-append, Any-append_left, Any-append_right}

zero_of : (n : ℕ) → (n == 0) ≡ true → n ≡ 0
zero_of n h = ground arith

module _ (host : Host) (unicode : Unicode) (query : List String) where
  -- The span of a line: its text, and how many texts of the query are tokens of it.
  pub record IsSpanOf (line : String) (text : String) (score : ℕ) : Type 0 where
    pub text_is : text ≡ strip line
    pub counted : IsCommon query (tokens host unicode line) score
    pub some_token : 1 ≤ score

  abbrev SpanAt : RetrievedSpan → String → Type 0
  SpanAt span line = IsSpanOf line span.text span.score

  -- An item of a source, from one of its lines.
  pub record IsMatch (source : SourceRecord) (line : String) (i : EvidenceItem) : Type 0 where
    pub project_is : i.project_id ≡ source.project_id
    pub source_is : i.source_id ≡ source.source_id
    pub version_is : i.version_id ≡ source.version_id
    pub score : ℕ
    pub score_is : i.score ≡ pos score
    pub span : IsSpanOf line i.text score

  -- An item of some line of the source.
  abbrev pub IsMatched : EvidenceItem → SourceRecord → Type 0
  IsMatched i source = Any (λ line. IsMatch source line i) (split_lines source.content)

  -- Every line of the source that shares a token with the query has an item among these.
  abbrev pub IsCovered : List EvidenceItem → SourceRecord → Type 0
  IsCovered items source =
      All (λ line. Shares query (tokens host unicode line) → Any (IsMatch source line) items)
        (split_lines source.content)

  spans_from-matched :
      (number : ℕ) (lines : List String)
      → All
          (λ span. Any (SpanAt span) lines)
          (Retrieval.spans_from host unicode number (sorted_set query) lines)
  unfolding Retrieval.spans_from
  spans_from-matched number [] = tt
  spans_from-matched number (line ∷ lines) =
      let rest =
        All_map (λ (span : RetrievedSpan) (w : Any (SpanAt span) lines). inr w) _
          (spans_from-matched (number + 1) lines) in
      elim (Bool-cases (common_count (sorted_set query) (tokens host unicode line) == 0)) [
        | inl none_ ↦ rw none_ rest
        | inr some_ ↦ rw some_ (
          inl (record {
            text_is = refl;
            counted = common_count-IsCommon query (tokens host unicode line);
            some_token = ground (arith, some_);
          }),
          rest,
        )
      ]

  -- A line has the span if the lines after it have, whether it has one itself or not.
  later_span :
      (number : ℕ) (line l : String) (lines : List String)
      → Any
          (λ span. SpanAt span l)
          (Retrieval.spans_from host unicode (number + 1) (sorted_set query) lines)
      → Any
          (λ span. SpanAt span l)
          (Retrieval.spans_from host unicode number (sorted_set query) (line ∷ lines))
  unfolding Retrieval.spans_from
  later_span number line l lines w =
      elim (Bool-cases (common_count (sorted_set query) (tokens host unicode line) == 0)) [
        | inl none_ ↦ rw none_ w
        | inr some_ ↦ rw some_ (inr w)
      ]

  own_span :
      (number : ℕ) (line : String) (lines : List String)
      → Shares query (tokens host unicode line)
      → Any
          (λ span. SpanAt span line)
          (Retrieval.spans_from host unicode number (sorted_set query) (line ∷ lines))
  unfolding Retrieval.spans_from
  own_span number line lines w =
      let score = common_count (sorted_set query) (tokens host unicode line) in
      let counted = common_count-IsCommon query (tokens host unicode line) in
      let positive = IsCommon-counts query _ score counted w in
      elim (Bool-cases (score == 0)) [
        | inl none_ ↦ absurd (omega (arith, zero_of score none_, positive))
        | inr some_ ↦
            rw some_ (inl (record { text_is = refl; counted = counted; some_token = positive }))
      ]

  spans_from-covered :
      (number : ℕ) (lines : List String)
      → All
          (λ line.
            Shares query (tokens host unicode line)
            → Any
                (λ span. SpanAt span line)
                (Retrieval.spans_from host unicode number (sorted_set query) lines))
          lines
  spans_from-covered number [] = tt
  spans_from-covered number (line ∷ lines) = (
    own_span number line lines,
    All_map
        {Q = λ l.
          Shares query (tokens host unicode l)
          → Any (λ span. SpanAt span l)
              (Retrieval.spans_from host unicode number (sorted_set query) (line ∷ lines))}
        (λ (l : String) f w. later_span number line l lines (f w)) lines
        (spans_from-covered (number + 1) lines),
  )

  item_of-IsMatch :
      (source : SourceRecord) (span : RetrievedSpan) (line : String)
      → SpanAt span line
      → IsMatch source line (Retrieval.item_of host unicode source span)
  unfolding Retrieval.item_of
  item_of-IsMatch source span line w = record {
    project_is = refl;
    source_is = refl;
    version_is = refl;
    score = span.score;
    score_is = refl;
    span = w;
  }

  items_of-IsMatched :
      (source : SourceRecord) (spans : List RetrievedSpan)
      → All (λ span. Any (SpanAt span) (split_lines source.content)) spans
      → All (λ i. IsMatched i source) (Retrieval.items_of host unicode source spans)
  unfolding Retrieval.items_of
  items_of-IsMatched source [] h = tt
  items_of-IsMatched source (span ∷ spans) h = (
    Any-map (item_of-IsMatch source span) (split_lines source.content) h.0,
    items_of-IsMatched source spans h.1,
  )

  items_of-covered :
      (source : SourceRecord) (line : String) (spans : List RetrievedSpan)
      → Any (λ span. SpanAt span line) spans
      → Any (IsMatch source line) (Retrieval.items_of host unicode source spans)
  unfolding Retrieval.items_of
  items_of-covered source line [] h = cc
  items_of-covered source line (span ∷ spans) (inl here) =
      inl (item_of-IsMatch source span line here)
  items_of-covered source line (span ∷ spans) (inr later) =
      inr (items_of-covered source line spans later)

  -- Every candidate comes from a line of a source.
  pub scored-IsMatched :
      (sources : List SourceRecord)
      → All (λ i. Any (IsMatched i) sources) (scored host unicode query sources)
  unfolding scored matching_spans
  scored-IsMatched [] = tt
  scored-IsMatched (source ∷ sources) =
      All-append (λ i. Any (IsMatched i) (source ∷ sources)) _ _
        (All_map (λ (i : EvidenceItem) (w : IsMatched i source). inl w) _
          (items_of-IsMatched source _ (spans_from-matched 1 (split_lines source.content))))
        (All_map (λ (i : EvidenceItem) (w : Any (IsMatched i) sources). inr w) _
          (scored-IsMatched sources))

  -- Every line that shares a token with the query has a candidate.
  pub scored-IsCovered :
      (sources : List SourceRecord) → All (IsCovered (scored host unicode query sources)) sources
  unfolding scored matching_spans
  scored-IsCovered [] = tt
  scored-IsCovered (source ∷ sources) =
      let items =
        Retrieval.items_of host unicode source (matching_spans host unicode source.content query) in
      let whole = items ++ scored host unicode query sources in
      let own : IsCovered whole source =
        All_map
          {Q = λ line. Shares query (tokens host unicode line) → Any (IsMatch source line) whole}
          (λ (line : String) f w.
            Any-append_left (IsMatch source line) items _ (items_of-covered source line _ (f w)))
          (split_lines source.content) (spans_from-covered 1 (split_lines source.content)) in
      let later : All (IsCovered whole) sources =
        All_map
          (λ (s : SourceRecord) (c : IsCovered (scored host unicode query sources) s).
            All_map
              {Q = λ line. Shares query (tokens host unicode line) → Any (IsMatch s line) whole}
              (λ (line : String) f w. Any-append_right (IsMatch s line) items _ (f w))
              (split_lines s.content) c)
          sources (scored-IsCovered sources) in
      (own, later)
