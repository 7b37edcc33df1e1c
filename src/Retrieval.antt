-- ===== src/Retrieval.antt =====
-- pmiri/retrieval.py. What `\w` matches and `str.casefold` come from the Unicode tables, which are
-- parameters; the store is what its `list_sources` answers.
pub mod Ranked
pub mod Found
mod Kept
pub mod Common
pub mod Origin
use Prim.Native.Char.{Char, code}
use Prim.Native.String
use ragsistemi.Prelude.{
  ℕ, zero, suc, ◌+◌, ◌-◌, String, Bool, true, false, not, ◌&&◌, ◌||◌, List, [], ◌∷◌, ◌++◌, Option,
  none, some, if◌then◌else◌, ◌==◌, string_eq, nat_eq, contains, concat, take_chars, truthy, strip,
  lstrip, rstrip, partition, split_at, split_lines, length, Result, ok, err, ◌>>=◌, ◌>>◌, raise_if,
  value_error,
}
use ragsistemi.Prelude.Int.{ℤ, pos, negsuc, int_eq, lt_int}
use ragsistemi.Prelude.Order.{lt_text, sorted_set}
use ragsistemi.Prelude.Dict.{Dict, lookup, insert}
use ragsistemi.Host.{Host}
use ragsistemi.Canonical.{sha256_json}
use ragsistemi.Canonical.Serial.{Json, str, num, object}
use ragsistemi.Models.{QueryRequest, normalized}
use ragsistemi.Models.Evidence.{
  SourceRecord, EvidenceItem, EvidenceSet, named, Coverage, complete, unknown,
}

pub record Unicode : Type 0 where
  -- `\w` of `re` with UNICODE
  pub is_word : Char → Bool
  -- `str.casefold`
  pub casefold : String → String

-- the maximal runs of the characters that `p` tells
push_run : Bool → Char → List String → List String
push_run true c (w ∷ ws) = String.◌∷◌ c w ∷ ws
push_run b c ws = String.◌∷◌ c String.[] ∷ ws

-- whether a text starts with a character that `p` tells
starts : (Char → Bool) → String → Bool
starts p String.[] = false
starts p (String.◌∷◌ c s) = p c

runs : (Char → Bool) → String → List String
unfolding push_run starts
runs p String.[] = []
runs p (String.◌∷◌ c s) = let rest = runs p s in if p c then push_run (starts p s) c rest else rest

-- `len(set(query) & set(line))`
pub common_count : List String → List String → ℕ
common_count [] found = 0
common_count (q ∷ query) found =
    let rest = common_count query found in if contains found q then suc rest else rest

pub record RetrievedSpan : Type 0 where
  pub start_line : ℕ
  pub end_line : ℕ
  pub text : String
  pub score : ℕ

is_fence : String → Bool
unfolding strip
is_fence line = strip line == "---"

is_quote : Char → Bool
unfolding nat_eq
is_quote c = code c == b'"' || code c == b'\''

-- `result[key.strip()] = value.strip().strip('"\'')`, where both are not blank
put_field : Option (String × String) → Dict String → Dict String
unfolding strip lstrip rstrip is_quote insert
put_field none result = result
put_field (some (key, value)) result =
    if truthy (strip key) && truthy (strip value)
    then insert (strip key) (lstrip is_quote (rstrip is_quote (strip value))) result
    else result

frontmatter_lines : List String → Dict String → Dict String
unfolding is_fence put_field partition
frontmatter_lines [] result = result
frontmatter_lines (line ∷ lines) result =
    let rest = frontmatter_lines lines (put_field (partition b':' line) result) in
    if is_fence line then result else rest

frontmatter_of : List String → Dict String
unfolding is_fence frontmatter_lines
frontmatter_of [] = []
frontmatter_of (first ∷ lines) = if is_fence first then frontmatter_lines lines [] else []

-- `_frontmatter`
unfoldable pub frontmatter : String → Dict String
unfolding frontmatter_of split_at
frontmatter content = frontmatter_of (split_at 10 content)

-- the comparison of tuples of texts
unfoldable pub lt_texts : List String → List String → Bool
lt_texts [] [] = false
lt_texts [] (t ∷ ts) = true
lt_texts (s ∷ ss) [] = false
lt_texts (s ∷ ss) (t ∷ ts) = let rest = lt_texts ss ts in if s == t then rest else lt_text s t

abbrev pub sort_key : EvidenceItem → List String
sort_key i = i.source_id ∷ i.version_id ∷ i.anchor ∷ []

-- `key(i) < key(j)`, by the negated score first
unfoldable pub is_before : EvidenceItem → EvidenceItem → Bool
is_before i j =
    if i.score == j.score then lt_texts (sort_key i) (sort_key j) else lt_int j.score i.score

insert_item : EvidenceItem → List EvidenceItem → List EvidenceItem
insert_item i [] = i ∷ []
insert_item i (j ∷ items) =
    let rest = insert_item i items in if is_before j i then j ∷ rest else i ∷ j ∷ items

-- `scored.sort(key=...)`, which is stable
unfoldable pub sort_items : List EvidenceItem → List EvidenceItem
unfolding insert_item is_before
sort_items [] = []
sort_items (i ∷ items) = insert_item i (sort_items items)

unfoldable pub take {ℓ} : {A : Type ℓ} → ℕ → List A → List A
take zero xs = []
take (suc n) [] = []
take (suc n) (x ∷ xs) = x ∷ take n xs

-- `xs[:i]`
unfoldable pub slice_to {ℓ} : {A : Type ℓ} → ℤ → List A → List A
unfolding take
slice_to (pos n) xs = take n xs
slice_to (negsuc n) xs = take (length xs - (n + 1)) xs

-- the names of the conflict groups, in the order of the items
unfoldable pub group_names : List EvidenceItem → List String
group_names [] = []
group_names (i ∷ items) = elim (named i.conflict_group) [
  | none ↦ group_names items
  | some g ↦ g ∷ group_names items
]

-- `Coverage.COMPLETE if sources else Coverage.UNKNOWN`
unfoldable pub coverage_of : List SourceRecord → Coverage
coverage_of [] = unknown
coverage_of (s ∷ sources) = complete

abbrev pub is_empty_list : List String → Bool
is_empty_list [] = true
is_empty_list (t ∷ ts) = false

module _ (host : Host) (unicode : Unicode) where
  open unicode use {is_word, casefold}

  -- `[\w'-]`
  is_token_char : Char → Bool
  unfolding nat_eq
  is_token_char c = is_word c || code c == b'\'' || code c == b'-'

  casefold_all : List String → List String
  casefold_all [] = []
  casefold_all (w ∷ ws) = casefold w ∷ casefold_all ws

  -- `tokens`
  unfoldable pub tokens : String → List String
  unfolding casefold_all runs is_token_char
  tokens value = casefold_all (runs is_token_char value)

  spans_from : ℕ → List String → List String → List RetrievedSpan
  unfolding common_count tokens strip
  spans_from number query [] = []
  spans_from number query (line ∷ lines) =
      let rest = spans_from (number + 1) query lines in
      let score = common_count query (tokens line) in
      if score == 0
      then rest
      else record { start_line = number; end_line = number; text = strip line; score = score }
        ∷ rest

  -- `matching_spans`; `set(query_tokens)` is a list without repetition
  unfoldable pub matching_spans : String → List String → List RetrievedSpan
  unfolding spans_from sorted_set split_lines
  matching_spans content query_tokens = spans_from 1 (sorted_set query_tokens) (split_lines content)

  anchor_hash : SourceRecord → RetrievedSpan → String
  anchor_hash source span = sha256_json host (
      object (
        ("version_id", str source.version_id)
        ∷ ("start_line", num (pos span.start_line))
        ∷ ("end_line", num (pos span.end_line))
        ∷ ("text", str span.text)
        ∷ []))

  item_hash : SourceRecord → RetrievedSpan → String
  unfolding anchor_hash
  item_hash source span = sha256_json host (
      object (
        ("source_id", str source.source_id)
        ∷ ("version_id", str source.version_id)
        ∷ ("anchor", str (anchor_hash source span))
        ∷ ("text", str span.text)
        ∷ []))

  item_of : SourceRecord → RetrievedSpan → EvidenceItem
  unfolding item_hash anchor_hash concat take_chars frontmatter lookup
  item_of source span = record {
    evidence_ref = concat ("ev_" ∷ take_chars 32 (item_hash source span) ∷ []);
    source_id = source.source_id;
    version_id = source.version_id;
    project_id = source.project_id;
    anchor = concat ("anchor_" ∷ anchor_hash source span ∷ []);
    text = span.text;
    fingerprint = item_hash source span;
    score = pos span.score;
    conflict_group = lookup "conflict_group" (frontmatter source.content);
  }

  items_of : SourceRecord → List RetrievedSpan → List EvidenceItem
  unfolding item_of
  items_of source [] = []
  items_of source (span ∷ spans) = item_of source span ∷ items_of source spans

  -- the two loops over sources and spans
  unfoldable pub scored : List String → List SourceRecord → List EvidenceItem
  unfolding items_of matching_spans
  scored query [] = []
  scored query (source ∷ sources) =
      items_of source (matching_spans source.content query) ++ scored query sources

  lineage_of : QueryRequest → String
  unfolding concat take_chars
  lineage_of r = concat (
      "auth_"
      ∷ take_chars 32 (
          sha256_json host (
            object (
              ("project", str r.project_constraint)
              ∷ ("purpose", str r.purpose)
              ∷ ("request_id", str r.request_id)
              ∷ [])))
      ∷ [])

  pub evidence_of : QueryRequest → List SourceRecord → List EvidenceItem → EvidenceSet
  unfolding lineage_of coverage_of
  evidence_of r sources items = record {
    request = r;
    items = items;
    coverage = coverage_of sources;
    authorization_lineage = lineage_of r;
    conflict_groups = sorted_set (group_names items);
  }

  -- `Retriever.search`
  unfoldable pub search_evidence :
      (String → Result (List SourceRecord)) → QueryRequest → Result EvidenceSet
  unfolding tokens scored slice_to sort_items evidence_of
  search_evidence list_sources r = do
    fields ← normalized r
    raise_if (is_empty_list (tokens r.query)) (value_error "query_has_no_search_tokens")
    sources ← list_sources r.project_constraint
    ok (
        evidence_of r sources
          (slice_to r.max_results (sort_items (scored (tokens r.query) sources))))
