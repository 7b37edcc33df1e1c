-- ===== src/Retrieval/Kept.antt =====
-- What holds of the items of pmiri/retrieval.py holds of them sorted.
use ragsistemi.Prelude.{List, [], ◌∷◌, ◌++◌, string_eq, nat_eq, All, Any, Bool-cases, inl, inr}
use ragsistemi.Models.Evidence.{EvidenceItem}
use ragsistemi.Retrieval
use ragsistemi.Retrieval.{
  Unicode, tokens, scored, sort_items, is_before, RetrievedSpan, matching_spans,
}

module _ (P : EvidenceItem → Type 0) where
  pub All-append : (xs ys : List EvidenceItem) → All P xs → All P ys → All P (xs ++ ys)
  All-append [] ys h k = k
  All-append (x ∷ xs) ys h k = (h.0, All-append xs ys h.1 k)

  All-insert_item :
      (i : EvidenceItem) (items : List EvidenceItem)
      → P i
      → All P items
      → All P (Retrieval.insert_item i items)
  unfolding Retrieval.insert_item
  All-insert_item i [] p h = (p, tt)
  All-insert_item i (j ∷ items) p h = elim (Bool-cases (is_before j i)) [
    | inl first ↦ rw first (h.0, All-insert_item i items p h.1)
    | inr last ↦ rw last (p, h)
  ]

  pub All-sort_items : (items : List EvidenceItem) → All P items → All P (sort_items items)
  unfolding sort_items
  All-sort_items [] h = tt
  All-sort_items (i ∷ items) h = All-insert_item i (sort_items items) h.0 (All-sort_items items h.1)

  pub Any-append_left : (xs ys : List EvidenceItem) → Any P xs → Any P (xs ++ ys)
  Any-append_left [] ys h = cc
  Any-append_left (x ∷ xs) ys (inl p) = inl p
  Any-append_left (x ∷ xs) ys (inr q) = inr (Any-append_left xs ys q)

  pub Any-append_right : (xs ys : List EvidenceItem) → Any P ys → Any P (xs ++ ys)
  Any-append_right [] ys h = h
  Any-append_right (x ∷ xs) ys h = inr (Any-append_right xs ys h)

  Any-insert_new :
      (i : EvidenceItem) (items : List EvidenceItem) → P i → Any P (Retrieval.insert_item i items)
  unfolding Retrieval.insert_item
  Any-insert_new i [] p = inl p
  Any-insert_new i (j ∷ items) p = elim (Bool-cases (is_before j i)) [
    | inl first ↦ rw first (inr (Any-insert_new i items p))
    | inr last ↦ rw last (inl p)
  ]

  Any-insert_item :
      (i : EvidenceItem) (items : List EvidenceItem)
      → Any P items
      → Any P (Retrieval.insert_item i items)
  unfolding Retrieval.insert_item
  Any-insert_item i [] h = cc
  Any-insert_item i (j ∷ items) h = elim (Bool-cases (is_before j i)) [
    | inl first ↦ rw first (elim h [ inl p ↦ inl p | inr q ↦ inr (Any-insert_item i items q) ])
    | inr last ↦ rw last (inr h)
  ]

  pub Any-sort_items : (items : List EvidenceItem) → Any P items → Any P (sort_items items)
  unfolding sort_items
  Any-sort_items [] h = h
  Any-sort_items (i ∷ items) (inl p) = Any-insert_new i (sort_items items) p
  Any-sort_items (i ∷ items) (inr q) = Any-insert_item i (sort_items items) (Any-sort_items items q)
