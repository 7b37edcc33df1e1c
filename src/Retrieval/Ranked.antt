-- ===== src/Retrieval/Ranked.antt =====
-- The order and the origin of what pmiri/retrieval.py finds.
use mathlib.Core.List.{Perm}
use mathlib.Core.List.Perm
use ragsistemi.Prelude.{
  ◌≡◌, refl, String, true, false, List, [], ◌∷◌, string_eq, arith, All, Bool-cases, inl, inr,
}
use ragsistemi.Prelude.Int.{ℤ, pos, negsuc, int_eq, lt_int}
use ragsistemi.Prelude.Order.{lt_text_total, lt_text_negtrans, lt_text_asym}
use ragsistemi.Models.Evidence.{EvidenceItem}
use ragsistemi.Retrieval
use ragsistemi.Retrieval.{lt_texts, is_before, sort_key, sort_items, take}

pub lt_texts_negtrans :
    (a b c : List String) → lt_texts b a ≡ false → lt_texts c b ≡ false → lt_texts c a ≡ false
unfolding lt_texts
lt_texts_negtrans [] [] [] h k = refl
lt_texts_negtrans [] [] (z ∷ c) h k = refl
lt_texts_negtrans [] (y ∷ b) [] h k = cc
lt_texts_negtrans [] (y ∷ b) (z ∷ c) h k = refl
lt_texts_negtrans (x ∷ a) [] c h k = cc
lt_texts_negtrans (x ∷ a) (y ∷ b) [] h k = cc
lt_texts_negtrans (x ∷ a) (y ∷ b) (z ∷ c) h k =
    ground
      (arith, lt_texts_negtrans a b c, lt_text_negtrans x y z, lt_text_total x y, lt_text_total y x)

lt_int_negtrans : (i j k : ℤ) → lt_int j i ≡ false → lt_int k j ≡ false → lt_int k i ≡ false
unfolding lt_int
lt_int_negtrans (pos a) (pos b) (pos c) h k = ground arith
lt_int_negtrans (pos a) (pos b) (negsuc c) h k = cc
lt_int_negtrans (pos a) (negsuc b) k' h k = cc
lt_int_negtrans (negsuc a) (pos b) (pos c) h k = refl
lt_int_negtrans (negsuc a) (pos b) (negsuc c) h k = cc
lt_int_negtrans (negsuc a) (negsuc b) (pos c) h k = refl
lt_int_negtrans (negsuc a) (negsuc b) (negsuc c) h k = ground arith

lt_int_total : (i j : ℤ) → lt_int i j ≡ false → lt_int j i ≡ false → i ≡ j
unfolding lt_int
lt_int_total (pos a) (pos b) h k = ground arith
lt_int_total (pos a) (negsuc b) h k = cc
lt_int_total (negsuc a) (pos b) h k = cc
lt_int_total (negsuc a) (negsuc b) h k = ground arith

lt_int_asym : (i j : ℤ) → lt_int i j ≡ true → lt_int j i ≡ false
unfolding lt_int
lt_int_asym (pos a) (pos b) h = ground arith
lt_int_asym (pos a) (negsuc b) h = cc
lt_int_asym (negsuc a) (pos b) h = refl
lt_int_asym (negsuc a) (negsuc b) h = ground arith

pub lt_texts_asym : (a b : List String) → lt_texts a b ≡ true → lt_texts b a ≡ false
unfolding lt_texts
lt_texts_asym [] [] h = cc
lt_texts_asym [] (y ∷ b) h = refl
lt_texts_asym (x ∷ a) [] h = cc
lt_texts_asym (x ∷ a) (y ∷ b) h = ground (arith, lt_texts_asym a b, lt_text_asym x y)

is_before_asym : (i j : EvidenceItem) → is_before i j ≡ true → is_before j i ≡ false
unfolding is_before
is_before_asym i j h =
    ground (arith, lt_texts_asym (sort_key i) (sort_key j), lt_int_asym j.score i.score)

is_before_negtrans :
    (i j k : EvidenceItem) → is_before j i ≡ false → is_before k j ≡ false → is_before k i ≡ false
unfolding is_before
is_before_negtrans i j k h l = ground (
  arith,
  lt_texts_negtrans (sort_key i) (sort_key j) (sort_key k),
  lt_int_negtrans k.score j.score i.score,
  lt_int_total i.score j.score,
  lt_int_total j.score k.score,
)

-- An item of the list is not before `i`.
abbrev pub NoneBefore : EvidenceItem → List EvidenceItem → Type 0
NoneBefore i items = All (λ (j : EvidenceItem). is_before j i ≡ false) items

abbrev pub IsRanked : List EvidenceItem → Type 0
IsRanked [] = Unit
IsRanked (i ∷ items) = NoneBefore i items × IsRanked items

NoneBefore-weaken :
    (i j : EvidenceItem) (items : List EvidenceItem)
    → is_before j i ≡ false
    → NoneBefore j items
    → NoneBefore i items
NoneBefore-weaken i j [] h a = tt
NoneBefore-weaken i j (k ∷ items) h a =
    (is_before_negtrans i j k h a.0, NoneBefore-weaken i j items h a.1)

NoneBefore-insert_item :
    (j i : EvidenceItem) (items : List EvidenceItem)
    → is_before i j ≡ false
    → NoneBefore j items
    → NoneBefore j (Retrieval.insert_item i items)
unfolding Retrieval.insert_item
NoneBefore-insert_item j i [] h a = (h, tt)
NoneBefore-insert_item j i (k ∷ items) h a = elim (Bool-cases (is_before k i)) [
  | inl first ↦ rw first (a.0, NoneBefore-insert_item j i items h a.1)
  | inr last ↦ rw last (h, a)
]

insert_item-IsRanked :
    (i : EvidenceItem) (items : List EvidenceItem)
    → IsRanked items
    → IsRanked (Retrieval.insert_item i items)
unfolding Retrieval.insert_item
insert_item-IsRanked i [] s = (tt, tt)
insert_item-IsRanked i (k ∷ items) s = elim (Bool-cases (is_before k i)) [
  | inl first ↦ rw first (
    NoneBefore-insert_item k i items (is_before_asym k i first) s.0,
    insert_item-IsRanked i items s.1,
  )
  | inr last ↦ rw last ((last, NoneBefore-weaken i k items last s.0), s)
]

pub sort_items-IsRanked : (items : List EvidenceItem) → IsRanked (sort_items items)
unfolding sort_items
sort_items-IsRanked [] = tt
sort_items-IsRanked (i ∷ items) =
    insert_item-IsRanked i (sort_items items) (sort_items-IsRanked items)

insert_item-perm :
    (i : EvidenceItem) (items : List EvidenceItem)
    → Perm (Retrieval.insert_item i items) (i ∷ items)
unfolding Retrieval.insert_item
insert_item-perm i [] = Perm.rfl
insert_item-perm i (k ∷ items) = elim (Bool-cases (is_before k i)) [
  | inl first ↦ rw first (Perm.trans (Perm.cons k (insert_item-perm i items)) (Perm.swap i k items))
  | inr last ↦ rw last Perm.rfl
]

pub sort_items-perm : (items : List EvidenceItem) → Perm (sort_items items) items
unfolding sort_items
sort_items-perm [] = Perm.rfl
sort_items-perm (i ∷ items) =
    Perm.trans (insert_item-perm i (sort_items items)) (Perm.cons i (sort_items-perm items))
