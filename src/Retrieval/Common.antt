-- ===== src/Retrieval/Common.antt =====
-- What the score of a line counts in pmiri/retrieval.py.
use ragsistemi.Prelude.{
  ℕ, suc, ◌≤◌, ◌≡◌, refl, ap, Bool, true, ◌&&◌, String, List, [], ◌∷◌, string_eq, nat_eq, contains,
  arith, All, Bool-cases, inl, inr, length, if◌then◌else◌,
}
use ragsistemi.Prelude.Order.{
  sorted_set, contains-sorted_set, sorted_set-IsSorted, IsSorted, LtText,
}
use ragsistemi.Retrieval
use ragsistemi.Retrieval.{
  common_count, Unicode, tokens, scored, sort_items, is_before, RetrievedSpan, matching_spans,
}

-- The texts that two lists share, each once, and how many they are.
pub record IsCommon (query found : List String) (n : ℕ) : Type 0 where
  pub common : List String
  pub size : length common ≡ n
  pub once : IsSorted common
  pub members : (t : String) → contains common t ≡ (contains query t && contains found t)

shared : List String → List String → List String
shared [] found = []
shared (q ∷ query) found =
    let rest = shared query found in if contains found q then q ∷ rest else rest

contains-shared :
    (query found : List String) (t : String)
    → contains (shared query found) t ≡ (contains query t && contains found t)
unfolding shared
contains-shared [] found t = refl
contains-shared (q ∷ query) found t = ground (arith, contains-shared query found t)

All-shared :
    (x : String) (query found : List String)
    → All (LtText x) query
    → All (LtText x) (shared query found)
unfolding shared
All-shared x [] found h = tt
All-shared x (q ∷ query) found h = elim (Bool-cases (contains found q)) [
  | inl y ↦ rw y (h.0, All-shared x query found h.1)
  | inr n ↦ rw n (All-shared x query found h.1)
]

shared-IsSorted : (query found : List String) → IsSorted query → IsSorted (shared query found)
unfolding shared
shared-IsSorted [] found h = tt
shared-IsSorted (q ∷ query) found h = elim (Bool-cases (contains found q)) [
  | inl y ↦ rw y (All-shared q query found h.0, shared-IsSorted query found h.1)
  | inr n ↦ rw n (shared-IsSorted query found h.1)
]

length-shared : (query found : List String) → length (shared query found) ≡ common_count query found
unfolding shared Retrieval.common_count
length-shared [] found = refl
length-shared (q ∷ query) found = elim (Bool-cases (contains found q)) [
  | inl y ↦ rw y (ap suc (length-shared query found))
  | inr n ↦ rw n (length-shared query found)
]

-- The count of the tokens of the query, as a set, is that of the texts that both lists have.
pub common_count-IsCommon :
    (query found : List String) → IsCommon query found (common_count (sorted_set query) found)
common_count-IsCommon query found = record {
  common = shared (sorted_set query) found;
  size = length-shared (sorted_set query) found;
  once = shared-IsSorted (sorted_set query) found (sorted_set-IsSorted query);
  members = λ t. rw (contains-shared (sorted_set query) found t, contains-sorted_set t query) refl;
}

-- Both lists have the text.
pub record Shares (query found : List String) : Type 0 where
  pub token : String
  pub asked : contains query token ≡ true
  pub there : contains found token ≡ true

has_one : (xs : List String) (t : String) → contains xs t ≡ true → 1 ≤ length xs
has_one [] t h = cc
has_one (x ∷ xs) t h = omega arith

-- Two lists that share a text have a count, and two that have a count share a text.
pub IsCommon-counts :
    (query found : List String) (n : ℕ) → IsCommon query found n → Shares query found → 1 ≤ n
IsCommon-counts query found n c w =
    rw (← c.size) (has_one c.common w.token (rw (c.members w.token, w.asked, w.there) refl))

first_of : (xs : List String) → 1 ≤ length xs → (t : String) × (contains xs t ≡ true)
first_of [] h = absurd (omega (arith, h))
first_of (x ∷ xs) h = (x, ground arith)

both_true : (a b : Bool) → (a && b) ≡ true → (a ≡ true) × (b ≡ true)
both_true a b h = ground arith

pub IsCommon-Shares :
    (query found : List String) (n : ℕ) → IsCommon query found n → 1 ≤ n → Shares query found
IsCommon-Shares query found n c h =
    let (t, in_common) = first_of c.common (omega (arith, c.size, h)) in
    let (asked, there) = both_true _ _ (rw (← c.members t) in_common) in
    record { token = t; asked = asked; there = there }
