-- ===== src/Context/Grows.antt =====
-- What a later round of pmiri/context.py keeps of the selection and the ledger.
use ragsistemi.Prelude.{
  String, Bool, true, false, ◌&&◌, ◌||◌, ◌≡◌, ◌⊎◌, inl, inr, List, [], ◌∷◌, ◌++◌, Option, none,
  some, ◌==◌, contains, string_eq, arith, All,
}
use ragsistemi.Models.Evidence.{EvidenceItem, named, item_refs}
use ragsistemi.Models.Artifact.{Omission}
use ragsistemi.Context.{Compilation, members}

-- whether the ledger has an entry
unfoldable pub is_listed : String → String → List Omission → Bool
is_listed reason reference [] = false
is_listed reason reference (o ∷ ledger) =
    o.reason == reason && o.reference == reference || is_listed reason reference ledger

-- whether every named group of the items is among the groups
unfoldable pub declares : List String → Option String → Bool
declares groups none = true
declares groups (some g) = contains groups g

unfoldable pub all_declared : List String → List EvidenceItem → Bool
unfolding declares
all_declared groups [] = true
all_declared groups (i ∷ items) =
    declares groups (named i.conflict_group) && all_declared groups items

pub declares-some :
    (names : List String) (g : Option String) (h : String)
    → g ≡ some h
    → declares names g ≡ true
    → contains names h ≡ true
unfolding declares
declares-some names none h e d = cc
declares-some names (some g) h e d = ground arith

abbrev pub AllCited : List String → List EvidenceItem → Type 0
AllCited refs items = All (λ (i : EvidenceItem). contains refs i.evidence_ref ≡ true) items

-- An item with no group is cited, or the ledger names it. A group is cited whole, or the ledger
-- names it.
abbrev pub Accounts :
    List String → List Omission → List EvidenceItem → EvidenceItem → Option String → Type 0
Accounts refs ledger all i none =
    (contains refs i.evidence_ref ≡ true) ⊎ (is_listed "CONTEXT_BOUND" i.evidence_ref ledger ≡ true)
Accounts refs ledger all i (some g) =
    AllCited refs (members g all)
    ⊎ (is_listed "CONFLICT_GROUP_EXCEEDS_CONTEXT_BOUND" g ledger ≡ true)

abbrev pub In : Compilation → List EvidenceItem → EvidenceItem → Option String → Type 0
In s all i g = Accounts (item_refs s.selected) s.omitted all i g

-- The second state has what the first has.
pub record Grows (s t : Compilation) : Type 0 where
  pub cited :
      (r : String)
      → contains (item_refs s.selected) r ≡ true
      → contains (item_refs t.selected) r ≡ true
  pub listed :
      (reason reference : String)
      → is_listed reason reference s.omitted ≡ true
      → is_listed reason reference t.omitted ≡ true

pub contains-append_left :
    (xs ys : List EvidenceItem) (r : String)
    → contains (item_refs xs) r ≡ true
    → contains (item_refs (xs ++ ys)) r ≡ true
unfolding item_refs
contains-append_left [] ys r h = cc
contains-append_left (x ∷ xs) ys r h = ground (arith, contains-append_left xs ys r)

pub contains-append_right :
    (xs ys : List EvidenceItem) (r : String)
    → contains (item_refs ys) r ≡ true
    → contains (item_refs (xs ++ ys)) r ≡ true
unfolding item_refs
contains-append_right [] ys r h = h
contains-append_right (x ∷ xs) ys r h = ground (arith, contains-append_right xs ys r)

pub is_listed-append :
    (reason reference : String) (ledger : List Omission) (o : Omission)
    → is_listed reason reference (ledger ++ o ∷ [])
      ≡ (is_listed reason reference ledger || (o.reason == reason && o.reference == reference))
unfolding is_listed
is_listed-append reason reference [] o = ground arith
is_listed-append reason reference (p ∷ ledger) o =
    ground (arith, is_listed-append reason reference ledger o)

pub AllCited-append :
    (xs ys all : List EvidenceItem)
    → AllCited (item_refs ys) all
    → AllCited (item_refs (xs ++ ys)) all
AllCited-append xs ys [] h = tt
AllCited-append xs ys (i ∷ all) h =
    (contains-append_right xs ys i.evidence_ref h.0, AllCited-append xs ys all h.1)

pub AllCited-cons :
    (r : String) (refs : List String) (all : List EvidenceItem)
    → AllCited refs all
    → AllCited (r ∷ refs) all
AllCited-cons r refs [] h = tt
AllCited-cons r refs (i ∷ all) h = (ground arith, AllCited-cons r refs all h.1)

pub AllCited-self : (items : List EvidenceItem) → AllCited (item_refs items) items
unfolding item_refs
AllCited-self [] = tt
AllCited-self (i ∷ items) =
    (ground arith, AllCited-cons i.evidence_ref (item_refs items) items (AllCited-self items))

pub AllCited-Grows :
    (s t : Compilation) (all : List EvidenceItem)
    → Grows s t
    → AllCited (item_refs s.selected) all
    → AllCited (item_refs t.selected) all
AllCited-Grows s t [] g h = tt
AllCited-Grows s t (i ∷ all) g h = (g.cited i.evidence_ref h.0, AllCited-Grows s t all g h.1)

pub In-Grows :
    (s t : Compilation) (all : List EvidenceItem) (i : EvidenceItem) (g : Option String)
    → Grows s t
    → In s all i g
    → In t all i g
In-Grows s t all i none w (inl h) = inl (w.cited i.evidence_ref h)
In-Grows s t all i none w (inr h) = inr (w.listed _ i.evidence_ref h)
In-Grows s t all i (some g) w (inl h) = inl (AllCited-Grows s t (members g all) w h)
In-Grows s t all i (some g) w (inr h) = inr (w.listed _ g h)

pub Grows-refl : (s : Compilation) → Grows s s
Grows-refl s = record { cited = λ r h. h; listed = λ a b h. h }

pub Grows-trans : (s t u : Compilation) → Grows s t → Grows t u → Grows s u
Grows-trans s t u v w = record {
  cited = λ r h. w.cited r (v.cited r h);
  listed = λ a b h. w.listed a b (v.listed a b h);
}
