-- ===== src/Prelude/Order.antt =====
-- The order of Python's strings, by code points, and `sorted(set(xs))`.
use Prim.Native.Nat.{Ordering, compare}
use Prim.Native.Char.{Char, code}
use Prim.Native.String.{String}
use mathlib.Core.Path.{◌≡◌, refl}
use mathlib.Core.Logic.{◌⊎◌, inl, inr}
use mathlib.Core.Bool.{Bool, true, false, ◌||◌}
use mathlib.Core.List.{List, [], ◌∷◌}
use native.Mathlib.Omega.{arith}
use text.Mathlib.TextEquality.{codes_equal}
use ragsistemi.Prelude.Tests.{◌==◌, string_eq, contains, if◌then◌else◌, Bool-cases}
use ragsistemi.Prelude.Lists.{All}

-- `s < t`
unfoldable pub lt_text : String → String → Bool
lt_text String.[] String.[] = false
lt_text String.[] (String.◌∷◌ d t) = true
lt_text (String.◌∷◌ c s) String.[] = false
lt_text (String.◌∷◌ c s) (String.◌∷◌ d t) =
    let rest = lt_text s t in
    elim (compare (code c) (code d)) [
      | Ordering.lt ↦ true
      | Ordering.eq ↦ rest
      | Ordering.gt ↦ false
    ]

abbrev pub LtText : String → String → Type 0
LtText s t = lt_text s t ≡ true

pub lt_text_irrefl : (s : String) → lt_text s s ≡ false
unfolding lt_text
lt_text_irrefl String.[] = refl
lt_text_irrefl (String.◌∷◌ c s) = ground (arith, lt_text_irrefl s)

pub LtText-trans : (s t u : String) → LtText s t → LtText t u → LtText s u
unfolding lt_text
LtText-trans String.[] String.[] u h k = cc
LtText-trans String.[] (String.◌∷◌ d t) String.[] h k = cc
LtText-trans String.[] (String.◌∷◌ d t) (String.◌∷◌ e u) h k = refl
LtText-trans (String.◌∷◌ c s) String.[] u h k = cc
LtText-trans (String.◌∷◌ c s) (String.◌∷◌ d t) String.[] h k = cc
LtText-trans (String.◌∷◌ c s) (String.◌∷◌ d t) (String.◌∷◌ e u) h k =
    ground (arith, LtText-trans s t u)

codes_ordered :
    (c d : Char)
    → (compare (code c) (code d) ≡ Ordering.lt)
      ⊎ ((compare (code d) (code c) ≡ Ordering.lt) ⊎ (c ≡ d))
codes_ordered c d = go (compare (code c) (code d)) refl
  where
    go :
        (o : Ordering)
        → compare (code c) (code d) ≡ o
        → (compare (code c) (code d) ≡ Ordering.lt)
          ⊎ ((compare (code d) (code c) ≡ Ordering.lt) ⊎ (c ≡ d))
    go Ordering.lt e = inl e
    go Ordering.eq e = inr (inr (codes_equal c d e))
    go Ordering.gt e = inr (inl (ground arith))

pub lt_text_total : (s t : String) → lt_text s t ≡ false → lt_text t s ≡ false → s ≡ t
unfolding lt_text
lt_text_total String.[] String.[] h k = refl
lt_text_total String.[] (String.◌∷◌ d t) h k = cc
lt_text_total (String.◌∷◌ c s) String.[] h k = cc
lt_text_total (String.◌∷◌ c s) (String.◌∷◌ d t) h k =
    ground (arith, codes_ordered c d, lt_text_total s t)

-- what is not before the second is not before the first, where the second is not before the first
pub lt_text_negtrans :
    (s t u : String) → lt_text t s ≡ false → lt_text u t ≡ false → lt_text u s ≡ false
lt_text_negtrans s t u h k = elim (Bool-cases (lt_text u s)) [
  | inr no_ ↦ no_
  | inl below ↦ elim (Bool-cases (lt_text s t)) [
    | inl st ↦ cc (LtText-trans u s t below st, k)
    | inr ts ↦ cc (lt_text_total s t ts h, k)
  ]
]

-- no two texts are each before the other
pub lt_text_asym : (s t : String) → lt_text s t ≡ true → lt_text t s ≡ false
lt_text_asym s t h = elim (Bool-cases (lt_text t s)) [
  | inl k ↦ cc (LtText-trans s t s h k, lt_text_irrefl s)
  | inr k ↦ k
]

insert_sorted : String → List String → List String
insert_sorted x [] = x ∷ []
insert_sorted x (y ∷ ys) =
    let rest = insert_sorted x ys in
    if x == y then y ∷ ys else if lt_text x y then x ∷ y ∷ ys else y ∷ rest

-- `sorted(set(xs))`
unfoldable pub sorted_set : List String → List String
unfolding insert_sorted
sorted_set [] = []
sorted_set (x ∷ xs) = insert_sorted x (sorted_set xs)

abbrev pub IsSorted : List String → Type 0
IsSorted [] = Unit
IsSorted (x ∷ xs) = All (LtText x) xs × IsSorted xs

contains-insert_sorted :
    (v x : String) (ys : List String) → contains (insert_sorted x ys) v ≡ (v == x || contains ys v)
unfolding insert_sorted
contains-insert_sorted v x [] = refl
contains-insert_sorted v x (y ∷ ys) = ground (arith, contains-insert_sorted v x ys)

-- the set has the members of the list
pub contains-sorted_set :
    (v : String) (xs : List String) → contains (sorted_set xs) v ≡ contains xs v
unfolding sorted_set
contains-sorted_set v [] = refl
contains-sorted_set v (x ∷ xs) =
    ground (arith, contains-insert_sorted v x (sorted_set xs), contains-sorted_set v xs)

All-weaken : (x y : String) (ys : List String) → LtText x y → All (LtText y) ys → All (LtText x) ys
All-weaken x y [] h a = tt
All-weaken x y (z ∷ ys) h a = (LtText-trans x y z h a.0, All-weaken x y ys h a.1)

All-insert_sorted :
    (y x : String) (ys : List String)
    → LtText y x
    → All (LtText y) ys
    → All (LtText y) (insert_sorted x ys)
unfolding insert_sorted
All-insert_sorted y x [] h a = (h, tt)
All-insert_sorted y x (z ∷ ys) h a = ground (arith, All-insert_sorted y x ys h a.1)

insert_sorted-IsSorted :
    (x : String) (ys : List String) → IsSorted ys → IsSorted (insert_sorted x ys)
unfolding insert_sorted
insert_sorted-IsSorted x [] h = (tt, tt)
insert_sorted-IsSorted x (y ∷ ys) h = elim (string_eq.dec x y) [
  | yes e ↦ ground arith
  | no n ↦ elim (Bool-cases (lt_text x y)) [
    | inl l ↦ ground (arith, All-weaken x y ys)
    | inr m ↦ elim (Bool-cases (lt_text y x)) [
      | inl g ↦ ground (arith, All-insert_sorted y x ys g h.0, insert_sorted-IsSorted x ys h.1)
      | inr w ↦ absurd (n (lt_text_total x y m w))
    ]
  ]
]

pub sorted_set-IsSorted : (xs : List String) → IsSorted (sorted_set xs)
unfolding sorted_set
sorted_set-IsSorted [] = tt
sorted_set-IsSorted (x ∷ xs) = insert_sorted-IsSorted x (sorted_set xs) (sorted_set-IsSorted xs)

LtText-contains :
    (x v : String) (xs : List String) → All (LtText x) xs → contains xs v ≡ true → LtText x v
LtText-contains x v [] a h = cc
LtText-contains x v (y ∷ ys) a h = ground (arith, LtText-contains x v ys a.1)

not-contains_below : (x : String) (xs : List String) → All (LtText x) xs → contains xs x ≡ false
not-contains_below x xs a = elim (Bool-cases (contains xs x)) [
  | inl h ↦ cc (LtText-contains x x xs a h, lt_text_irrefl x)
  | inr h ↦ h
]

abbrev pub SameMembers : List String → List String → Type 0
SameMembers xs ys = (v : String) → contains xs v ≡ contains ys v

heads_equal :
    (x y : String) (xs ys : List String)
    → All (LtText x) xs
    → All (LtText y) ys
    → SameMembers (x ∷ xs) (y ∷ ys)
    → x ≡ y
heads_equal x y xs ys a b h = elim (string_eq.dec x y) [
  | yes e ↦ e
  | no n ↦ ground (
    arith,
    h x,
    h y,
    LtText-contains x y xs a,
    LtText-contains y x ys b,
    LtText-trans x y x,
    lt_text_irrefl x,
  )
]

-- a sorted list is determined by its members
pub SameMembers-IsSorted :
    (xs ys : List String) → IsSorted xs → IsSorted ys → SameMembers xs ys → xs ≡ ys
SameMembers-IsSorted [] [] a b h = refl
SameMembers-IsSorted [] (y ∷ ys) a b h = ground (arith, h y)
SameMembers-IsSorted (x ∷ xs) [] a b h = ground (arith, h x)
SameMembers-IsSorted (x ∷ xs) (y ∷ ys) a b h =
    let e : x ≡ y = heads_equal x y xs ys a.0 b.0 h in
    let tails : xs ≡ ys =
      SameMembers-IsSorted xs ys a.1 b.1
        (λ v. ground (arith, h v, not-contains_below x xs a.0, not-contains_below y ys b.0)) in
    cc

pub sorted_set_ext : (xs ys : List String) → SameMembers xs ys → sorted_set xs ≡ sorted_set ys
sorted_set_ext xs ys h =
    SameMembers-IsSorted (sorted_set xs) (sorted_set ys) (sorted_set-IsSorted xs)
      (sorted_set-IsSorted ys) (λ v. cc (contains-sorted_set v xs, contains-sorted_set v ys, h v))
