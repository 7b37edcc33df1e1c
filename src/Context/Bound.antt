-- ===== src/Context/Bound.antt =====
-- The length of the text that pmiri/context.py compiles.
use Prim.Native.String
use text.Mathlib.TextLemmas.{length-append as count-append, append-nil as text_append-nil}
use ragsistemi.Prelude.{
  ℕ, String, ◌+◌, ◌≤◌, ◌≡◌, refl, List, [], ◌∷◌, ◌++◌, Option, none, some, concat, join_with,
  string_eq, arith,
}
use ragsistemi.Prelude.Dict.{Dict, lookup}
use ragsistemi.Models.Evidence.{EvidenceItem, EvidenceSet, named}
use ragsistemi.Models.Artifact.{Omission}
use ragsistemi.Context.{
  Compiler, Compilation, block, lines, line, separator, place, step_in, run, compile, initial,
  group_items_of, groups_of, mark, item_omission, group_omission,
}

abbrev size : List EvidenceItem → ℕ
size items = String.count (block items)

size-cons :
    (i j : EvidenceItem) (items : List EvidenceItem)
    → size (i ∷ j ∷ items) ≡ String.count (line i) + 1 + size (j ∷ items)
unfolding block lines join_with concat
size-cons i j items = simp (count-append, text_append-nil) (omega arith)

size-nil : size [] ≡ 0
unfolding block lines join_with
size-nil = refl

size-one : (i : EvidenceItem) → size (i ∷ []) ≡ String.count (line i)
unfolding block lines join_with
size-one i = refl

size-append : (xs ys : List EvidenceItem) → size (xs ++ ys) ≤ size xs + separator xs + size ys
unfolding separator
size-append [] ys = omega (arith, size-nil)
size-append (x ∷ []) [] = omega (arith, size-nil)
size-append (x ∷ []) (y ∷ ys) = omega (arith, size-cons x y ys, size-one x)
size-append (x ∷ x' ∷ xs) ys =
    omega (arith, size-cons x x' xs, size-cons x x' (xs ++ ys), size-append (x' ∷ xs) ys)

-- What the loop keeps: the text is within the bound, and `used` counts it with its separator.
record Fits (max : ℕ) (s : Compilation) : Type 0 where
  within : size s.selected ≤ max
  counted : size s.selected + separator s.selected ≤ s.used

place-Fits :
    (max : ℕ) (items : List EvidenceItem) (o : Omission) (s : Compilation)
    → Fits max s
    → Fits max (place max items o s)
unfolding place
place-Fits max items o s f = ground (arith, size-append s.selected items)

step_in-Fits :
    (max : ℕ) (groups : Dict (List EvidenceItem)) (item : EvidenceItem) (g : Option String)
    (s : Compilation)
    → Fits max s
    → Fits max (step_in max groups item g s)
unfolding step_in mark
step_in-Fits max groups item none s f = place-Fits max (item ∷ []) (item_omission item) s f
step_in-Fits max groups item (some g) s f =
    let items = group_items_of (lookup g groups) item in
    ground (arith, place-Fits max items (group_omission g) s f)

run-Fits :
    (max : ℕ) (groups : Dict (List EvidenceItem)) (items : List EvidenceItem) (s : Compilation)
    → Fits max s
    → Fits max (run max groups items s)
unfolding run
run-Fits max groups [] s f = f
run-Fits max groups (item ∷ items) s f =
    run-Fits max groups items (step_in max groups item (named item.conflict_group) s)
      (step_in-Fits max groups item (named item.conflict_group) s f)

-- The text of a compiled artifact is no longer than the compiler's bound, which the artifact names.
pub compile_bounded :
    (c : Compiler) (e : EvidenceSet)
    → (String.count (compile c e).text ≤ c.max_chars) × ((compile c e).bound ≡ c.max_chars)
unfolding compile separator
compile_bounded c e =
    let f =
      run-Fits c.max_chars (groups_of e) e.items initial
        (record { within = omega (arith, size-nil); counted = omega (arith, size-nil) }) in
    (f.within, refl)
