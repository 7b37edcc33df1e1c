-- ===== src/Context/Whole.antt =====
-- What becomes of an item of the evidence in pmiri/context.py.
use Prim.Native.String
use ragsistemi.Prelude.{
  ℕ, ◌+◌, String, true, ◌≡◌, refl, ◌⊎◌, inl, inr, List, [], ◌∷◌, Option, none, some, contains,
  string_eq, arith, Bool-cases, leb, All, if◌then◌else◌,
}
use ragsistemi.Prelude.Dict.{Dict, lookup, insert, lookup-insert}
use ragsistemi.Models.Evidence.{EvidenceItem, EvidenceSet, named, item_refs}
use ragsistemi.Models.Artifact.{Omission}
use ragsistemi.Context
use ragsistemi.Context.{
  Compiler, Compilation, members, block, separator, place, step_in, run, compile, initial,
  group_items_of, groups_of, mark, item_omission, group_omission,
}
use ragsistemi.Context.Grows.{
  is_listed, all_declared, declares-some, AllCited, Accounts, In, Grows, contains-append_left,
  is_listed-append, AllCited-append, AllCited-self, In-Grows, Grows-refl, Grows-trans,
}

place-Grows :
    (max : ℕ) (items : List EvidenceItem) (o : Omission) (s : Compilation)
    → Grows s (place max items o s)
unfolding place
place-Grows max items o s = record {
  cited = λ r h. ground (arith, contains-append_left s.selected items r h);
  listed = λ a b h. ground (arith, is_listed-append a b s.omitted o);
}

-- What is placed is cited whole, or its omission is listed.
place-whole :
    (max : ℕ) (items : List EvidenceItem) (o : Omission) (s : Compilation)
    → AllCited (item_refs (place max items o s).selected) items
      ⊎ (is_listed o.reason o.reference (place max items o s).omitted ≡ true)
unfolding place
place-whole max items o s =
    let size = String.count (block items) in
    elim (Bool-cases (leb (s.used + size + separator s.selected) max)) [
      | inl fits ↦ rw fits (inl (AllCited-append s.selected items items (AllCited-self items)))
      | inr over ↦ rw over (inr (ground (arith, is_listed-append o.reason o.reference s.omitted o)))
    ]

place-handled :
    (max : ℕ) (items : List EvidenceItem) (o : Omission) (s : Compilation)
    → (place max items o s).handled ≡ s.handled
unfolding place
place-handled max items o s = ground arith

-- The groups that have been handled are accounted for.
abbrev Settled : Compilation → List EvidenceItem → Type 0
Settled s all =
    (g : String)
    → contains s.handled g ≡ true
    → AllCited (item_refs s.selected) (members g all)
      ⊎ (is_listed "CONFLICT_GROUP_EXCEEDS_CONTEXT_BOUND" g s.omitted ≡ true)

-- One round of the loop.
record Round (all : List EvidenceItem) (i : EvidenceItem) (g : Option String) (s t : Compilation)
    : Type 0 where
  grown : Grows s t
  settled : Settled t all
  accounted : In t all i g

one_of :
    (refs : List String) (ledger : List Omission) (i : EvidenceItem)
    → AllCited refs (i ∷ []) ⊎ (is_listed "CONTEXT_BOUND" i.evidence_ref ledger ≡ true)
    → (contains refs i.evidence_ref ≡ true)
      ⊎ (is_listed "CONTEXT_BOUND" i.evidence_ref ledger ≡ true)
one_of refs ledger i (inl whole) = inl whole.0
one_of refs ledger i (inr listed) = inr listed

module _ (max : ℕ) (groups : Dict (List EvidenceItem)) (all : List EvidenceItem) where
  -- a group that is not handled yet is placed as a whole, and then it is handled
  placed_group :
      (i : EvidenceItem) (g : String) (s : Compilation)
      → Settled s all
      → lookup g groups ≡ some (members g all)
      → Round all i
          (some g)
          s
          (mark g (place max (group_items_of (lookup g groups) i) (group_omission g) s))
  unfolding mark group_items_of
  placed_group i g s settled there = rw there (
      let t = place max (members g all) (group_omission g) s in
      let w = place-Grows max (members g all) (group_omission g) s in
      let whole = place-whole max (members g all) (group_omission g) s in
      record {
        grown = record { cited = w.cited; listed = w.listed };
        settled = λ h k. elim (string_eq.dec h g) [
          | yes e ↦ rw e whole
          | no n ↦
              In-Grows s t all i (some h) w
                (settled h (ground (arith, place-handled max (members g all) (group_omission g) s)))
        ];
        accounted = whole;
      })

  step_in-Round :
      (i : EvidenceItem) (g : Option String) (s : Compilation)
      → Settled s all
      → ((h : String) → g ≡ some h → lookup h groups ≡ some (members h all))
      → Round all i g s (step_in max groups i g s)
  unfolding step_in
  step_in-Round i none s settled there =
      let o = item_omission i in
      let t = place max (i ∷ []) o s in
      let w = place-Grows max (i ∷ []) o s in
      record {
        grown = w;
        settled = λ h k. In-Grows s t all i (some h) w (settled h (rw place-handled at k));
        accounted = one_of (item_refs t.selected) t.omitted i (place-whole max (i ∷ []) o s);
      }
  step_in-Round i (some g) s settled there = elim (Bool-cases (contains s.handled g)) [
    | inl done ↦
        rw done (record { grown = Grows-refl s; settled = settled; accounted = settled g done })
    | inr new ↦ rw new (placed_group i g s settled (there g refl))
  ]

  -- the loop, where every group that an item names is in the table
  run_accounts :
      (names : List String)
      → ((g : String) → contains names g ≡ true → lookup g groups ≡ some (members g all))
      → (items : List EvidenceItem) (s : Compilation) → Settled s all
      → all_declared names items ≡ true
      → Grows s (run max groups items s)
        × All
            (λ (i : EvidenceItem). In (run max groups items s) all i (named i.conflict_group))
            items
  unfolding run all_declared
  run_accounts names table [] s settled declared = (Grows-refl s, tt)
  run_accounts names table (i ∷ items) s settled declared =
      let g = named i.conflict_group in
      let t = step_in max groups i g s in
      let round =
        step_in-Round i g s settled (λ h e. table h (declares-some names g h e (ground arith))) in
      let (grown, rest) = run_accounts names table items t round.settled (ground arith) in
      (
        Grows-trans s t (run max groups items t) round.grown grown,
        (In-Grows t (run max groups items t) all i g grown round.accounted, rest),
      )

lookup-group_table :
    (items : List EvidenceItem) (table : Dict (List EvidenceItem)) (groups : List String)
    (g : String)
    → lookup g (Context.group_table items table groups)
      ≡ (if contains groups g then some (members g items) else lookup g table)
unfolding Context.group_table
lookup-group_table items table [] g = refl
lookup-group_table items table (h ∷ groups) g = ground (
  arith,
  lookup-group_table items (insert h (members h items) table) groups g,
  lookup-insert g h (members h items) table,
)

-- Where the evidence declares every group that an item names, every item is accounted for: an item
-- without a group is cited by the artifact or named by its ledger, and a conflict group is cited
-- with all its members or named by the ledger.
pub compile-Accounts :
    (c : Compiler) (e : EvidenceSet)
    → all_declared e.conflict_groups e.items ≡ true
    → All
        (λ (i : EvidenceItem).
          Accounts
            (compile c e).evidence_refs
            (compile c e).omission_ledger
            e.items
            i
            (named i.conflict_group))
        e.items
unfolding compile
compile-Accounts c e declared =
    (run_accounts c.max_chars (groups_of e) e.items e.conflict_groups
      (λ g h. ground (arith, lookup-group_table e.items [] e.conflict_groups g)) e.items initial
      (λ g h. cc) declared).1
