-- ===== src/Context.antt =====
-- `ContextCompiler` of pmiri/context.py.
pub mod Bound
pub mod Grows
pub mod Whole
use Prim.Native.String
use ragsistemi.Prelude.{
  ℕ, String, Bool, true, false, ◌+◌, ◌≤◌, List, [], ◌∷◌, ◌++◌, map, Option, none, some,
  if◌then◌else◌, ◌==◌, string_eq, option_eq, leb, ltb, contains, concat, join_with, Result, ok, err,
  value_error,
}
use ragsistemi.Prelude.Int.{ℤ, pos, negsuc}
use ragsistemi.Prelude.Dict.{Dict, lookup, insert}
use ragsistemi.Models.Evidence
use ragsistemi.Models.Evidence.{
  EvidenceItem, EvidenceSet, named, item_refs, item_anchors, Disposition, empty_, degraded,
}
use ragsistemi.Models.Artifact.{Omission, ContextArtifact}

pub record Compiler : Type 0 where
  pub max_chars : ℕ

-- `ContextCompiler(max_chars)`
unfoldable pub create : ℤ → Result Compiler
create (pos n) =
    if ltb n 128 then err (value_error "context_bound_too_small") else ok (record { max_chars = n })
create (negsuc n) = err (value_error "context_bound_too_small")

-- the variables of the loop
pub record Compilation : Type 0 where
  pub selected : List EvidenceItem
  pub used : ℕ
  pub omitted : List Omission
  pub handled : List String

-- `f"[{entry.evidence_ref} | {entry.anchor}] {entry.text}"`
unfoldable pub line : EvidenceItem → String
line i = concat ("[" ∷ i.evidence_ref ∷ " | " ∷ i.anchor ∷ "] " ∷ i.text ∷ [])

unfoldable pub lines : List EvidenceItem → List String
lines [] = []
lines (i ∷ items) = line i ∷ lines items

-- `"\n".join(...)` over the lines of some items
unfoldable pub block : List EvidenceItem → String
unfolding lines
block items = join_with "\n" (lines items)

-- `1 if selected else 0`
unfoldable pub separator : List EvidenceItem → ℕ
separator [] = 0
separator (i ∷ items) = 1

-- `[item for item in items if item.conflict_group == group]`
unfoldable pub members : String → List EvidenceItem → List EvidenceItem
members g [] = []
members g (i ∷ items) =
    let rest = members g items in if i.conflict_group == some g then i ∷ rest else rest

-- `groups`, a dictionary by the conflict groups of the evidence
group_table : List EvidenceItem → Dict (List EvidenceItem) → List String → Dict (List EvidenceItem)
group_table items table [] = table
group_table items table (g ∷ groups) = group_table items (insert g (members g items) table) groups

unfoldable pub groups_of : EvidenceSet → Dict (List EvidenceItem)
unfolding group_table
groups_of e = group_table e.items [] e.conflict_groups

-- the test of the bound, and what it decides
unfoldable pub place : ℕ → List EvidenceItem → Omission → Compilation → Compilation
place max group_items omission s =
    let size = String.count (block group_items) in
    if leb (s.used + size + separator s.selected) max
    then record s {
      selected = s.selected ++ group_items;
      used = s.used + size + separator (s.selected ++ group_items);
    }
    else record s { omitted = s.omitted ++ omission ∷ [] }

-- `groups.get(group, [item])`
unfoldable pub group_items_of : Option (List EvidenceItem) → EvidenceItem → List EvidenceItem
group_items_of none item = item ∷ []
group_items_of (some items) item = items

abbrev pub group_omission : String → Omission
group_omission g = record { reason = "CONFLICT_GROUP_EXCEEDS_CONTEXT_BOUND"; reference = g }

abbrev pub item_omission : EvidenceItem → Omission
item_omission item = record { reason = "CONTEXT_BOUND"; reference = item.evidence_ref }

unfoldable pub mark : String → Compilation → Compilation
mark g s = record s { handled = g ∷ s.handled }

-- one round of the loop, for an item whose conflict group is named or not
unfoldable pub step_in :
    ℕ → Dict (List EvidenceItem) → EvidenceItem → Option String → Compilation → Compilation
step_in max groups item none s = place max (item ∷ []) (item_omission item) s
step_in max groups item (some g) s =
    if contains s.handled g
    then s
    else mark g (place max (group_items_of (lookup g groups) item) (group_omission g) s)

unfoldable pub run : ℕ → Dict (List EvidenceItem) → List EvidenceItem → Compilation → Compilation
run max groups [] s = s
run max groups (item ∷ items) s =
    run max groups items (step_in max groups item (named item.conflict_group) s)

abbrev pub initial : Compilation
initial = record { selected = []; used = 0; omitted = []; handled = [] }

-- the disposition of the artifact, from that of the evidence and the ledger
unfoldable pub final_disposition : Disposition → List Omission → Disposition
final_disposition empty_ omitted = empty_
final_disposition d [] = d
final_disposition d (o ∷ omitted) = degraded

unfoldable pub artifact_of : Compiler → EvidenceSet → Compilation → ContextArtifact
artifact_of c e s = record {
  artifact_kind = "CompiledContextArtifact";
  bound = c.max_chars;
  text = block s.selected;
  coverage = e.coverage;
  disposition = final_disposition (Evidence.disposition e) s.omitted;
  evidence_refs = item_refs s.selected;
  citation_refs = item_anchors s.selected;
  authorization_lineage = e.authorization_lineage;
  omission_ledger = s.omitted;
}

-- `ContextCompiler.compile`
unfoldable pub compile : Compiler → EvidenceSet → ContextArtifact
unfolding run groups_of artifact_of
compile c e = artifact_of c e (run c.max_chars (groups_of e) e.items initial)
