-- ===== src/Examples/Reads.antt =====
-- The read path on one source of three lines.
use Prim.Native.Char.{code}
use Prim.Native.String
use ragsistemi.Prelude.{
  ◌↔◌, String, true, ◌&&◌, ◌≡◌, refl, ◌≤◌, leb, List, [], ◌∷◌, Option, none, some, ok, Result, All,
  if◌then◌else◌, ◌==◌, string_eq, option_eq, join_with, is_blank,
}
use ragsistemi.Prelude.Int.{pos, int_eq}
use ragsistemi.Prelude.Dict.{lookup, insert}
use ragsistemi.Models.Evidence.{SourceRecord, EvidenceItem, EvidenceSet, complete}
use ragsistemi.Models.{normalized}
use ragsistemi.Context
use ragsistemi.Context.{Compiler, compile}
use ragsistemi.Context.Bound.{compile_bounded}
use ragsistemi.Context.Grows.{Accounts, all_declared}
use ragsistemi.Context.Whole.{compile-Accounts}
use ragsistemi.Models.Evidence.{named, item_refs}
use ragsistemi.Retrieval.{Unicode, search_evidence, lt_texts, group_names}
use ragsistemi.Canonical.{sha256_json}
use ragsistemi.Retrieval.Found.{IsFound, search-IsFound}
use ragsistemi.Models.Artifact.{artifact_fingerprint}
use ragsistemi.Egress.{ProviderEnvelope, compile_provider_neutral, emit}
use ragsistemi.Egress.Emission.{IsWhole, emit-compile_iff}
use ragsistemi.Examples.Hosts.{host}
use ragsistemi.Auth.Service.Calls.Inputs.{request}

abbrev pub item : String → String → Option String → EvidenceItem
item ref text group = record {
  evidence_ref = ref;
  source_id = "s";
  version_id = "v";
  project_id = "p1";
  anchor = "a";
  text = text;
  fingerprint = "digest";
  score = pos 1;
  conflict_group = group;
}

-- two sides of a conflict, and an item that does not fit beside them
abbrev evidence : EvidenceSet
evidence = record {
  request = request;
  items = item "e1" "left" (some "g") ∷ item "e2" "alone" none ∷ item "e3" "right" (some "g") ∷ [];
  coverage = complete;
  authorization_lineage = "auth";
  conflict_groups = "g" ∷ [];
}

abbrev small : Compiler
small = record { max_chars = 30 }

compiled : (compile small evidence).evidence_refs ≡ "e1" ∷ "e3" ∷ []
unfolding compile string_eq item_refs Context.step_in named Context.place Context.mark Context.block
    join_with Context.group_items_of lookup insert Context.members option_eq Context.line
    Context.separator
compiled = refl

declared : all_declared evidence.conflict_groups evidence.items ≡ true
unfolding all_declared named string_eq
declared = refl

compile-Accounts_example :
    All
      (λ (i : EvidenceItem).
        Accounts
          (compile small evidence).evidence_refs
          (compile small evidence).omission_ledger
          evidence.items
          i
          (named i.conflict_group))
      evidence.items
compile-Accounts_example = compile-Accounts small evidence declared

compile_bounded_example :
    (String.count (compile small evidence).text ≤ 30) × ((compile small evidence).bound ≡ 30)
compile_bounded_example = compile_bounded small evidence

-- Two lines of 64 and 63 characters make a text of 128 with the line feed between them. The second
-- is left out under a bound of 128: the first line was counted with a separator.
abbrev exact : EvidenceSet
exact = record evidence {
  items =
      item "e1" "0123456789012345678901234567890123456789012345678901234" none
      ∷ item "e2" "012345678901234567890123456789012345678901234567890123" none
      ∷ [];
  conflict_groups = [];
}

exact_fit_omitted :
    ((compile (record { max_chars = 128 }) exact).evidence_refs ≡ "e1" ∷ [])
    × (String.count (Context.block exact.items) ≡ 128)
unfolding compile string_eq item_refs Context.step_in named Context.place Context.mark Context.block
    join_with Context.group_items_of lookup insert Context.members option_eq Context.line
    Context.separator
exact_fit_omitted = (refl, refl)

abbrev pub letters : Unicode
letters = record { is_word = λ c. leb b'a' (code c) && leb (code c) b'z'; casefold = λ s. s }

abbrev pub source : SourceRecord
source = record {
  source_id = "s";
  version_id = "v";
  project_id = "p1";
  source_name = "notes.md";
  content_fingerprint = "digest";
  content = "what is it\nnothing here\nthat is what";
  capture_time = "2026-01-01T00:00:00Z";
  metadata = [];
}

abbrev pub list_sources : String → Result (List SourceRecord)
list_sources project = if project == "p1" then ok (source ∷ []) else ok []

abbrev pub spans : List EvidenceItem
spans = item_at "what is it" ∷ item_at "that is what" ∷ []
  where
    item_at : String → EvidenceItem
    item_at t = record (item "ev_digest" t none) { anchor = "anchor_digest" }

abbrev pub found : EvidenceSet
found = record {
  request = request;
  items = spans;
  coverage = complete;
  authorization_lineage = "auth_digest";
  conflict_groups = [];
}

pub searched : search_evidence host letters list_sources request ≡ ok found
unfolding search_evidence string_eq normalized is_blank int_eq lt_texts sha256_json group_names
    named
searched = refl

search-IsFound_example : IsFound host letters list_sources request found
search-IsFound_example = search-IsFound host letters list_sources request found searched

abbrev wide : Compiler
wide = record { max_chars = 200 }

emit-compile_iff_example :
    ((p : ProviderEnvelope) × (compile_provider_neutral host (compile wide exact) "LOCAL_ONLY"
        ≡ ok p)
      × (emit p "digest" "LOCAL_ONLY" ≡ ok tt))
    ↔ ((◌≡◌ {A = String} "LOCAL_ONLY" "LOCAL_ONLY")
        × (artifact_fingerprint host (compile wide exact) ≡ "digest")
        × IsWhole exact.items exact.conflict_groups exact.coverage
            (compile wide exact).omission_ledger)
emit-compile_iff_example = emit-compile_iff host wide exact "digest" "LOCAL_ONLY"
