-- ===== src/Store/Latest.antt =====
-- The listing of pmiri/store.py without history: a latest version of every source.
use ragsistemi.Prelude.{
  Any, String, Bool, true, false, ◌≡◌, refl, sym, ◌∙◌, List, [], ◌∷◌, All, Option, none, some, ◌==◌,
  string_eq, Bool-cases, inl, inr, arith, ok, bind-eq-ok, ok_injective,
}
use ragsistemi.Prelude.Dict.{Dict, lookup, insert, lookup-insert}
use ragsistemi.Prelude.Order.{lt_text_irrefl}
use ragsistemi.Host.{Host}
use ragsistemi.Models.Evidence.{SourceRecord}
use ragsistemi.Retrieval.{lt_texts}
use ragsistemi.Retrieval.Ranked.{lt_texts_negtrans, lt_texts_asym}
use ragsistemi.Store
use ragsistemi.Store.{
  Blob, text, other, Entry, Store, entry_key, stamp, sort_entries, of_project, improve, latest,
  values, record_with, record_from, records_of, list_sources,
}
use ragsistemi.Store.Shows.{Any-values, Any-sort_entries}

-- an entry of the same source that is not before `e`
abbrev IsNewer : Entry → Entry → Type 0
IsNewer e c = (c.source_id ≡ e.source_id) × (lt_texts (stamp c) (stamp e) ≡ false)

record Holds (table : Dict Entry) (e : Entry) : Type 0 where
  current : Entry
  there : lookup e.source_id table ≡ some current
  newer : IsNewer e current

-- an entry stands under its source
abbrev Keyed : Dict Entry → Type 0
Keyed table = (k : String) (c : Entry) → lookup k table ≡ some c → c.source_id ≡ k

stamp_irrefl : (e : Entry) → lt_texts (stamp e) (stamp e) ≡ false
unfolding lt_texts
stamp_irrefl e = ground (arith, lt_text_irrefl e.capture_time, lt_text_irrefl e.version_id)

text_same : (s t : String) → (s == t) ≡ true → s ≡ t
text_same s t h = ground arith

some_source : (e c : Entry) (k : String) → some e ≡ some c → e.source_id ≡ k → c.source_id ≡ k
some_source e c k same h = cc

-- an entry that is later than one that was not before `f` is not before it either
overtaken :
    (c d e f : Entry)
    → some c ≡ some d
    → lt_texts (stamp d) (stamp f) ≡ false
    → lt_texts (stamp c) (stamp e) ≡ true
    → lt_texts (stamp e) (stamp f) ≡ false
overtaken c d e f same w later =
    lt_texts_negtrans (stamp f) (stamp c) (stamp e) (cc (same, w))
      (lt_texts_asym (stamp c) (stamp e) later)

insert-Keyed : (e : Entry) (table : Dict Entry) → Keyed table → Keyed (insert e.source_id e table)
insert-Keyed e table keyed k c h = elim (Bool-cases (e.source_id == k)) [
  | inl own ↦
      (let e_is_c : some e ≡ some c = cc (lookup-insert k e.source_id e table, own, h) in
        some_source e c k e_is_c (text_same e.source_id k own))
  | inr differs ↦ keyed k c (ground (arith, lookup-insert k e.source_id e table, differs, h))
]

improve-Keyed :
    (e : Entry) (b : Option Entry) (table : Dict Entry) → Keyed table → Keyed (improve e b table)
unfolding improve
improve-Keyed e none table keyed = insert-Keyed e table keyed
improve-Keyed e (some c) table keyed = elim (Bool-cases (lt_texts (stamp c) (stamp e))) [
  | inl later ↦ rw later (insert-Keyed e table keyed)
  | inr kept ↦ rw kept keyed
]

inserted : (e : Entry) (table : Dict Entry) → Holds (insert e.source_id e table) e
inserted e table = record {
  current = e;
  there = rw (lookup-insert e.source_id e.source_id e table) (ground arith);
  newer = (refl, stamp_irrefl e);
}

improve-Holds :
    (e : Entry) (b : Option Entry) (table : Dict Entry)
    → Keyed table
    → lookup e.source_id table ≡ b
    → Holds (improve e b table) e
unfolding improve
improve-Holds e none table keyed found = inserted e table
improve-Holds e (some c) table keyed found = elim (Bool-cases (lt_texts (stamp c) (stamp e))) [
  | inl later ↦ rw later (inserted e table)
  | inr kept ↦
      rw kept (record { current = c; there = found; newer = (keyed e.source_id c found, kept) })
]

empty-Keyed : Keyed []
unfolding lookup
empty-Keyed k c h = cc

-- what holds of an entry still holds after another is inserted
inserted_keeps :
    (e f : Entry) (table : Dict Entry)
    → ((e.source_id == f.source_id) ≡ true → lt_texts (stamp e) (stamp f) ≡ false)
    → Holds table f
    → Holds (insert e.source_id e table) f
inserted_keeps e f table after_ w = elim (Bool-cases (e.source_id == f.source_id)) [
  | inl same ↦ record {
    current = e;
    there = rw (lookup-insert f.source_id e.source_id e table, same) refl;
    newer = (text_same e.source_id f.source_id same, after_ same);
  }
  | inr differs ↦ record {
    current = w.current;
    there = rw (lookup-insert f.source_id e.source_id e table, differs) w.there;
    newer = w.newer;
  }
]

found_at :
    (s t : String) (b : Option Entry) (table : Dict Entry)
    → (s == t) ≡ true
    → lookup s table ≡ b
    → lookup t table ≡ b
found_at s t b table h found = rw (← text_same s t h) found

missing_is_none : (d : Entry) (b : Bool) → none ≡ some d → b ≡ false
missing_is_none d b h = cc

improve_keeps :
    (e f : Entry) (b : Option Entry) (table : Dict Entry)
    → lookup e.source_id table ≡ b
    → Holds table f
    → Holds (improve e b table) f
unfolding improve
improve_keeps e f none table found w =
    inserted_keeps e f table
      (λ same.
        missing_is_none w.current _
          (sym (found_at e.source_id f.source_id none table same found) ∙ w.there))
      w
improve_keeps e f (some c) table found w = elim (Bool-cases (lt_texts (stamp c) (stamp e))) [
  | inl later ↦ rw later (
      inserted_keeps e f table
        (λ same.
          overtaken c w.current e f
            (sym (found_at e.source_id f.source_id (some c) table same found) ∙ w.there) w.newer.1
            later)
        w)
  | inr kept ↦ rw kept w
]

latest_keeps :
    (entries : List Entry) (table : Dict Entry) (f : Entry)
    → Holds table f
    → Holds (latest entries table) f
unfolding latest
latest_keeps [] table f w = w
latest_keeps (e ∷ entries) table f w =
    latest_keeps entries (improve e (lookup e.source_id table) table) f
      (improve_keeps e f _ table refl w)

latest-Holds :
    (entries : List Entry) (table : Dict Entry)
    → Keyed table
    → All (Holds (latest entries table)) entries
unfolding latest
latest-Holds [] table keyed = tt
latest-Holds (e ∷ entries) table keyed =
    let t = improve e (lookup e.source_id table) table in
    (
      latest_keeps entries t e (improve-Holds e _ table keyed refl),
      latest-Holds entries t (improve-Keyed e _ table keyed),
    )

-- a record of the same source that is not before `e`
abbrev pub IsCurrent : Entry → SourceRecord → Type 0
IsCurrent e r =
    (r.source_id ≡ e.source_id) × (lt_texts (r.capture_time ∷ r.version_id ∷ []) (stamp e) ≡ false)

module _ (host : Host) where
  record_from-IsCurrent :
      (e f : Entry) (b : Option Blob) (r : SourceRecord)
      → record_from host f b ≡ ok r
      → IsNewer e f
      → IsCurrent e r
  unfolding record_from record_with
  record_from-IsCurrent e f none r h w = cc
  record_from-IsCurrent e f (some (other d)) r h w = cc
  record_from-IsCurrent e f (some (text s)) r h w =
      elim (Bool-cases (host.sha256 s == f.content_fingerprint)) [
        | inl same ↦ rw (← ok_injective (rw same at h)) w
        | inr differs ↦ cc (rw differs at h)
      ]

  Any-records_of :
      (e : Entry) (blobs : Dict Blob) (entries : List Entry) (records : List SourceRecord)
      → records_of host blobs entries ≡ ok records
      → Any (IsNewer e) entries
      → Any (IsCurrent e) records
  unfolding records_of
  Any-records_of e blobs [] records h w = cc
  Any-records_of e blobs (f ∷ entries) records h w =
      let (r, first, h1) =
        bind-eq-ok (record_from host f (lookup f.content_fingerprint blobs)) _ h in
      let (rest, later, h2) = bind-eq-ok (records_of host blobs entries) _ h1 in
      rw (← ok_injective h2) (elim w [
        | inl here ↦
            inl (record_from-IsCurrent e f (lookup f.content_fingerprint blobs) r first here)
        | inr there ↦ inr (Any-records_of e blobs entries rest later there)
      ])

  all-IsCurrent :
      (blobs : Dict Blob) (table : Dict Entry) (entries : List Entry) (records : List SourceRecord)
      → records_of host blobs (sort_entries (values table)) ≡ ok records
      → All (Holds table) entries
      → All (λ (e : Entry). Any (IsCurrent e) records) entries
  all-IsCurrent blobs table [] records h w = tt
  all-IsCurrent blobs table (e ∷ entries) records h w = (
    Any-records_of e blobs (sort_entries (values table)) records h (
        Any-sort_entries (IsNewer e) (values table)
          (Any-values (IsNewer e) e.source_id w.0.current table w.0.there w.0.newer)),
    all-IsCurrent blobs table entries records h w.1,
  )

  -- A listing without history has, for every version that the index holds of the project, a record of
  -- the same source whose capture time and version are not before that version's.
  pub list_sources-IsCurrent :
      (s : Store) (p : Option String) (records : List SourceRecord)
      → list_sources host s p false ≡ ok records
      → All (λ (e : Entry). Any (IsCurrent e) records) (of_project p s.index)
  unfolding list_sources Store.chosen
  list_sources-IsCurrent s p records h =
      all-IsCurrent s.blobs (latest (of_project p s.index) []) (of_project p s.index) records h
        (latest-Holds (of_project p s.index) [] empty-Keyed)
