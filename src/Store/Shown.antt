-- ===== src/Store/Shown.antt =====
-- What holds of every entry of the store's index holds of every entry of a listing.
use ragsistemi.Prelude.{
  String, Bool, true, false, List, [], ◌∷◌, All, Option, none, some, ◌==◌, string_eq, Bool-cases,
  inl, inr,
}
use ragsistemi.Prelude.Dict.{Dict, lookup, insert}
use ragsistemi.Retrieval.{lt_texts}
use ragsistemi.Store
use ragsistemi.Store.{
  Blob, text, other, Entry, Store, entry_key, sort_entries, of_project, improve, latest, values,
  chosen, record_with, record_from, records_of, list_sources, write_blob, entry_of, stored,
  register_bytes, has_version,
}

module _ (P : Entry → Type 0) where
  All-insert_entry :
      (e : Entry) (entries : List Entry)
      → P e
      → All P entries
      → All P (Store.insert_entry e entries)
  unfolding Store.insert_entry
  All-insert_entry e [] p h = (p, tt)
  All-insert_entry e (f ∷ entries) p h = elim (Bool-cases (lt_texts (entry_key f) (entry_key e))) [
    | inl first ↦ rw first (h.0, All-insert_entry e entries p h.1)
    | inr last ↦ rw last (p, h)
  ]

  pub All-sort_entries : (entries : List Entry) → All P entries → All P (sort_entries entries)
  unfolding sort_entries
  All-sort_entries [] h = tt
  All-sort_entries (e ∷ entries) h =
      All-insert_entry e (sort_entries entries) h.0 (All-sort_entries entries h.1)

  All-of_project :
      (p : Option String) (entries : List Entry) → All P entries → All P (of_project p entries)
  unfolding of_project
  All-of_project none entries h = h
  All-of_project (some p) [] h = tt
  All-of_project (some p) (e ∷ entries) h = elim (Bool-cases (e.project_id == p)) [
    | inl own ↦ rw own (h.0, All-of_project (some p) entries h.1)
    | inr foreign ↦ rw foreign (All-of_project (some p) entries h.1)
  ]

  All-insert :
      (k : String) (e : Entry) (table : Dict Entry)
      → P e
      → All P (values table)
      → All P (values (insert k e table))
  unfolding values insert
  All-insert k e [] p h = (p, tt)
  All-insert k e ((j, f) ∷ table) p h = elim (Bool-cases (j == k)) [
    | inl same ↦ rw same (p, h.1)
    | inr differs ↦ rw differs (h.0, All-insert k e table p h.1)
  ]

  All-improve :
      (e : Entry) (current : Option Entry) (table : Dict Entry)
      → P e
      → All P (values table)
      → All P (values (improve e current table))
  unfolding improve
  All-improve e none table p h = All-insert e.source_id e table p h
  All-improve e (some c) table p h = elim (Bool-cases (lt_texts (Store.stamp c) (Store.stamp e))) [
    | inl later ↦ rw later (All-insert e.source_id e table p h)
    | inr kept ↦ rw kept h
  ]

  All-latest :
      (entries : List Entry) (table : Dict Entry)
      → All P entries
      → All P (values table)
      → All P (values (latest entries table))
  unfolding latest
  All-latest [] table h t = t
  All-latest (e ∷ entries) table h t =
      All-latest entries (improve e (lookup e.source_id table) table) h.1
        (All-improve e (lookup e.source_id table) table h.0 t)

  pub All-chosen :
      (history : Bool) (entries : List Entry) → All P entries → All P (chosen history entries)
  unfolding chosen values
  All-chosen true entries h = h
  All-chosen false entries h = All-latest entries [] h tt

  -- What holds of every entry holds of every entry that a listing shows.
  pub All-shown :
      (p : Option String) (history : Bool) (entries : List Entry)
      → All P entries
      → All P (sort_entries (chosen history (of_project p entries)))
  All-shown p history entries h =
      All-sort_entries _ (All-chosen history _ (All-of_project p entries h))
