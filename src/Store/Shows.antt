-- ===== src/Store/Shows.antt =====
-- What holds of some entry of pmiri/store.py holds of some entry of a sorted listing.
use mathlib.Core.Path.{subst}
use mathlib.Core.Option.{some-injective}
use ragsistemi.Prelude.{
  Any, String, ◌≡◌, sym, List, [], ◌∷◌, some, ◌==◌, string_eq, Bool-cases, inl, inr,
}
use ragsistemi.Prelude.Dict.{Dict, lookup}
use ragsistemi.Retrieval.{lt_texts}
use ragsistemi.Store
use ragsistemi.Store.{
  Blob, text, other, Entry, Store, entry_key, stamp, sort_entries, of_project, improve, latest,
  values, record_with, record_from, records_of, list_sources,
}

module _ (P : Entry → Type 0) where
  pub Any-values :
      (k : String) (c : Entry) (table : Dict Entry)
      → lookup k table ≡ some c
      → P c
      → Any P (values table)
  unfolding lookup values
  Any-values k c [] h p = cc
  Any-values k c ((j, d) ∷ table) h p = elim (Bool-cases (j == k)) [
    | inl here ↦ inl (subst P (sym (some-injective d c (rw here at h))) p)
    | inr elsewhere ↦ inr (Any-values k c table (rw elsewhere at h) p)
  ]

  Any-insert_entry_new :
      (e : Entry) (entries : List Entry) → P e → Any P (Store.insert_entry e entries)
  unfolding Store.insert_entry
  Any-insert_entry_new e [] p = inl p
  Any-insert_entry_new e (f ∷ entries) p =
      elim (Bool-cases (lt_texts (entry_key f) (entry_key e))) [
        | inl first ↦ rw first (inr (Any-insert_entry_new e entries p))
        | inr last ↦ rw last (inl p)
      ]

  Any-insert_entry :
      (e : Entry) (entries : List Entry) → Any P entries → Any P (Store.insert_entry e entries)
  unfolding Store.insert_entry
  Any-insert_entry e [] h = cc
  Any-insert_entry e (f ∷ entries) h = elim (Bool-cases (lt_texts (entry_key f) (entry_key e))) [
    | inl first ↦ rw first (elim h [ inl p ↦ inl p | inr q ↦ inr (Any-insert_entry e entries q) ])
    | inr last ↦ rw last (inr h)
  ]

  pub Any-sort_entries : (entries : List Entry) → Any P entries → Any P (sort_entries entries)
  unfolding sort_entries
  Any-sort_entries [] h = h
  Any-sort_entries (e ∷ entries) (inl p) = Any-insert_entry_new e (sort_entries entries) p
  Any-sort_entries (e ∷ entries) (inr q) =
      Any-insert_entry e (sort_entries entries) (Any-sort_entries entries q)
