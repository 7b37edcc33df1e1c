-- ===== src/Store/Listed.antt =====
-- What the store of pmiri/store.py lists.
use ragsistemi.Prelude.{
  String, Bool, ◌≡◌, refl, List, [], ◌∷◌, All, Option, none, some, ◌==◌, string_eq, Bool-cases, inl,
  inr, arith, ok, bind-eq-ok, ok_injective,
}
use ragsistemi.Prelude.Dict.{Dict, lookup}
use ragsistemi.Host.{Host}
use ragsistemi.Models.Evidence.{SourceRecord}
use ragsistemi.Store.{
  Blob, text, other, Entry, Store, of_project, record_with, record_from, records_of, list_sources,
}
use ragsistemi.Store.Shown.{All-sort_entries, All-chosen}

-- the project that was asked for, where one was
abbrev pub IsAsked : Option String → String → Type 0
IsAsked none q = Unit {0}
IsAsked (some p) q = q ≡ p

anything : (entries : List Entry) → All (λ (e : Entry). IsAsked none e.project_id) entries
anything [] = tt
anything (e ∷ entries) = (tt, anything entries)

asked :
    (p : Option String) (entries : List Entry)
    → All (λ (e : Entry). IsAsked p e.project_id) (of_project p entries)
unfolding of_project
asked none entries = anything entries
asked (some p) [] = tt
asked (some p) (e ∷ entries) = elim (Bool-cases (e.project_id == p)) [
  | inl own ↦ rw own (ground (arith, own), asked (some p) entries)
  | inr foreign ↦ rw foreign (asked (some p) entries)
]

module _ (host : Host) where
  -- A record whose content is the stored text of its fingerprint.
  pub record IsStored (blobs : Dict Blob) (r : SourceRecord) : Type 0 where
    pub there : lookup r.content_fingerprint blobs ≡ some (text r.content)
    pub digest : host.sha256 r.content ≡ r.content_fingerprint

  pub record_from-IsStored :
      (blobs : Dict Blob) (e : Entry) (b : Option Blob) (r : SourceRecord)
      → lookup e.content_fingerprint blobs ≡ b
      → record_from host e b ≡ ok r
      → IsStored blobs r
        × (r.project_id ≡ e.project_id)
        × (r.source_id ≡ e.source_id)
        × (r.version_id ≡ e.version_id)
  unfolding record_from record_with
  record_from-IsStored blobs e none r found h = cc
  record_from-IsStored blobs e (some (other d)) r found h = cc
  record_from-IsStored blobs e (some (text s)) r found h =
      elim (Bool-cases (host.sha256 s == e.content_fingerprint)) [
        | inl same ↦
            (let made = ok_injective (rw same at h) in
              rw (← made)
                (record { there = found; digest = ground (arith, same) }, refl, refl, refl))
        | inr differs ↦ cc (rw differs at h)
      ]

  records_of-IsStored :
      (blobs : Dict Blob) (p : Option String) (entries : List Entry) (records : List SourceRecord)
      → All (λ (e : Entry). IsAsked p e.project_id) entries
      → records_of host blobs entries ≡ ok records
      → All (λ (r : SourceRecord). IsStored blobs r × IsAsked p r.project_id) records
  unfolding records_of
  records_of-IsStored blobs p [] records a h = rw (← ok_injective h) tt
  records_of-IsStored blobs p (e ∷ entries) records a h =
      let (r, first, h1) =
        bind-eq-ok (record_from host e (lookup e.content_fingerprint blobs)) _ h in
      let (rest, later, h2) = bind-eq-ok (records_of host blobs entries) _ h1 in
      let w = record_from-IsStored blobs e (lookup e.content_fingerprint blobs) r refl first in
      rw (← ok_injective h2) ((w.0, rw w.1 a.0), records_of-IsStored blobs p entries rest a.1 later)

  -- Every record that is listed is of the project that was asked for, where one was, and its content
  -- is the stored text whose digest is the record's fingerprint.
  pub list_sources-IsStored :
      (s : Store) (p : Option String) (history : Bool) (records : List SourceRecord)
      → list_sources host s p history ≡ ok records
      → All (λ (r : SourceRecord). IsStored s.blobs r × IsAsked p r.project_id) records
  unfolding list_sources
  list_sources-IsStored s p history records h =
      records_of-IsStored s.blobs p _ records
        (All-sort_entries (λ (e : Entry). IsAsked p e.project_id) _
          (All-chosen (λ (e : Entry). IsAsked p e.project_id) history _ (asked p s.index)))
        h
