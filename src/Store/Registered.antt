-- ===== src/Store/Registered.antt =====
-- What is registered with the store of pmiri/store.py is found.
use package.text.Mathlib.TextLemmas.{append_cancel_left, append_cancel_right}
use ragsistemi.Prelude.{
  concat, sym, String, Bool, true, false, ◌&&◌, ◌||◌, ◌≡◌, refl, ap, ◌∙◌, List, [], ◌∷◌, ◌++◌, All,
  Option, none, some, ◌==◌, string_eq, Bool-cases, inl, inr, arith, Result, ok, bind-eq-ok,
  ok_injective,
}
use ragsistemi.Prelude.Dict.{Dict, lookup}
use ragsistemi.Host.{Host}
use ragsistemi.Models.Evidence.{SourceRecord}
use ragsistemi.Retrieval.{lt_texts}
use ragsistemi.Store
use ragsistemi.Store.{
  Blob, text, other, Entry, Store, entry_key, sort_entries, of_project, record_with, record_from,
  records_of, list_sources, get_source, stored, entry_of, register_bytes, has_version,
}
use ragsistemi.Store.Shown.{All-sort_entries}
use ragsistemi.Store.Sound.{IsSound, IsVersioned, stored-IsSound, list_sources-returns}
use ragsistemi.Store.Listed.{record_from-IsStored}

text_same : (s t : String) → (s == t) ≡ true → s ≡ t
text_same s t h = ground arith

version-injective : (a b : String) → concat ("ver_" ∷ a ∷ []) ≡ concat ("ver_" ∷ b ∷ []) → a ≡ b
unfolding concat
version-injective a b h = append_cancel_right a b "" (append_cancel_left "ver_" _ _ h)

module _ (host : Host) where
  has_record : String → String → List SourceRecord → Bool
  has_record i v [] = false
  has_record i v (r ∷ records) = r.source_id == i && r.version_id == v || has_record i v records

  records_of-has_record :
      (blobs : Dict Blob) (entries : List Entry) (records : List SourceRecord) (i v : String)
      → records_of host blobs entries ≡ ok records
      → has_record i v records ≡ has_version i v entries
  unfolding records_of has_record has_version
  records_of-has_record blobs [] records i v h = rw (← ok_injective h) refl
  records_of-has_record blobs (e ∷ entries) records i v h =
      let (r, first, h1) =
        bind-eq-ok (record_from host e (lookup e.content_fingerprint blobs)) _ h in
      let (rest, later, h2) = bind-eq-ok (records_of host blobs entries) _ h1 in
      let w = record_from-IsStored host blobs e (lookup e.content_fingerprint blobs) r refl first in
      rw (← ok_injective h2)
        (rw (w.2, w.3, records_of-has_record blobs entries rest i v later) refl)

  has_version-insert_entry :
      (i v : String) (e : Entry) (entries : List Entry)
      → has_version i v (Store.insert_entry e entries)
        ≡ (Store.is_version i v e || has_version i v entries)
  unfolding has_version Store.insert_entry
  has_version-insert_entry i v e [] = refl
  has_version-insert_entry i v e (f ∷ entries) =
      elim (Bool-cases (lt_texts (entry_key f) (entry_key e))) [
        | inl first ↦ rw (first, has_version-insert_entry i v e entries) (ground arith)
        | inr last ↦ rw last refl
      ]

  has_version-sort_entries :
      (i v : String) (entries : List Entry)
      → has_version i v (sort_entries entries) ≡ has_version i v entries
  unfolding sort_entries has_version
  has_version-sort_entries i v [] = refl
  has_version-sort_entries i v (e ∷ entries) =
      rw
        (
          has_version-insert_entry i v e (sort_entries entries),
          has_version-sort_entries i v entries,
        )
        refl

  has_version-snoc :
      (i v : String) (entries : List Entry) (e : Entry)
      → Store.is_version i v e ≡ true
      → has_version i v (entries ++ e ∷ []) ≡ true
  unfolding has_version
  has_version-snoc i v [] e h = rw h refl
  has_version-snoc i v (f ∷ entries) e h = rw (has_version-snoc i v entries e h) (ground arith)

  own_version : (e : Entry) → Store.is_version e.source_id e.version_id e ≡ true
  unfolding Store.is_version
  own_version e = ground arith

  stored-has_version :
      (e : Entry) (content : String) (s : Store)
      → has_version e.source_id e.version_id (stored host e content s).index ≡ true
  unfolding stored
  stored-has_version e content s =
      elim (Bool-cases (has_version e.source_id e.version_id s.index)) [
        | inl old ↦ rw old old
        | inr fresh ↦ rw fresh (
            rw (has_version-sort_entries e.source_id e.version_id (s.index ++ e ∷ []))
              (has_version-snoc e.source_id e.version_id s.index e (own_version e)))
      ]

  find_found :
      (P : SourceRecord → Type 0) (i v : String) (records : List SourceRecord)
      → All P records
      → has_record i v records ≡ true
      → (q : SourceRecord) × (Store.find_version host i (some v) records ≡ ok q)
        × (q.source_id ≡ i)
        × (q.version_id ≡ v)
        × P q
  unfolding Store.find_version has_record
  find_found P i v [] w h = cc
  find_found P i v (r ∷ records) w h = elim (Bool-cases (r.source_id == i && r.version_id == v)) [
    | inl here ↦ (r, rw here refl, ground (arith, here), ground (arith, here), w.0)
    | inr elsewhere ↦
        (let (q, found, same, also, kept) =
            find_found P i v records w.1 (ground (arith, elsewhere, h)) in
          (q, rw elsewhere found, same, also, kept))
  ]

  -- a record whose version is named by the digest of its content
  abbrev IsNamed : SourceRecord → Type 0
  IsNamed r = r.version_id ≡ concat ("ver_" ∷ host.sha256 r.content ∷ [])

  record_from-IsNamed :
      (e : Entry) (b : Option Blob) (r : SourceRecord)
      → record_from host e b ≡ ok r
      → IsVersioned e
      → IsNamed r
  unfolding record_from record_with
  record_from-IsNamed e none r h v = cc
  record_from-IsNamed e (some (other d)) r h v = cc
  record_from-IsNamed e (some (text s)) r h v =
      elim (Bool-cases (host.sha256 s == e.content_fingerprint)) [
        | inl same ↦
            rw (← ok_injective (rw same at h))
              (rw (text_same (host.sha256 s) e.content_fingerprint same) v)
        | inr differs ↦ cc (rw differs at h)
      ]

  records_of-IsNamed :
      (blobs : Dict Blob) (entries : List Entry) (records : List SourceRecord)
      → records_of host blobs entries ≡ ok records
      → All IsVersioned entries
      → All IsNamed records
  unfolding records_of
  records_of-IsNamed blobs [] records h v = rw (← ok_injective h) tt
  records_of-IsNamed blobs (e ∷ entries) records h v =
      let (r, first, h1) =
        bind-eq-ok (record_from host e (lookup e.content_fingerprint blobs)) _ h in
      let (rest, later, h2) = bind-eq-ok (records_of host blobs entries) _ h1 in
      rw (← ok_injective h2) (
        record_from-IsNamed e (lookup e.content_fingerprint blobs) r first v.0,
        records_of-IsNamed blobs entries rest later v.1,
      )

  shown :
      (s : Store) (records : List SourceRecord)
      → list_sources host s none true ≡ ok records
      → records_of host s.blobs (sort_entries s.index) ≡ ok records
  unfolding list_sources of_project Store.chosen
  shown s records h = h

  get_source-found :
      (s : Store) (i fingerprint : String)
      → IsSound host s
      → has_version i (concat ("ver_" ∷ fingerprint ∷ [])) s.index ≡ true
      → (q : SourceRecord) × (get_source host s i (some (concat ("ver_" ∷ fingerprint ∷ [])))
          ≡ ok q)
        × (q.source_id ≡ i)
        × (host.sha256 q.content ≡ fingerprint)
  unfolding get_source
  get_source-found s i fingerprint w there =
      let v = concat ("ver_" ∷ fingerprint ∷ []) in
      let (records, listed) = list_sources-returns host s none true w in
      let named =
        records_of-IsNamed s.blobs _ records (shown s records listed)
          (All-sort_entries IsVersioned s.index w.versioned) in
      let counted = records_of-has_record s.blobs _ records i v (shown s records listed) in
      let (q, found, same, also, is_named) =
        find_found IsNamed i v records named
          (counted ∙ has_version-sort_entries i v s.index ∙ there) in
      (q, rw listed found, same, version-injective _ _ (sym is_named ∙ also))

  -- What is registered with a sound store is found: the source and the version of the record that
  -- `register_bytes` gives are those of a record that `get_source` then gives, of that source, and the
  -- contents of the two have the same digest.
  pub get_source-register_bytes :
      (project_id source_name : String) (raw capture_time : Option String) (wall : String)
      (metadata : Dict String) (s s' : Store) (r : SourceRecord)
      → IsSound host s
      → register_bytes host project_id source_name raw capture_time wall metadata s ≡ (ok r, s')
      → (q : SourceRecord) × (get_source host s' r.source_id (some r.version_id) ≡ ok q)
        × (q.source_id ≡ r.source_id)
        × (host.sha256 q.content ≡ host.sha256 r.content)
  unfolding register_bytes entry_of record_with Store.source_id_of
  get_source-register_bytes project_id source_name none capture_time wall metadata s s' r w h =
      elim (Bool-cases (Store.bad_identity project_id source_name)) [
        | inl bad ↦ cc (ap (λ (p : Result SourceRecord × Store). p.0) (rw bad at h))
        | inr good ↦ cc (ap (λ (p : Result SourceRecord × Store). p.0) (rw good at h))
      ]
  get_source-register_bytes project_id source_name (some raw) capture_time wall metadata s s' r w
        h =
      elim (Bool-cases (Store.bad_identity project_id source_name)) [
        | inl bad ↦ cc (ap (λ (p : Result SourceRecord × Store). p.0) (rw bad at h))
        | inr good ↦
            (let content = Store.normalize_text raw in
              let e = entry_of host project_id source_name content capture_time wall metadata in
              let h' = rw good at h in
              let made = ok_injective (ap (λ (p : Result SourceRecord × Store). p.0) h') in
              let left_ = ap (λ (p : Result SourceRecord × Store). p.1) h' in
              rw (← made, ← left_)
                (get_source-found (stored host e content s) e.source_id (host.sha256 content)
                  (stored-IsSound host e content s refl refl w) (stored-has_version e content s)))
      ]
