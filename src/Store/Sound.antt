-- ===== src/Store/Sound.antt =====
-- The store of pmiri/store.py keeps every entry readable.
use ragsistemi.Prelude.{
  concat, String, Bool, false, ◌≡◌, refl, sym, List, [], ◌∷◌, ◌++◌, All, Option, none, some, ◌==◌,
  string_eq, Bool-cases, inl, inr, arith, ok,
}
use ragsistemi.Prelude.Dict.{Dict, lookup, insert, lookup-insert}
use ragsistemi.Host.{Host}
use ragsistemi.Models.Evidence.{SourceRecord}
use ragsistemi.Store
use ragsistemi.Store.{
  Blob, text, other, Entry, Store, entry_key, sort_entries, of_project, improve, latest, values,
  chosen, record_with, record_from, records_of, list_sources, write_blob, entry_of, stored,
  register_bytes, has_version,
}
use ragsistemi.Store.Shown.{All-sort_entries, All-shown}

-- a version is named by the fingerprint of its content
abbrev pub IsVersioned : Entry → Type 0
IsVersioned e = e.version_id ≡ concat ("ver_" ∷ e.content_fingerprint ∷ [])

module _ (host : Host) where
  -- The blob of an entry is there, and is a text with the entry's fingerprint.
  pub record IsReadable (blobs : Dict Blob) (e : Entry) : Type 0 where
    pub content : String
    pub there : lookup e.content_fingerprint blobs ≡ some (text content)
    pub digest : host.sha256 content ≡ e.content_fingerprint

  -- Every entry is readable and has the version of its fingerprint, and no file of another kind of
  -- bytes has the digest of its name.
  pub record IsSound (s : Store) : Type 0 where
    pub readable : All (IsReadable s.blobs) s.index
    pub versioned : All IsVersioned s.index
    pub sealed : (k d : String) → lookup k s.blobs ≡ some (other d) → (d == k) ≡ false

  record_from-IsReadable :
      (blobs : Dict Blob) (e : Entry) (w : IsReadable blobs e)
      → record_from host e (lookup e.content_fingerprint blobs) ≡ ok (record_with e w.content)
  unfolding record_from
  record_from-IsReadable blobs e w = rw w.there (ground (arith, w.digest))

  records_of-returns :
      (blobs : Dict Blob) (entries : List Entry)
      → All (IsReadable blobs) entries
      → (records : List SourceRecord) × (records_of host blobs entries ≡ ok records)
  unfolding records_of
  records_of-returns blobs [] h = ([], refl)
  records_of-returns blobs (e ∷ entries) h =
      let (records, later) = records_of-returns blobs entries h.1 in
      (record_with e h.0.content ∷ records, rw (record_from-IsReadable blobs e h.0, later) refl)

  written :
      (fp content : String) (blobs : Dict Blob) (e : Entry)
      → host.sha256 content ≡ fp
      → IsReadable blobs e
      → IsReadable (insert fp (text content) blobs) e
  written fp content blobs e same w = elim (Bool-cases (fp == e.content_fingerprint)) [
    | inl own ↦ record {
      content = content;
      there = rw (lookup-insert e.content_fingerprint fp (text content) blobs, own) refl;
      digest = ground (arith, same, own);
    }
    | inr differs ↦ record {
      content = w.content;
      there = rw (lookup-insert e.content_fingerprint fp (text content) blobs, differs) w.there;
      digest = w.digest;
    }
  ]

  write_blob-IsReadable :
      (fp content : String) (blobs : Dict Blob) (b : Option Blob) (e : Entry)
      → host.sha256 content ≡ fp
      → IsReadable blobs e
      → IsReadable (write_blob host fp content blobs b) e
  unfolding write_blob
  write_blob-IsReadable fp content blobs none e same w = written fp content blobs e same w
  write_blob-IsReadable fp content blobs (some b) e same w =
      elim (Bool-cases (Store.digest_of host b == fp)) [
        | inl kept ↦ rw kept w
        | inr replaced ↦ rw replaced (written fp content blobs e same w)
      ]

  -- the entry that is new is readable
  new_blob :
      (content : String) (blobs : Dict Blob) (b : Option Blob) (e : Entry)
      → e.content_fingerprint ≡ host.sha256 content
      → lookup e.content_fingerprint blobs ≡ b
      → ((d : String) → b ≡ some (other d) → (d == e.content_fingerprint) ≡ false)
      → IsReadable (write_blob host e.content_fingerprint content blobs b) e
  unfolding write_blob Store.digest_of
  new_blob content blobs none e fp found sealed = record {
    content = content;
    there =
        rw (lookup-insert e.content_fingerprint e.content_fingerprint (text content) blobs)
          (ground arith);
    digest = sym fp;
  }
  new_blob content blobs (some (text s)) e fp found sealed =
      elim (Bool-cases (host.sha256 s == e.content_fingerprint)) [
        | inl kept ↦ rw kept (record { content = s; there = found; digest = ground (arith, kept) })
        | inr replaced ↦ rw replaced (record {
          content = content;
          there =
              rw (lookup-insert e.content_fingerprint e.content_fingerprint (text content) blobs)
                (ground arith);
          digest = sym fp;
        })
      ]
  new_blob content blobs (some (other d)) e fp found sealed = rw (sealed d refl) (record {
    content = content;
    there =
        rw (lookup-insert e.content_fingerprint e.content_fingerprint (text content) blobs)
          (ground arith);
    digest = sym fp;
  })

  written-sealed :
      (fp content : String) (blobs : Dict Blob)
      → ((k d : String) → lookup k blobs ≡ some (other d) → (d == k) ≡ false)
      → (k d : String) → lookup k (insert fp (text content) blobs) ≡ some (other d)
      → (d == k) ≡ false
  written-sealed fp content blobs sealed k d h = elim (Bool-cases (fp == k)) [
    | inl own ↦ cc (lookup-insert k fp (text content) blobs, own, h)
    | inr differs ↦ sealed k d (ground (arith, lookup-insert k fp (text content) blobs, differs, h))
  ]

  write_blob-sealed :
      (fp content : String) (blobs : Dict Blob) (b : Option Blob)
      → ((k d : String) → lookup k blobs ≡ some (other d) → (d == k) ≡ false)
      → (k d : String) → lookup k (write_blob host fp content blobs b) ≡ some (other d)
      → (d == k) ≡ false
  unfolding write_blob
  write_blob-sealed fp content blobs none sealed = written-sealed fp content blobs sealed
  write_blob-sealed fp content blobs (some b) sealed =
      elim (Bool-cases (Store.digest_of host b == fp)) [
        | inl kept ↦ rw kept sealed
        | inr replaced ↦ rw replaced (written-sealed fp content blobs sealed)
      ]

  All-snoc :
      (P : Entry → Type 0) (entries : List Entry) (e : Entry)
      → All P entries
      → P e
      → All P (entries ++ e ∷ [])
  All-snoc P [] e h p = (p, tt)
  All-snoc P (f ∷ entries) e h p = (h.0, All-snoc P entries e h.1 p)

  All-IsReadable :
      (fp content : String) (blobs : Dict Blob) (b : Option Blob) (entries : List Entry)
      → host.sha256 content ≡ fp
      → All (IsReadable blobs) entries
      → All (IsReadable (write_blob host fp content blobs b)) entries
  All-IsReadable fp content blobs b [] same h = tt
  All-IsReadable fp content blobs b (e ∷ entries) same h = (
    write_blob-IsReadable fp content blobs b e same h.0,
    All-IsReadable fp content blobs b entries same h.1,
  )

  pub stored-IsSound :
      (e : Entry) (content : String) (s : Store)
      → e.content_fingerprint ≡ host.sha256 content
      → IsVersioned e
      → IsSound s
      → IsSound (stored host e content s)
  unfolding stored
  stored-IsSound e content s fp v w =
      elim (Bool-cases (has_version e.source_id e.version_id s.index)) [
        | inl old ↦ rw old w
        | inr fresh ↦ rw fresh (record {
          readable = All-sort_entries _ _ (
              All-snoc _ s.index e
                (All-IsReadable e.content_fingerprint content s.blobs
                  (lookup e.content_fingerprint s.blobs) s.index (sym fp) w.readable)
                (new_blob content s.blobs (lookup e.content_fingerprint s.blobs) e fp refl
                  (λ d there. w.sealed e.content_fingerprint d there)));
          versioned = All-sort_entries _ _ (All-snoc _ s.index e w.versioned v);
          sealed =
              write_blob-sealed e.content_fingerprint content s.blobs
                (lookup e.content_fingerprint s.blobs) w.sealed;
        })
      ]

  -- A registration, accepted or not, leaves a store sound.
  pub register_bytes-IsSound :
      (project_id source_name : String) (raw capture_time : Option String) (wall : String)
      (metadata : Dict String) (s : Store)
      → IsSound s
      → IsSound (register_bytes host project_id source_name raw capture_time wall metadata s).1
  unfolding register_bytes entry_of
  register_bytes-IsSound project_id source_name none capture_time wall metadata s w =
      elim (Bool-cases (Store.bad_identity project_id source_name)) [
        | inl bad ↦ rw bad w
        | inr good ↦ rw good w
      ]
  register_bytes-IsSound project_id source_name (some raw) capture_time wall metadata s w =
      elim (Bool-cases (Store.bad_identity project_id source_name)) [
        | inl bad ↦ rw bad w
        | inr good ↦ rw good (stored-IsSound _ _ s refl refl w)
      ]

  -- A sound store lists its sources: no listing raises.
  pub list_sources-returns :
      (s : Store) (project_id : Option String) (history : Bool)
      → IsSound s
      → (records : List SourceRecord) × (list_sources host s project_id history ≡ ok records)
  unfolding list_sources
  list_sources-returns s project_id history w =
      records_of-returns s.blobs _
        (All-shown (IsReadable s.blobs) project_id history s.index w.readable)
