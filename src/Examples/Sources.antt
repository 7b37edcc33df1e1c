-- ===== src/Examples/Sources.antt =====
-- Runs of pmiri/store.py on a store of two versions of one source.
use ragsistemi.Host.{Host}
use ragsistemi.Prelude.{
  concat, if◌then◌else◌, String, List, false, ◌≡◌, refl, [], ◌∷◌, All, Any, none, some, ok, ◌==◌,
  string_eq, is_blank, Bool-cases, inl, inr,
}
use ragsistemi.Prelude.Dict.{lookup}
use ragsistemi.Models.{as_dict, normalized}
use ragsistemi.Models.Evidence.{SourceRecord, EvidenceSet}
use ragsistemi.Retrieval.{search_evidence, tokens}
use ragsistemi.Store.{
  Blob, text, Entry, Store, of_project, list_sources, get_source, record_with, register_bytes,
  entry_of, stored, normalize_text,
}
use ragsistemi.Store.Latest.{IsCurrent, list_sources-IsCurrent}
use ragsistemi.Store.Registered.{get_source-register_bytes}
use ragsistemi.Store.Searched.{IsHit, search-stored}
use ragsistemi.Store.Sound.{IsSound, register_bytes-IsSound, list_sources-returns}
use ragsistemi.Examples.Hosts.{hex_host, digest}
use ragsistemi.Examples.Reads.{letters}
use ragsistemi.Auth.Service.Calls.Inputs.{request}

abbrev second_digest : String
second_digest = "00000000000000000000000000000000000000000000000000000000000000fe"

-- a host that tells the text of the first version from others
abbrev two_host : Host
two_host = record hex_host { sha256 = λ s. if s == "red apple" then digest else second_digest }

abbrev entry : String → String → Entry
entry fingerprint time = record {
  source_id = "src_1";
  version_id = concat ("ver_" ∷ fingerprint ∷ []);
  project_id = "p1";
  source_name = "notes.md";
  content_fingerprint = fingerprint;
  capture_time = time;
  metadata = [];
}

abbrev store : Store
store = record {
  index = entry second_digest "2026-01-02" ∷ entry digest "2026-01-01" ∷ [];
  blobs = (digest, text "red apple") ∷ (second_digest, text "what is") ∷ [];
}

store_sealed : (k d : String) → lookup k store.blobs ≡ some (Blob.other d) → (d == k) ≡ false
unfolding lookup
store_sealed k d h = elim (Bool-cases (digest == k)) [
  | inl first ↦ cc (rw first at h)
  | inr n ↦ elim (Bool-cases (second_digest == k)) [
    | inl second ↦ cc (rw (n, second) at h)
    | inr m ↦ cc (rw (n, m) at h)
  ]
]

store-IsSound : IsSound two_host store
unfolding lookup string_eq
store-IsSound = record {
  readable = (
    record { content = "what is"; there = refl; digest = refl },
    (record { content = "red apple"; there = refl; digest = refl }, tt),
  );
  versioned = (refl, (refl, tt));
  sealed = store_sealed;
}

request_formed : normalized request ≡ ok (as_dict request)
unfolding normalized is_blank
request_formed = refl

search-stored_example :
    (e : EvidenceSet) × (records : List SourceRecord) × (search_evidence two_host letters
        (λ p. list_sources two_host store (some p) false)
        request
      ≡ ok e)
    × (list_sources two_host store (some request.project_constraint) false ≡ ok records)
    × All (IsHit two_host letters request records) e.items
unfolding tokens
search-stored_example =
    search-stored two_host letters store request (as_dict request) store-IsSound request_formed refl

register_bytes-IsSound_example :
    IsSound two_host (register_bytes two_host "p1" "a.md" (some "pear") none "now" [] store).1
register_bytes-IsSound_example =
    register_bytes-IsSound two_host "p1" "a.md" (some "pear") none "now" [] store store-IsSound

abbrev registered : SourceRecord
registered = record (record_with (entry_of two_host "p1" "a.md" "pear" none "now" []) "pear") {
  metadata = [];
}

accepted : register_bytes two_host "p1" "a.md" (some "pear") none "now" [] store ≡ (
  ok registered,
  stored two_host (entry_of two_host "p1" "a.md" "pear" none "now" []) "pear" store,
)
unfolding register_bytes string_eq normalize_text
accepted = refl

get_source-register_bytes_example :
    (q : SourceRecord) × (get_source two_host
        (stored two_host (entry_of two_host "p1" "a.md" "pear" none "now" []) "pear" store)
        registered.source_id
        (some registered.version_id)
      ≡ ok q)
    × (q.source_id ≡ registered.source_id)
    × (two_host.sha256 q.content ≡ two_host.sha256 registered.content)
get_source-register_bytes_example =
    get_source-register_bytes two_host "p1" "a.md" (some "pear") none "now" [] store _ registered
      store-IsSound accepted

list_sources-IsCurrent_example :
    All
      (λ (e : Entry).
        Any (IsCurrent e) (list_sources-returns two_host store (some "p1") false store-IsSound).0)
      (of_project (some "p1") store.index)
list_sources-IsCurrent_example =
    list_sources-IsCurrent two_host store (some "p1")
      (list_sources-returns two_host store (some "p1") false store-IsSound).0
      (list_sources-returns two_host store (some "p1") false store-IsSound).1
