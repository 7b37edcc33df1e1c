-- ===== src/Store.antt =====
-- `LocalStore` of pmiri/store.py: the index and the blobs as one state that each call takes and
-- gives back, and `normalize_text` of pmiri/canonical.py. Paths are those of POSIX.
mod Shown
pub mod Shows
pub mod Sound
pub mod Listed
pub mod Searched
pub mod Registered
pub mod Latest
use ragsistemi.Prelude.{
  ℕ, String, Bool, true, false, not, ◌&&◌, ◌||◌, List, [], ◌∷◌, ◌++◌, Option, none, some,
  if◌then◌else◌, ◌==◌, string_eq, nat_eq, contains, truthy, concat, take_chars, split_at, Result,
  ok, err, value_error, key_error, ◌>>=◌, raise_if,
}
use Prim.Native.String
use Prim.Native.Char.{Char, code}
use ragsistemi.Prelude.Dict.{Dict, lookup, insert}
use ragsistemi.Prelude.Order.{lt_text}
use ragsistemi.Host.{Host}
use ragsistemi.Canonical.{sha256_json}
use ragsistemi.Canonical.Serial.{str, object}
use ragsistemi.Models.Evidence.{SourceRecord}
use ragsistemi.Auth.Service.{now_or}
use ragsistemi.Retrieval.{lt_texts}

-- The bytes of a file: UTF-8 of a text, or no UTF-8, of which the digest is kept.
pub data Blob : Type 0 where
  text : String → Blob
  other : String → Blob

-- an entry of `index["sources"]`, as `public_dict` makes it
pub record Entry : Type 0 where
  pub source_id : String
  pub version_id : String
  pub project_id : String
  pub source_name : String
  pub content_fingerprint : String
  pub capture_time : String
  pub metadata : Dict String

-- `blobs` are the files `<fingerprint>.txt`
pub record Store : Type 0 where
  pub index : List Entry
  pub blobs : Dict Blob

abbrev pub entry_key : Entry → List String
entry_key e = e.project_id ∷ e.source_id ∷ e.version_id ∷ []

-- what tells the later of two versions
abbrev pub stamp : Entry → List String
stamp e = e.capture_time ∷ e.version_id ∷ []

insert_entry : Entry → List Entry → List Entry
insert_entry e [] = e ∷ []
insert_entry e (f ∷ entries) =
    let rest = insert_entry e entries in
    if lt_texts (entry_key f) (entry_key e) then f ∷ rest else e ∷ f ∷ entries

-- `sort(key=...)`, which is stable
unfoldable pub sort_entries : List Entry → List Entry
unfolding insert_entry
sort_entries [] = []
sort_entries (e ∷ entries) = insert_entry e (sort_entries entries)

insert_pair : String → String → Dict String → Dict String
insert_pair k v [] = (k, v) ∷ []
insert_pair k v ((j, w) ∷ pairs) =
    let rest = insert_pair k v pairs in
    if lt_text j k then (j, w) ∷ rest else (k, v) ∷ (j, w) ∷ pairs

-- `dict(sorted(metadata.items()))`
unfoldable pub sorted_pairs : Dict String → Dict String
unfolding insert_pair
sorted_pairs [] = []
sorted_pairs ((k, v) ∷ pairs) = insert_pair k v (sorted_pairs pairs)

-- whether a text starts with a character
starts_with : ℕ → String → Bool
unfolding nat_eq
starts_with n String.[] = false
starts_with n (String.◌∷◌ c s) = code c == n

-- `text.replace("\r\n", "\n").replace("\r", "\n")`
unfoldable pub normalize_text : String → String
unfolding starts_with nat_eq
normalize_text String.[] = String.[]
normalize_text (String.◌∷◌ c s) =
    let rest = normalize_text s in
    if code c == 13
    then if starts_with 10 s then rest else String.◌∷◌ "\n" rest
    else String.◌∷◌ c rest

-- `source_name.replace("\\", "/")`
unfoldable pub slashed : String → String
unfolding nat_eq
slashed String.[] = String.[]
slashed (String.◌∷◌ c s) =
    let rest = slashed s in if code c == b'\\' then String.◌∷◌ "/" rest else String.◌∷◌ c rest

-- the test of `source_identity_invalid`, with `Path.is_absolute` and `Path.parts` of POSIX
unfoldable pub bad_identity : String → String → Bool
unfolding starts_with split_at
bad_identity project_id source_name =
    not (truthy project_id)
    || not (truthy source_name)
    || starts_with b'/' source_name
    || contains (split_at b'/' source_name) ".."

is_version : String → String → Entry → Bool
is_version source_id version_id e = e.source_id == source_id && e.version_id == version_id

unfoldable pub has_version : String → String → List Entry → Bool
unfolding is_version
has_version source_id version_id [] = false
has_version source_id version_id (e ∷ entries) =
    is_version source_id version_id e || has_version source_id version_id entries

-- the entries of a project, or all
unfoldable pub of_project : Option String → List Entry → List Entry
of_project none entries = entries
of_project (some p) [] = []
of_project (some p) (e ∷ entries) =
    let rest = of_project (some p) entries in if e.project_id == p then e ∷ rest else rest

-- `latest[key] = item`, where the item is the first of its source or later than the one there
unfoldable pub improve : Entry → Option Entry → Dict Entry → Dict Entry
improve e none table = insert e.source_id e table
improve e (some current) table =
    if lt_texts (stamp current) (stamp e) then insert e.source_id e table else table

unfoldable pub latest : List Entry → Dict Entry → Dict Entry
unfolding improve
latest [] table = table
latest (e ∷ entries) table = latest entries (improve e (lookup e.source_id table) table)

-- `list(table.values())`
unfoldable pub values : Dict Entry → List Entry
values [] = []
values ((k, e) ∷ table) = e ∷ values table

unfoldable pub chosen : Bool → List Entry → List Entry
unfolding latest values
chosen true entries = entries
chosen false entries = values (latest entries [])

unfoldable pub record_with : Entry → String → SourceRecord
record_with e content = record {
  source_id = e.source_id;
  version_id = e.version_id;
  project_id = e.project_id;
  source_name = e.source_name;
  content_fingerprint = e.content_fingerprint;
  content = content;
  capture_time = e.capture_time;
  metadata = e.metadata;
}

module _ (host : Host) where
  digest_of : Blob → String
  digest_of (text s) = host.sha256 s
  digest_of (other d) = d

  -- `LocalStore._source_id`
  unfoldable pub source_id_of : String → String → String
  unfolding concat take_chars
  source_id_of project_id source_name =
      let digest =
        sha256_json host
          (object (("project_id", str project_id) ∷ ("source_name", str source_name) ∷ [])) in
      concat ("src_" ∷ take_chars 32 digest ∷ [])

  -- `_record_from_dict`, on the blob that it reads
  unfoldable pub record_from : Entry → Option Blob → Result SourceRecord
  record_from e (some (text content)) =
      if host.sha256 content == e.content_fingerprint
      then ok (record_with e content)
      else err (value_error "source_blob_fingerprint_mismatch")
  record_from e b = err (value_error "source_blob_missing_or_invalid")

  unfoldable pub records_of : Dict Blob → List Entry → Result (List SourceRecord)
  unfolding record_from
  records_of blobs [] = ok []
  records_of blobs (e ∷ entries) = do
    r ← record_from e (lookup e.content_fingerprint blobs)
    rest ← records_of blobs entries
    ok (r ∷ rest)

  -- `list_sources`
  unfoldable pub list_sources : Store → Option String → Bool → Result (List SourceRecord)
  unfolding records_of sort_entries chosen of_project
  list_sources s project_id include_history =
      records_of s.blobs (sort_entries (chosen include_history (of_project project_id s.index)))

  find_version : String → Option String → List SourceRecord → Result SourceRecord
  find_version source_id version_id [] = err (key_error "source_not_found")
  find_version source_id none (r ∷ records) =
      let rest = find_version source_id none records in
      if r.source_id == source_id then ok r else rest
  find_version source_id (some v) (r ∷ records) =
      let rest = find_version source_id (some v) records in
      if r.source_id == source_id && r.version_id == v then ok r else rest

  -- `get_source`
  unfoldable pub get_source : Store → String → Option String → Result SourceRecord
  unfolding find_version
  get_source s source_id version_id = do
    records ← list_sources s none true
    find_version source_id version_id records

  -- the blob is written where there is none, or one of another digest
  unfoldable pub write_blob : String → String → Dict Blob → Option Blob → Dict Blob
  unfolding digest_of
  write_blob fingerprint content blobs none = insert fingerprint (text content) blobs
  write_blob fingerprint content blobs (some b) =
      if digest_of b == fingerprint then blobs else insert fingerprint (text content) blobs

  unfoldable pub entry_of :
      (project_id source_name content : String) (capture_time : Option String) (wall : String)
      (metadata : Dict String)
      → Entry
  unfolding slashed concat sorted_pairs
  entry_of project_id source_name content capture_time wall metadata = record {
    source_id = source_id_of project_id (slashed source_name);
    version_id = concat ("ver_" ∷ host.sha256 content ∷ []);
    project_id = project_id;
    source_name = slashed source_name;
    content_fingerprint = host.sha256 content;
    capture_time = now_or capture_time wall;
    metadata = sorted_pairs metadata;
  }

  -- what is stored under the lock
  unfoldable pub stored : Entry → String → Store → Store
  unfolding has_version sort_entries write_blob
  stored e content s = if has_version e.source_id e.version_id s.index then s else record {
    index = sort_entries (s.index ++ e ∷ []);
    blobs = write_blob e.content_fingerprint content s.blobs (lookup e.content_fingerprint s.blobs);
  }

  -- `register_bytes`; `raw` is none where the bytes are no UTF-8, which raises a UnicodeDecodeError, a
  -- ValueError whose message is not kept
  unfoldable pub register_bytes :
      (project_id source_name : String) (raw capture_time : Option String) (wall : String)
      (metadata : Dict String)
      → Store
      → Result SourceRecord × Store
  unfolding bad_identity normalize_text entry_of stored
  register_bytes project_id source_name none capture_time wall metadata s =
      if bad_identity project_id source_name
      then (err (value_error "source_identity_invalid"), s)
      else (err (value_error "utf-8"), s)
  register_bytes project_id source_name (some raw) capture_time wall metadata s =
      let content = normalize_text raw in
      let e = entry_of project_id source_name content capture_time wall metadata in
      if bad_identity project_id source_name
      then (err (value_error "source_identity_invalid"), s)
      else (ok (record (record_with e content) { metadata = metadata }), stored e content s)
