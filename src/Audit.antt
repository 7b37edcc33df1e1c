-- ===== src/Audit.antt =====
-- pmiri/audit.py: the events of the read boundary, their validation, and the sink. The file of the
-- sink is its text, and `json.loads` is a parameter.
pub mod Valid
mod Entries
mod Single
mod Passed
pub mod Made
use Prim.Native.String
use ragsistemi.Prelude.{
  ℕ, suc, String, Bool, true, false, not, ◌&&◌, ◌||◌, List, [], ◌∷◌, ◌++◌, Option, none, some,
  if◌then◌else◌, ◌==◌, string_eq, leb, contains, truthy, concat, take_chars, split_lines, Result,
  ok, err, Error, audit_error, type_error, ◌>>=◌, ◌>>◌, raise_if,
}
use ragsistemi.Prelude.Int.{ℤ, pos, negsuc, decimal}
use ragsistemi.Host.{Host}
use ragsistemi.Canonical.{sha256_json}
use ragsistemi.Canonical.Serial.{
  Json, null, bool, num, str, arr, obj, Fields, field, object, dict, optional, canonical_json,
}
use ragsistemi.Decisions.{get, names, missing, is_empty, has_exactly, is_text, is_filled, is_digest}
use ragsistemi.Decisions.Outbound.{is_none}
use ragsistemi.Reads.Operations.{read_operations}

-- `ReadAuditEvent`
pub record AuditEvent : Type 0 where
  pub captured_at : String
  pub transport : String
  pub operation : String
  pub outcome : String
  pub status_code : ℤ
  pub projection_fingerprint : Option String
  pub typed_result_fingerprint : Option String
  pub error_code : Option String
  pub event_id : String
  pub event_fingerprint : String

-- `_audit_operation`
unfoldable pub audit_operation : Option String → String
audit_operation none = "unknown"
audit_operation (some operation) =
    if contains read_operations operation then operation else "unknown"

-- the dictionary that is signed
unfoldable pub unsigned :
    (captured_at transport operation outcome : String) (status_code : ℤ)
    (projection_fingerprint typed_result_fingerprint error_code : Option String)
    → List (String × Json)
unsigned captured_at transport operation outcome status_code projection typed error_code =
    ("artifact_type", str "PMIRI_READ_AUDIT_EVENT")
    ∷ ("artifact_version", str "0.1")
    ∷ ("captured_at", str captured_at)
    ∷ ("transport", str transport)
    ∷ ("operation", str operation)
    ∷ ("outcome", str outcome)
    ∷ ("status_code", num status_code)
    ∷ ("projection_fingerprint", optional projection)
    ∷ ("typed_result_fingerprint", optional typed)
    ∷ ("error_code", optional error_code)
    ∷ []

-- `ReadAuditEvent.payload`
unfoldable pub payload : AuditEvent → List (String × Json)
unfolding unsigned
payload e =
    unsigned e.captured_at e.transport e.operation e.outcome e.status_code e.projection_fingerprint
      e.typed_result_fingerprint e.error_code

-- `ReadAuditEvent.structured`
unfoldable pub event_fields : AuditEvent → Fields
unfolding payload
event_fields e = dict (
    payload e ++ ("event_id", str e.event_id) ∷ ("event_fingerprint", str e.event_fingerprint) ∷ [])

-- `captured_at or utc_now()`
unfoldable pub time_or : Option String → String → String
time_or none wall = wall
time_or (some t) wall = if truthy t then t else wall

abbrev pub event_keys : List String
event_keys =
    "artifact_type" ∷ "artifact_version" ∷ "captured_at" ∷ "transport" ∷ "operation" ∷ "outcome"
    ∷ "status_code" ∷ "projection_fingerprint" ∷ "typed_result_fingerprint" ∷ "error_code" ∷ []

abbrev pub required : List String
required = event_keys ++ "event_id" ∷ "event_fingerprint" ∷ []

-- `value in words` of a set, which hashes the value
unfoldable pub in_set : List String → Json → Result Bool
in_set words (str s) = ok (contains words s)
in_set words (arr items) = err (type_error "unhashable type: 'list'")
in_set words (obj fields) = err (type_error "unhashable type: 'dict'")
in_set words v = ok false

-- `value in (*READ_OPERATIONS, "unknown")`
unfoldable pub is_operation : Json → Bool
is_operation (str s) = contains (read_operations ++ "unknown" ∷ []) s
is_operation v = false

-- `isinstance(status, int) and not isinstance(status, bool) and 100 <= status <= 599`
unfoldable pub is_status : Json → Bool
is_status (num (pos n)) = leb 100 n && leb n 599
is_status v = false

-- `event_id != "audit_" + claimed[:32]`, of two texts
unfoldable pub id_differs : Json → Json → Bool
unfolding concat take_chars is_digest
id_differs (str id) (str claimed) =
    is_digest (str claimed) && not (id == concat ("audit_" ∷ take_chars 32 claimed ∷ []))
id_differs id claimed = false

-- `isinstance(event_id, str) and event_id.startswith("audit_")`
unfoldable pub is_event_id : Json → Bool
unfolding take_chars
is_event_id (str id) = take_chars 6 id == "audit_"
is_event_id v = false

-- `{key: event.get(key) for key in ...}`
unfoldable pub picked : List String → Fields → List (String × Json)
picked [] event = []
picked (k ∷ keys) event = (k, get k event) ∷ picked keys event

-- the messages of the tests that hold
unfoldable pub collect : List (Bool × String) → List String
collect [] = []
collect ((b, message) ∷ tests) = let rest = collect tests in if b then message ∷ rest else rest

abbrev is_emitted : Fields → Bool
is_emitted event = is_text "EMITTED" (get "outcome" event)

abbrev is_rejected : Fields → Bool
is_rejected event = not (is_emitted event) && is_text "REJECTED" (get "outcome" event)

module _ (host : Host) where
  -- `ReadAuditEvent.create`
  unfoldable pub create :
      (transport : String) (operation : Option String) (outcome : String) (status_code : ℤ)
      (projection_fingerprint typed_result_fingerprint error_code captured_at : Option String)
      (wall : String)
      → AuditEvent
  unfolding unsigned concat take_chars audit_operation time_or
  create transport operation outcome status_code projection typed error_code captured_at wall =
      let digest = sha256_json host (
        object (
          unsigned (time_or captured_at wall) transport (audit_operation operation) outcome
            status_code projection typed error_code)) in
      record {
        captured_at = time_or captured_at wall;
        transport = transport;
        operation = audit_operation operation;
        outcome = outcome;
        status_code = status_code;
        projection_fingerprint = projection;
        typed_result_fingerprint = typed;
        error_code = error_code;
        event_id = concat ("audit_" ∷ take_chars 32 digest ∷ []);
        event_fingerprint = digest;
      }

  -- `ReadAuditEvent.emitted`
  unfoldable pub emitted :
      (operation projection_fingerprint typed_result_fingerprint : String) (status_code : ℤ)
      (transport : String) (captured_at : Option String) (wall : String)
      → AuditEvent
  unfolding create
  emitted operation projection typed status_code transport captured_at wall =
      create transport (some operation) "EMITTED" status_code (some projection) (some typed) none
        captured_at wall

  -- `ReadAuditEvent.rejected`
  unfoldable pub rejected :
      (operation : Option String) (status_code : ℤ) (error_code transport : String)
      (captured_at : Option String) (wall : String)
      → AuditEvent
  unfolding create
  rejected operation status_code error_code transport captured_at wall =
      create transport operation "REJECTED" status_code none none (some error_code) captured_at wall

  -- the tests of `validate_audit_event`, with what it appends where they hold
  unfoldable pub tests : Fields → Bool → Bool → List (Bool × String)
  unfolding picked
  tests event transport_known outcome_known =
      let projection = get "projection_fingerprint" event in
      let typed = get "typed_result_fingerprint" event in
      let claimed = get "event_fingerprint" event in
      (not (has_exactly event required), "event_shape_invalid")
      ∷ (
        not (is_text "PMIRI_READ_AUDIT_EVENT" (get "artifact_type" event))
            || not (is_text "0.1" (get "artifact_version" event)),
        "event_identity_invalid",
      )
      ∷ (not (is_filled (get "captured_at" event)), "captured_at_invalid")
      ∷ (not transport_known, "transport_invalid")
      ∷ (not (is_operation (get "operation" event)), "operation_invalid")
      ∷ (not outcome_known, "outcome_invalid")
      ∷ (not (is_status (get "status_code" event)), "status_code_invalid")
      ∷ (
        not (is_none projection) && not (is_digest projection),
        "fingerprint_invalid:projection_fingerprint",
      )
      ∷ (
        not (is_none typed) && not (is_digest typed),
        "fingerprint_invalid:typed_result_fingerprint",
      )
      ∷ (
        is_emitted event && (not (is_digest projection) || not (is_digest typed)),
        "emitted_fingerprints_missing",
      )
      ∷ (is_emitted event && not (is_none (get "error_code" event)), "emitted_error_present")
      ∷ (
        is_rejected event && (not (is_none projection) || not (is_none typed)),
        "rejected_fingerprints_present",
      )
      ∷ (
        is_rejected event && not (is_text "REQUEST_REJECTED" (get "error_code" event)),
        "rejected_error_invalid",
      )
      ∷ (not (is_event_id (get "event_id" event)), "event_id_invalid")
      ∷ (
        not (is_digest claimed)
            || not (is_text (sha256_json host (object (picked event_keys event))) claimed),
        "event_fingerprint_mismatch",
      )
      ∷ (id_differs (get "event_id" event) claimed, "event_id_fingerprint_mismatch")
      ∷ []

  -- `validate_audit_event`: the errors
  unfoldable pub validate_audit_event : Fields → Result (List String)
  unfolding tests collect
  validate_audit_event event = do
    transport_known ← in_set ("HTTP_LOOPBACK" ∷ "LOCAL" ∷ []) (get "transport" event)
    outcome_known ← in_set ("EMITTED" ∷ "REJECTED" ∷ []) (get "outcome" event)
    ok (collect (tests event transport_known outcome_known))

  raise_first : String → List String → Result (Unit {0})
  unfolding concat
  raise_first before [] = ok tt
  raise_first before (e ∷ errors) = err (audit_error (concat (before ∷ e ∷ [])))

  -- `JsonlAuditSink.append`, on the text of the file
  unfoldable pub append : AuditEvent → String → Result String
  unfolding raise_first concat
  append e content = do
    errors ← validate_audit_event (event_fields e)
    raise_first "audit_event_invalid:" errors
    ok (concat (content ∷ canonical_json (obj (event_fields e)) ∷ "\n" ∷ []))

  numbered : String → ℕ → String
  unfolding concat decimal
  numbered message number = concat (message ∷ ":" ∷ decimal (pos number) ∷ [])

  -- one line of the file; `loads` answers none for a JSONDecodeError
  read_line : ℕ → Option Json → Result Fields
  unfolding numbered raise_first concat
  read_line number none = err (audit_error (numbered "audit_line_invalid" number))
  read_line number (some (obj event)) = do
    errors ← validate_audit_event event
    raise_first (concat (numbered "audit_line_invalid" number ∷ ":" ∷ [])) errors
    ok event
  read_line number (some v) = err (audit_error (numbered "audit_line_shape_invalid" number))

  read_lines : (String → Option Json) → ℕ → List String → Result (List Fields)
  unfolding read_line
  read_lines loads number [] = ok []
  read_lines loads number (line ∷ lines) = do
    event ← read_line number (loads line)
    rest ← read_lines loads (suc number) lines
    ok (event ∷ rest)

  -- `JsonlAuditSink.read_verified`, of a file that can be read, or of none
  unfoldable pub read_verified : (String → Option Json) → Option String → Result (List Fields)
  unfolding read_lines split_lines
  read_verified loads none = ok []
  read_verified loads (some content) = read_lines loads 1 (split_lines content)
