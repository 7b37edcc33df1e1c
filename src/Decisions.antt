-- ===== src/Decisions.antt =====
-- The vocabulary of pmiri/decisions.py, and Python's tests on the values of a record, which is a
-- JSON object. `x in some_set` hashes x, so that a list or a dictionary raises a TypeError.
pub mod Lifecycle
pub mod Outbound
pub mod Trust
use ragsistemi.Prelude.{
  ℕ, suc, String, Bool, true, false, not, ◌&&◌, ◌||◌, List, [], ◌∷◌, ◌++◌, Option, none, some,
  if◌then◌else◌, ◌==◌, string_eq, nat_eq, contains, truthy, concat, Result, ok, err, Error,
  contract_violation, type_error, raise_if,
}
use ragsistemi.Prelude.Int.{ℤ, pos, negsuc}
use ragsistemi.Canonical.{is_sha256}
use ragsistemi.Canonical.Serial.{Json, null, bool, num, str, arr, obj, Items, Fields, field}

abbrev pub operations : List String
operations = "provider_call" ∷ "connector_fetch" ∷ "attachment_fetch" ∷ "external_fetch" ∷ []

abbrev pub purposes : List String
purposes =
    "retrieval" ∷ "context_delivery" ∷ "external_fetch" ∷ "attachment_import" ∷ "provider_call" ∷ []

abbrev pub actions : List String
actions =
    "ALLOW" ∷ "ALLOW_WITH_CONSTRAINTS" ∷ "DENY" ∷ "REQUIRE_REVIEW" ∷ "REQUIRE_REVALIDATION"
    ∷ "LOCAL_ONLY" ∷ []

abbrev pub lifecycles : List String
lifecycles =
    "NOT_APPLICABLE" ∷ "QUARANTINED" ∷ "ADMITTED_TYPED_DATA" ∷ "REJECTED" ∷ "DISCARDED" ∷ "ABORTED"
    ∷ []

-- `LEGAL_TRANSITIONS`: a state, the next state, and the event
abbrev pub legal_transitions : List (String × String × String)
legal_transitions =
    ("NOT_APPLICABLE", "QUARANTINED", "FETCH_COMPLETED")
    ∷ ("QUARANTINED", "ADMITTED_TYPED_DATA", "ADMISSION_APPROVED")
    ∷ ("QUARANTINED", "REJECTED", "REJECTED")
    ∷ ("QUARANTINED", "DISCARDED", "DISCARDED")
    ∷ ("QUARANTINED", "ABORTED", "ABORTED")
    ∷ ("ADMITTED_TYPED_DATA", "DISCARDED", "DISCARDED")
    ∷ ("ADMITTED_TYPED_DATA", "ABORTED", "ABORTED")
    ∷ []

abbrev pub reason_classes : List String
reason_classes =
    "NONE" ∷ "AUTHORITY_MISSING" ∷ "AUTHORITY_CONFLICT" ∷ "EXACT_BINDING_MISSING" ∷ "SCOPE_MISMATCH"
    ∷ "POLICY_UNKNOWN" ∷ "POLICY_STALE" ∷ "POLICY_CONTRADICTION" ∷ "STALE_EVIDENCE"
    ∷ "REVOKED_EVIDENCE" ∷ "CLASSIFICATION_MISMATCH" ∷ "MATERIAL_FINGERPRINT_MISMATCH"
    ∷ "CAPABILITY_MISSING" ∷ "CAPABILITY_OUT_OF_SCOPE" ∷ "DESTINATION_NOT_ALLOWLISTED"
    ∷ "CREDENTIAL_SCOPE_INVALID" ∷ "CREDENTIAL_VISIBILITY_RISK" ∷ "URL_INVALID"
    ∷ "UNSUPPORTED_SCHEME" ∷ "PRIVATE_ADDRESS" ∷ "DNS_REBINDING" ∷ "REDIRECT_UNAUTHORIZED"
    ∷ "TLS_IDENTITY_MISMATCH" ∷ "RESOURCE_LIMIT_EXCEEDED" ∷ "CONTENT_TYPE_DISALLOWED"
    ∷ "SEMANTIC_OBLIGATION_UNSATISFIABLE" ∷ "CITATION_INVALID" ∷ "HIDDEN_RETRIEVAL_ATTEMPT"
    ∷ "POLICY_EPOCH_CHANGED" ∷ "TEARDOWN_UNPROVEN" ∷ "UNTRUSTED_EXTERNAL_CONTROL_TEXT"
    ∷ "INTERNAL_CONTRACT_INVALID" ∷ "REVIEW_REQUIRED" ∷ []

-- `record.get(name)`; `record[name]` where the name is known to be there
unfoldable pub get : String → Fields → Json
get name Fields.end = null
get name (field k v rest) = if k == name then v else get name rest

unfoldable pub names : Fields → List String
names Fields.end = []
names (field k v rest) = k ∷ names rest

-- `{key: value for key, value in record.items() if key != name}`
unfoldable pub without : String → Fields → Fields
without name Fields.end = Fields.end
without name (field k v rest) =
    let less = without name rest in if k == name then less else field k v less

-- the words that are not among the names
unfoldable pub missing : List String → List String → List String
missing [] known = []
missing (w ∷ words) known =
    let rest = missing words known in if contains known w then rest else w ∷ rest

join : List String → String
join [] = ""
join (w ∷ []) = w
join (w ∷ v ∷ words) = concat (w ∷ "," ∷ join (v ∷ words) ∷ [])

abbrev pub is_empty : List String → Bool
is_empty [] = true
is_empty (w ∷ words) = false

-- `_required`
unfoldable pub required_fields : Fields → List String → String → Result (Unit {0})
unfolding join missing
required_fields record_ fields label =
    let lacking = missing fields (names record_) in
    raise_if (not (is_empty lacking))
      (contract_violation (concat (label ∷ "_missing:" ∷ join lacking ∷ [])))

-- `set(record) == set(fields)`
unfoldable pub has_exactly : Fields → List String → Bool
has_exactly record_ fields =
    is_empty (missing fields (names record_)) && is_empty (missing (names record_) fields)

-- `value == text`
unfoldable pub is_text : String → Json → Bool
is_text text (str s) = s == text
is_text text v = false

-- `isinstance(value, str) and value`
unfoldable pub is_filled : Json → Bool
is_filled (str s) = truthy s
is_filled v = false

-- `value is True`
unfoldable pub is_true : Json → Bool
is_true (bool b) = b
is_true v = false

-- `value == n` of an int; True and False are 1 and 0
unfoldable pub is_index : ℕ → Json → Bool
is_index n (num (pos m)) = m == n
is_index n (bool true) = n == 1
is_index n (bool false) = n == 0
is_index n v = false

-- `isinstance(value, int) and not isinstance(value, bool) and value >= 0`
unfoldable pub is_size : Json → Bool
is_size (num (pos n)) = true
is_size v = false

unfoldable pub is_digest : Json → Bool
is_digest (str s) = is_sha256 s
is_digest v = false

-- `if value not in words: raise ContractViolation(message)`
unfoldable pub raise_unless_in : List String → Json → String → Result (Unit {0})
raise_unless_in words (str s) message =
    raise_if (not (contains words s)) (contract_violation message)
raise_unless_in words (arr items) message = err (type_error "unhashable type: 'list'")
raise_unless_in words (obj fields) message = err (type_error "unhashable type: 'dict'")
raise_unless_in words v message = err (contract_violation message)
