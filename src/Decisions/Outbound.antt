-- ===== src/Decisions/Outbound.antt =====
-- `validate_outbound_decision` and `decision_fingerprint` of pmiri/decisions.py.
pub mod Allowed
use ragsistemi.Prelude.{
  String, Bool, true, false, not, ◌&&◌, ◌||◌, List, [], ◌∷◌, if◌then◌else◌, ◌==◌, nat_eq, truthy,
  contains, concat, Result, ok, err, contract_violation, ◌>>=◌, ◌>>◌, raise_if,
}
use ragsistemi.Prelude.Int.{ℤ, pos, negsuc}
use ragsistemi.Host.{Host}
use ragsistemi.Canonical.{sha256_json}
use ragsistemi.Canonical.Serial.{
  Json, null, bool, num, str, arr, obj, Items, nil, cons, Fields, field,
}
use ragsistemi.Decisions.{
  operations, purposes, actions, lifecycles, reason_classes, get, without, required_fields, is_text,
  is_digest, raise_unless_in,
}

abbrev pub binding_fields : List String
binding_fields =
    "fetched_content_lifecycle_ref" ∷ "fetched_content_lifecycle_fingerprint"
    ∷ "fetched_content_origin_binding_ref" ∷ "fetched_content_destination_binding_ref"
    ∷ "fetched_content_admission_state" ∷ "fetched_content_retrieval_visibility"
    ∷ "fetched_content_history_terminal_state" ∷ "fetched_content_terminal_response_fingerprint"
    ∷ []

-- what an allowing decision has to show
abbrev pub allow_statuses : List (String × String)
allow_statuses =
    ("tls_identity_status", "MATCHED")
    ∷ ("resolution_set_status", "ALL_ALLOWLISTED_PUBLIC")
    ∷ ("connection_binding_status", "VALIDATED")
    ∷ ("final_revalidation_result", "MATCHED")
    ∷ []

-- `value is None`
unfoldable pub is_none : Json → Bool
is_none null = true
is_none v = false

-- `any(record.get(field) is not None for field in fields)`
unfoldable pub any_given : List String → Fields → Bool
any_given [] r = false
any_given (f ∷ fields) r = not (is_none (get f r)) || any_given fields r

-- `any(record.get(field) is None for field in fields)`
unfoldable pub any_none : List String → Fields → Bool
any_none [] r = false
any_none (f ∷ fields) r = is_none (get f r) || any_none fields r

-- `bool(value)`
unfoldable pub is_truthy : Json → Bool
is_truthy null = false
is_truthy (bool b) = b
is_truthy (num (pos n)) = not (n == 0)
is_truthy (num (negsuc n)) = true
is_truthy (str s) = truthy s
is_truthy (arr nil) = false
is_truthy (arr (cons v rest)) = true
is_truthy (obj Fields.end) = false
is_truthy (obj (field k v rest)) = true

-- `action_result in {"ALLOW", "ALLOW_WITH_CONSTRAINTS"}` of an action that is known
unfoldable pub is_allowing : Json → Bool
is_allowing v = is_text "ALLOW" v || is_text "ALLOW_WITH_CONSTRAINTS" v

-- the loop over the statuses
unfoldable pub check_statuses : List (String × String) → Fields → Result (Unit {0})
check_statuses [] r = ok tt
check_statuses ((key, value) ∷ rest) r = do
  raise_if (not (is_text value (get key r)))
      (contract_violation (concat ("allow_requires_" ∷ key ∷ [])))
  check_statuses rest r

check_vocabulary : Fields → Result (Unit {0})
check_vocabulary r = do
  required_fields r
      ("operation" ∷ "purpose" ∷ "action_result" ∷ "content_lifecycle" ∷ "reason_class" ∷ [])
      "outbound_decision"
  raise_unless_in operations (get "operation" r) "outbound_operation_or_purpose_invalid"
  raise_unless_in purposes (get "purpose" r) "outbound_operation_or_purpose_invalid"
  raise_unless_in reason_classes (get "reason_class" r) "outbound_reason_class_invalid"
  raise_unless_in actions (get "action_result" r) "outbound_vocabulary_invalid"
  raise_unless_in lifecycles (get "content_lifecycle" r) "outbound_vocabulary_invalid"

check_provider_call : Fields → Result (Unit {0})
check_provider_call r = do
  raise_if (not (is_text "NOT_APPLICABLE" (get "content_lifecycle" r)))
      (contract_violation "provider_call_lifecycle_must_be_not_applicable")
  raise_if (any_given binding_fields r)
      (contract_violation "provider_call_lifecycle_binding_forbidden")

check_content_operation : Fields → Result (Unit {0})
check_content_operation r = do
  required_fields r binding_fields "content_operation"
  raise_if (any_none binding_fields r)
      (contract_violation "content_operation_requires_lifecycle_binding")
  raise_if
      (not (is_digest (get "fetched_content_lifecycle_fingerprint" r))
        || not (is_digest (get "fetched_content_terminal_response_fingerprint" r)))
      (contract_violation "content_operation_lifecycle_fingerprint_invalid")
  raise_if (is_text "NOT_APPLICABLE" (get "content_lifecycle" r))
      (contract_violation "content_operation_lifecycle_not_applicable")

-- the lifecycle that the operation asks for
check_operation : Fields → Result (Unit {0})
unfolding check_provider_call check_content_operation
check_operation r =
    if is_text "provider_call" (get "operation" r)
    then check_provider_call r
    else check_content_operation r

check_allowing : Fields → Result (Unit {0})
unfolding check_statuses
check_allowing r =
    if is_allowing (get "action_result" r) then check_statuses allow_statuses r else ok tt

module _ (host : Host) where
  unfoldable pub decision_fingerprint : Fields → String
  decision_fingerprint r =
      sha256_json host (obj (without "captured_at" (without "decision_fingerprint" r)))

  check_fingerprint : Fields → Result (Unit {0})
  check_fingerprint r =
      if is_truthy (get "decision_fingerprint" r)
      then (do
        raise_if (not (is_digest (get "decision_fingerprint" r)))
            (contract_violation "decision_fingerprint_invalid")
        raise_if (not (is_text (decision_fingerprint r) (get "decision_fingerprint" r)))
            (contract_violation "decision_fingerprint_mismatch"))
      else ok tt

  unfoldable pub validate_outbound_decision : Fields → Result (Unit {0})
  unfolding check_vocabulary check_operation check_allowing check_fingerprint
  validate_outbound_decision r = do
    check_vocabulary r
    check_operation r
    check_allowing r
    check_fingerprint r
