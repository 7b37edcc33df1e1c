-- ===== src/Decisions/Lifecycle.antt =====
-- `validate_lifecycle` of pmiri/decisions.py.
pub mod History
pub mod Checked
use ragsistemi.Prelude.{
  ℕ, suc, String, Bool, true, false, not, ◌&&◌, ◌||◌, List, [], ◌∷◌, Option, none, some,
  if◌then◌else◌, ◌==◌, string_eq, ltb, contains, Result, ok, err, Error, contract_violation, ◌>>=◌,
  ◌>>◌, raise_if,
}
use ragsistemi.Host.{Host}
use ragsistemi.Canonical.{sha256_json}
use ragsistemi.Canonical.Serial.{Json, str, arr, obj, Items, nil, cons, Fields}
use ragsistemi.Canonical.Time.{parse_time}
use ragsistemi.Decisions.{
  operations, purposes, lifecycles, legal_transitions, reason_classes, get, names, without, missing,
  is_empty, required_fields, has_exactly, is_text, is_filled, is_true, is_index, is_size, is_digest,
  raise_unless_in,
}

abbrev pub lifecycle_fields : List String
lifecycle_fields =
    "record_type" ∷ "schema_version" ∷ "content_id" ∷ "operation" ∷ "purpose" ∷ "origin_binding_ref"
    ∷ "destination_binding_ref" ∷ "response_fingerprint" ∷ "terminal_response_fingerprint"
    ∷ "observed_content_type" ∷ "response_size_bytes" ∷ "initial_classification" ∷ "trust_state"
    ∷ "history_start_state" ∷ "history_terminal_state" ∷ "admission_state" ∷ "retrieval_visibility"
    ∷ "canonical_or_control_influence_prohibited" ∷ "transitions" ∷ "authority_manifest_fingerprint"
    ∷ "lifecycle_fingerprint" ∷ []

abbrev pub optional_fields : List String
optional_fields = "admission_predicate" ∷ "typed_data_schema_ref" ∷ "typed_data_fingerprint" ∷ []

abbrev pub predicate_fields : List String
predicate_fields =
    "explicit_operation" ∷ "explicit_operation_ref" ∷ "origin_bound" ∷ "parser_result_ref"
    ∷ "classification_ref" ∷ "validation_result_ref" ∷ "content_policy_result_ref"
    ∷ "instruction_influence_prohibited" ∷ "control_influence_prohibited" ∷ []

abbrev pub transition_fields : List String
transition_fields =
    "sequence" ∷ "from_state" ∷ "to_state" ∷ "event" ∷ "observed_at" ∷ "actor_ref" ∷ "reason_class"
    ∷ []

-- the text of a value that was found among words, and the empty text otherwise
unfoldable pub text_of : Json → String
text_of (str s) = s
text_of v = ""

-- `LEGAL_TRANSITIONS[pair] == event`, false where the pair is not there
unfoldable pub is_legal : List (String × String × String) → String → String → Json → Bool
is_legal [] start next event = false
is_legal ((a, b, e) ∷ rest) start next event =
    let later = is_legal rest start next event in
    if a == start && b == next then is_text e event else later

-- whether a name stands in the record
abbrev has : String → Fields → Bool
has name record_ = contains (names record_) name

-- `visibility` for the terminal state
unfoldable pub visibility_of : String → String
visibility_of state =
    if state == "QUARANTINED"
    then "QUARANTINE_ONLY"
    else if state == "ADMITTED_TYPED_DATA"
    then "TYPED_DATA_ONLY"
    else "NONE"

check_identity : Fields → Result (Unit {0})
check_identity r = do
  required_fields r lifecycle_fields "lifecycle"
  raise_if
      (not (is_empty (missing (missing (names r) lifecycle_fields) optional_fields))
        || not (is_text "PMIRI_D2_FETCHED_CONTENT_LIFECYCLE" (get "record_type" r))
        || not (is_text "0.3" (get "schema_version" r)))
      (contract_violation "lifecycle_schema_invalid")
  raise_if
      (not (
        is_filled (get "content_id" r)
        && is_filled (get "origin_binding_ref" r)
        && is_filled (get "destination_binding_ref" r)
        && is_filled (get "observed_content_type" r)
        && is_filled (get "initial_classification" r)))
      (contract_violation "lifecycle_identity_field_invalid")
  raise_unless_in operations (get "operation" r) "lifecycle_operation_or_purpose_invalid"
  raise_unless_in purposes (get "purpose" r) "lifecycle_operation_or_purpose_invalid"

check_states : Fields → Result (Unit {0})
check_states r = do
  raise_if (not (is_text "NOT_APPLICABLE" (get "history_start_state" r)))
      (contract_violation "lifecycle_state_invalid")
  raise_unless_in lifecycles (get "history_terminal_state" r) "lifecycle_state_invalid"
  raise_if (not (is_text (text_of (get "history_terminal_state" r)) (get "admission_state" r)))
      (contract_violation "lifecycle_terminal_state_mismatch")

module _ (host : Host) where
  check_response : Fields → Result (Unit {0})
  check_response r = do
    raise_if
        (not (is_digest (get "response_fingerprint" r))
          || not (is_digest (get "terminal_response_fingerprint" r))
          || not (is_digest (get "authority_manifest_fingerprint" r)))
        (contract_violation "lifecycle_response_fingerprint_invalid")
    raise_if
        (not (
          is_text (text_of (get "response_fingerprint" r)) (get "terminal_response_fingerprint" r)))
        (contract_violation "lifecycle_terminal_response_mismatch")
    raise_if (not (is_size (get "response_size_bytes" r)))
        (contract_violation "lifecycle_response_size_invalid")
    raise_if (not (is_true (get "canonical_or_control_influence_prohibited" r)))
        (contract_violation "lifecycle_control_influence_not_prohibited")
    raise_if
        (not (is_digest (get "lifecycle_fingerprint" r))
          || not (
              is_text (sha256_json host (obj (without "lifecycle_fingerprint" r)))
                (get "lifecycle_fingerprint" r)))
        (contract_violation "lifecycle_fingerprint_invalid")

  check_predicate : Fields → Json → Result (Unit {0})
  check_predicate r (obj predicate) = do
    raise_if (not (has_exactly predicate predicate_fields))
        (contract_violation "lifecycle_admission_predicate_schema_invalid")
    required_fields predicate predicate_fields "lifecycle_admission_predicate"
    raise_if
        (not (is_text (text_of (get "operation" r)) (get "explicit_operation" predicate))
          || not (is_true (get "origin_bound" predicate)))
        (contract_violation "lifecycle_admission_binding_invalid")
    raise_if
        (not (is_true (get "instruction_influence_prohibited" predicate))
          || not (is_true (get "control_influence_prohibited" predicate)))
        (contract_violation "lifecycle_control_influence_not_prohibited")
  check_predicate r v = err (contract_violation "lifecycle_admission_predicate_missing")

  check_admission : Fields → String → Result (Unit {0})
  unfolding check_predicate
  check_admission r terminal = do
    check_predicate r (get "admission_predicate" r)
    raise_if (not (is_text (visibility_of terminal) (get "retrieval_visibility" r)))
        (contract_violation "lifecycle_visibility_mismatch")
    raise_if
        (terminal == "ADMITTED_TYPED_DATA"
          && not (
              is_filled (get "typed_data_schema_ref" r)
              && is_filled (get "typed_data_fingerprint" r)))
        (contract_violation "lifecycle_typed_data_proof_missing")
    raise_if
        (not (terminal == "ADMITTED_TYPED_DATA")
          && (has "typed_data_schema_ref" r || has "typed_data_fingerprint" r))
        (contract_violation "lifecycle_typed_data_projection_invalid")

  check_projection : Fields → String → Result (Unit {0})
  unfolding check_admission
  check_projection r terminal =
      if terminal == "NOT_APPLICABLE"
      then raise_if
          (not (is_text "NONE" (get "retrieval_visibility" r))
            || has "admission_predicate" r
            || has "typed_data_schema_ref" r
            || has "typed_data_fingerprint" r)
          (contract_violation "lifecycle_not_applicable_projection_invalid")
      else check_admission r terminal

  is_before : ℕ → Option ℕ → Bool
  is_before t none = false
  is_before t (some earlier) = ltb t earlier

  in_order : Option ℕ → Result ℕ → Result ℕ
  in_order previous (ok t) =
      if is_before t previous
      then err (contract_violation "lifecycle_transition_time_invalid")
      else ok t
  in_order previous (err e) = err (contract_violation "lifecycle_transition_time_invalid")

  -- `str` of a value that is no text is no timestamp with a zone
  unfoldable pub observed_time : Option ℕ → Json → Result ℕ
  unfolding in_order is_before
  observed_time previous (str s) = in_order previous (parse_time host s)
  observed_time previous v = err (contract_violation "lifecycle_transition_time_invalid")

  -- one round of the loop: the next state and its time
  check_transition : ℕ → String → Option ℕ → Json → Result (String × ℕ)
  check_transition sequence previous time (obj t) = do
    raise_if (not (has_exactly t transition_fields))
        (contract_violation "lifecycle_transition_schema_invalid")
    raise_if
        (not (is_index sequence (get "sequence" t)) || not (is_text previous (get "from_state" t)))
        (contract_violation "lifecycle_history_disconnected")
    raise_unless_in reason_classes (get "reason_class" t) "lifecycle_transition_reason_invalid"
    at ← observed_time time (get "observed_at" t)
    raise_if
        (not (is_legal legal_transitions previous (text_of (get "to_state" t)) (get "event" t)))
        (contract_violation "lifecycle_transition_forbidden")
    ok (text_of (get "to_state" t), at)
  check_transition sequence previous time v =
      err (contract_violation "lifecycle_transition_invalid")

  -- the loop over the transitions: the state that it ends in
  unfoldable pub check_history : ℕ → String → Option ℕ → Items → Result String
  unfolding check_transition
  check_history sequence previous time nil = ok previous
  check_history sequence previous time (cons t rest) = do
    (next, at) ← check_transition sequence previous time t
    check_history (suc sequence) next (some at) rest

  no_items : Items → Bool
  no_items nil = true
  no_items (cons t rest) = false

  pub check_transitions : String → Json → Result (Unit {0})
  unfolding no_items
  check_transitions terminal (arr items) = do
    previous ← check_history 0 "NOT_APPLICABLE" none items
    raise_if (not (terminal == "NOT_APPLICABLE") && no_items items)
        (contract_violation "lifecycle_history_missing")
    raise_if (not (no_items items) && not (previous == terminal))
        (contract_violation "lifecycle_terminal_transition_mismatch")
  check_transitions terminal v = err (contract_violation "lifecycle_transitions_invalid")

  unfoldable pub validate_lifecycle : Fields → Result (Unit {0})
  unfolding check_identity check_states check_response check_projection check_transitions
  validate_lifecycle r = do
    check_identity r
    check_states r
    check_response r
    check_projection r (text_of (get "history_terminal_state" r))
    check_transitions (text_of (get "history_terminal_state" r)) (get "transitions" r)
