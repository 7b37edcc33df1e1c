-- ===== src/Decisions/Outbound/Allowed.antt =====
-- What an outbound decision that passes its checks shows.
use ragsistemi.Prelude.{
  String, ◌≡◌, ◌⊎◌, inl, inr, true, false, not, ◌||◌, List, [], ◌∷◌, All, Bool-cases, ok, arith,
  raise_if_passed, raise_if_last, bind-eq-ok,
}
use ragsistemi.Host.{Host}
use ragsistemi.Canonical.Serial.{Fields}
use ragsistemi.Decisions.{get, is_text, is_digest, required_fields}
use ragsistemi.Decisions.Outbound
use ragsistemi.Decisions.Outbound.{
  binding_fields, allow_statuses, is_none, any_given, any_none, is_allowing, check_statuses,
  validate_outbound_decision, is_truthy, decision_fingerprint,
}

-- The record shows a status.
abbrev pub Shows : Fields → String × String → Type 0
Shows r (key, value) = is_text value (get key r) ≡ true

check_statuses-Shows :
    (statuses : List (String × String)) (r : Fields)
    → check_statuses statuses r ≡ ok tt
    → All (Shows r) statuses
unfolding check_statuses
check_statuses-Shows [] r h = tt
check_statuses-Shows ((key, value) ∷ rest) r h =
    let (shown, h1) = raise_if_passed (not (is_text value (get key r))) _ _ h in
    (ground arith, check_statuses-Shows rest r h1)

module _ (host : Host) where
  -- A decision and the lifecycle that its operation asks for: a provider call binds none, and every
  -- other operation binds one whole.
  pub data IsBound (r : Fields) : Type 0 where
    provider_call :
        is_text "provider_call" (get "operation" r) ≡ true
        → is_text "NOT_APPLICABLE" (get "content_lifecycle" r) ≡ true
        → any_given binding_fields r ≡ false
        → IsBound r
    content_operation :
        is_text "provider_call" (get "operation" r) ≡ false
        → is_text "NOT_APPLICABLE" (get "content_lifecycle" r) ≡ false
        → any_none binding_fields r ≡ false
        → IsBound r

  check_provider_call-IsBound :
      (r : Fields)
      → is_text "provider_call" (get "operation" r) ≡ true
      → Outbound.check_provider_call r ≡ ok tt
      → IsBound r
  unfolding Outbound.check_provider_call
  check_provider_call-IsBound r call h =
      let (a, h1) =
        raise_if_passed (not (is_text "NOT_APPLICABLE" (get "content_lifecycle" r))) _ _ h in
      provider_call call (ground (arith, a)) (raise_if_last (any_given binding_fields r) _ h1)

  check_content_operation-IsBound :
      (r : Fields)
      → is_text "provider_call" (get "operation" r) ≡ false
      → Outbound.check_content_operation r ≡ ok tt
      → IsBound r
  unfolding Outbound.check_content_operation
  check_content_operation-IsBound r other h =
      let (a, there, h1) = bind-eq-ok (required_fields r binding_fields "content_operation") _ h in
      let (whole, h2) = raise_if_passed (any_none binding_fields r) _ _ h1 in
      let (digests, h3) =
        raise_if_passed
          (not (is_digest (get "fetched_content_lifecycle_fingerprint" r))
            || not (is_digest (get "fetched_content_terminal_response_fingerprint" r)))
          _ _ h2 in
      content_operation other
        (raise_if_last (is_text "NOT_APPLICABLE" (get "content_lifecycle" r)) _ h3) whole

  check_operation-IsBound : (r : Fields) → Outbound.check_operation r ≡ ok tt → IsBound r
  unfolding Outbound.check_operation
  check_operation-IsBound r h = elim (Bool-cases (is_text "provider_call" (get "operation" r))) [
    | inl call ↦ check_provider_call-IsBound r call (ground (arith, call))
    | inr other ↦ check_content_operation-IsBound r other (ground (arith, other))
  ]

  -- No fingerprint is given, or it is the record's own.
  abbrev pub IsSealed : Fields → Type 0
  IsSealed r =
      (is_truthy (get "decision_fingerprint" r) ≡ false)
      ⊎ (is_text (decision_fingerprint host r) (get "decision_fingerprint" r) ≡ true)

  check_fingerprint-IsSealed : (r : Fields) → Outbound.check_fingerprint host r ≡ ok tt → IsSealed r
  unfolding Outbound.check_fingerprint
  check_fingerprint-IsSealed r h = elim (Bool-cases (is_truthy (get "decision_fingerprint" r))) [
    | inl given ↦ inr (ground (arith, given))
    | inr absent ↦ inl absent
  ]

  -- A decision that passes its checks and allows shows the four statuses of a validated
  -- connection; it binds no fetched content where it is a provider call, and all fields of one
  -- otherwise; and a fingerprint that is given is the record's own.
  pub validate_outbound_decision-allowing :
      (r : Fields)
      → validate_outbound_decision host r ≡ ok tt
      → is_allowing (get "action_result" r) ≡ true
      → All (Shows r) allow_statuses × IsBound r × IsSealed r
  unfolding validate_outbound_decision Outbound.check_allowing
  validate_outbound_decision-allowing r h allowing =
      let (a, words, h1) = bind-eq-ok (Outbound.check_vocabulary r) _ h in
      let (b, bound, h2) = bind-eq-ok (Outbound.check_operation r) _ h1 in
      let (c, shown, h3) = bind-eq-ok (Outbound.check_allowing r) _ h2 in
      (
        check_statuses-Shows allow_statuses r (ground (arith, allowing, shown)),
        check_operation-IsBound r bound,
        check_fingerprint-IsSealed r h3,
      )
