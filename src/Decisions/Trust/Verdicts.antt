-- ===== src/Decisions/Trust/Verdicts.antt =====
-- A trust or capability decision that passes its checks allows only what its state supports.
use ragsistemi.Prelude.{
  ◌≡◌, ◌⊎◌, inl, inr, true, false, not, ◌&&◌, string_eq, ok, arith, raise_if_passed, raise_if_last,
  bind-eq-ok,
}
use ragsistemi.Host.{Host}
use ragsistemi.Canonical.Serial.{Json, null, bool, num, str, arr, obj, Fields}
use ragsistemi.Decisions.{actions, reason_classes, get, is_text, is_filled, raise_unless_in}
use ragsistemi.Decisions.Outbound.{is_allowing}
use ragsistemi.Decisions.Trust
use ragsistemi.Decisions.Trust.{
  trust_states, capability_states, is_untrusted, validate_trust_decision,
  validate_capability_decision,
}

-- a state that is known is one of the two trusted ones, or untrusted
trusted_or_not :
    (v : Json)
    → raise_unless_in trust_states v "trust_state_unknown" ≡ ok tt
    → is_untrusted v ≡ false
    → (is_text "TRUSTED_FOR_BOUND_PURPOSE" v ≡ true) ⊎ (is_text "CONDITIONALLY_TRUSTED" v ≡ true)
unfolding raise_unless_in is_untrusted is_text
trusted_or_not (str s) h k = ground arith
trusted_or_not (arr items) h k = cc
trusted_or_not (obj fields) h k = cc
trusted_or_not null h k = cc
trusted_or_not (bool b) h k = cc
trusted_or_not (num n) h k = cc

module _ (host : Host) where
  -- What an allowing trust decision rests on: full trust, or conditional trust with constraints.
  pub data IsTrusted (r : Fields) : Type 0 where
    fully : is_text "TRUSTED_FOR_BOUND_PURPOSE" (get "trust_state" r) ≡ true → IsTrusted r
    conditionally :
        is_text "CONDITIONALLY_TRUSTED" (get "trust_state" r) ≡ true
        → is_text "ALLOW_WITH_CONSTRAINTS" (get "action_result" r) ≡ true
        → is_filled (get "constraint_artifact_ref" r) ≡ true
        → is_filled (get "redaction_profile_ref" r) ≡ true
        → IsTrusted r

  -- A trust decision that passes its checks and allows rests on full trust, or on conditional trust
  -- with the constraints and the redaction profile named.
  pub validate_trust_decision-allowing :
      (r : Fields)
      → validate_trust_decision host r ≡ ok tt
      → is_allowing (get "action_result" r) ≡ true
      → IsTrusted r
  unfolding validate_trust_decision Trust.check_trust_words Trust.check_trust_action
  validate_trust_decision-allowing r h allowing =
      let (a, shape, h1) = bind-eq-ok (Trust.check_trust_record host r) _ h in
      let (b, words, h2) = bind-eq-ok (Trust.check_trust_words host r) _ h1 in
      let (c, known, w1) =
        bind-eq-ok (raise_unless_in trust_states (get "trust_state" r) "trust_state_unknown") _
          words in
      let (apart, k1) =
        raise_if_passed (is_untrusted (get "trust_state" r) && is_allowing (get "action_result" r))
          _ _ h2 in
      let (constrained, k2) =
        raise_if_passed
          (is_text "CONDITIONALLY_TRUSTED" (get "trust_state" r)
            && not (is_text "ALLOW_WITH_CONSTRAINTS" (get "action_result" r)))
          _ _ k1 in
      let (named, k3) =
        raise_if_passed
          (is_text "ALLOW_WITH_CONSTRAINTS" (get "action_result" r)
            && not (
                is_filled (get "constraint_artifact_ref" r)
                && is_filled (get "redaction_profile_ref" r)))
          _ _ k2 in
      elim (trusted_or_not (get "trust_state" r) known (ground (arith, allowing, apart))) [
        | inl full ↦ fully full
        | inr partly ↦
            let limited : is_text "ALLOW_WITH_CONSTRAINTS" (get "action_result" r) ≡ true =
              ground (arith, partly, constrained) in
            conditionally partly limited (ground (arith, limited, named))
              (ground (arith, limited, named))
      ]

  -- A capability decision that passes its checks allows only with a fresh capability, and where
  -- the capability is missing it gives that as its reason.
  pub validate_capability_decision-fresh :
      (r : Fields)
      → validate_capability_decision host r ≡ ok tt
      → ((is_allowing (get "action_result" r) ≡ false)
          ⊎ (is_text "FRESH" (get "capability_state" r) ≡ true))
        × ((is_text "MISSING" (get "capability_state" r) ≡ false)
            ⊎ (is_text "CAPABILITY_MISSING" (get "reason_class" r) ≡ true))
  unfolding validate_capability_decision Trust.check_capability_action
  validate_capability_decision-fresh r h =
      let (a, shape, h1) = bind-eq-ok (Trust.check_capability_record host r) _ h in
      let (b, state, k1) =
        bind-eq-ok
          (raise_unless_in capability_states (get "capability_state" r)
            "capability_vocabulary_invalid")
          _ h1 in
      let (c, action, k2) =
        bind-eq-ok (raise_unless_in actions (get "action_result" r) "capability_vocabulary_invalid")
          _ k1 in
      let (d, reason, k3) =
        bind-eq-ok
          (raise_unless_in reason_classes (get "reason_class" r) "capability_reason_class_invalid")
          _ k2 in
      let (fresh, k4) =
        raise_if_passed
          (not (is_text "FRESH" (get "capability_state" r)) && is_allowing (get "action_result" r))
          _ _ k3 in
      let gone =
        raise_if_last
          (is_text "MISSING" (get "capability_state" r)
            && not (is_text "CAPABILITY_MISSING" (get "reason_class" r)))
          _ k4 in
      (ground (arith, fresh), ground (arith, gone))
