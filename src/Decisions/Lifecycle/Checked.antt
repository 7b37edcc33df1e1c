-- ===== src/Decisions/Lifecycle/Checked.antt =====
-- What a lifecycle that passes `validate_lifecycle` is.
use ragsistemi.Prelude.{
  String, ◌≡◌, refl, sym, ap, ◌∙◌, true, not, ◌||◌, string_eq, contains, ok, arith, raise_if_passed,
  bind-eq-ok,
}
use ragsistemi.Host.{Host}
use ragsistemi.Canonical.{sha256_json}
use ragsistemi.Canonical.Serial.{str, obj, Fields}
use ragsistemi.Decisions.{
  lifecycles, get, without, is_size, is_text, is_true, is_digest, raise_unless_in,
}
use ragsistemi.Decisions.Lifecycle
use ragsistemi.Decisions.Lifecycle.{
  text_of, transition_fields, is_legal, visibility_of, check_history, validate_lifecycle,
}
use ragsistemi.Decisions.Lifecycle.History.{
  HasHistory, raise_unless_in-str, is_text-str, is_digest-str, check_transitions-HasHistory,
}

module _ (host : Host) where
  -- A lifecycle as its checks leave it.
  pub record IsLifecycle (r : Fields) (terminal : String) : Type 0 where
    pub ends : get "history_terminal_state" r ≡ str terminal
    pub known : contains lifecycles terminal ≡ true
    pub admission : get "admission_state" r ≡ str terminal
    pub same_response : get "terminal_response_fingerprint" r ≡ get "response_fingerprint" r
    pub sealed :
        get "lifecycle_fingerprint" r
        ≡ str (sha256_json host (obj (without "lifecycle_fingerprint" r)))
    pub no_influence : is_true (get "canonical_or_control_influence_prohibited" r) ≡ true
    pub visible : get "retrieval_visibility" r ≡ str (visibility_of terminal)
    pub history : HasHistory host (get "transitions" r) terminal

  check_states-lem :
      (r : Fields)
      → Lifecycle.check_states r ≡ ok tt
      → (get "history_terminal_state" r ≡ str (text_of (get "history_terminal_state" r)))
        × (contains lifecycles (text_of (get "history_terminal_state" r)) ≡ true)
        × (get "admission_state" r ≡ str (text_of (get "history_terminal_state" r)))
  unfolding Lifecycle.check_states
  check_states-lem r h =
      let (a, h1) =
        raise_if_passed (not (is_text "NOT_APPLICABLE" (get "history_start_state" r))) _ _ h in
      let (b, found, h2) =
        bind-eq-ok
          (raise_unless_in lifecycles (get "history_terminal_state" r) "lifecycle_state_invalid") _
          h1 in
      let (named, known) =
        raise_unless_in-str lifecycles (get "history_terminal_state" r) "lifecycle_state_invalid"
          found in
      (
        named,
        known,
        is_text-str (text_of (get "history_terminal_state" r)) (get "admission_state" r)
            (ground arith),
      )

  check_response-lem :
      (r : Fields)
      → Lifecycle.check_response host r ≡ ok tt
      → (get "terminal_response_fingerprint" r ≡ get "response_fingerprint" r)
        × (get "lifecycle_fingerprint" r
            ≡ str (sha256_json host (obj (without "lifecycle_fingerprint" r))))
        × (is_true (get "canonical_or_control_influence_prohibited" r) ≡ true)
  unfolding Lifecycle.check_response
  check_response-lem r h =
      let (digests, h1) =
        raise_if_passed
          (not (is_digest (get "response_fingerprint" r))
            || not (is_digest (get "terminal_response_fingerprint" r))
            || not (is_digest (get "authority_manifest_fingerprint" r)))
          _ _ h in
      let (same, h2) =
        raise_if_passed
          (not (
            is_text (text_of (get "response_fingerprint" r))
              (get "terminal_response_fingerprint" r)))
          _ _ h1 in
      let (size, h3) = raise_if_passed (not (is_size (get "response_size_bytes" r))) _ _ h2 in
      let (closed, h4) =
        raise_if_passed (not (is_true (get "canonical_or_control_influence_prohibited" r))) _ _
          h3 in
      let digest = sha256_json host (obj (without "lifecycle_fingerprint" r)) in
      let named = is_digest-str (get "response_fingerprint" r) (ground arith) in
      let terminal =
        is_text-str (text_of (get "response_fingerprint" r)) (get "terminal_response_fingerprint" r)
          (ground arith) in
      (
        terminal ∙ sym named,
        is_text-str digest (get "lifecycle_fingerprint" r) (ground arith),
        ground arith,
      )

  check_admission-visible :
      (r : Fields) (terminal : String)
      → Lifecycle.check_admission host r terminal ≡ ok tt
      → get "retrieval_visibility" r ≡ str (visibility_of terminal)
  unfolding Lifecycle.check_admission
  check_admission-visible r terminal h =
      let (a, predicate, h1) =
        bind-eq-ok (Lifecycle.check_predicate host r (get "admission_predicate" r)) _ h in
      let (shown, h2) =
        raise_if_passed (not (is_text (visibility_of terminal) (get "retrieval_visibility" r))) _ _
          h1 in
      is_text-str (visibility_of terminal) (get "retrieval_visibility" r) (ground arith)

  none_visible : visibility_of "NOT_APPLICABLE" ≡ "NONE"
  unfolding visibility_of string_eq
  none_visible = refl

  check_projection-visible :
      (r : Fields) (terminal : String)
      → Lifecycle.check_projection host r terminal ≡ ok tt
      → get "retrieval_visibility" r ≡ str (visibility_of terminal)
  unfolding Lifecycle.check_projection
  check_projection-visible r terminal h = elim (string_eq.dec terminal "NOT_APPLICABLE") [
    | yes same ↦
        let shown : is_text "NONE" (get "retrieval_visibility" r) ≡ true = ground (arith, same) in
        is_text-str "NONE" (get "retrieval_visibility" r) shown
        ∙ ap str (sym none_visible)
        ∙ ap (λ x. str (visibility_of x)) (sym same)
    | no other ↦ check_admission-visible r terminal (ground (arith, other))
  ]

  -- A lifecycle that passes its checks went from NOT_APPLICABLE to its terminal state by moves of the
  -- state machine, at times that never go back; the admission state is the terminal state, and what
  -- is visible to retrieval is what that state allows; the terminal response is the response; the
  -- fingerprint is the record's own; and influence on control is prohibited.
  pub validate_lifecycle-IsLifecycle :
      (r : Fields)
      → validate_lifecycle host r ≡ ok tt
      → (terminal : String) × IsLifecycle r terminal
  unfolding validate_lifecycle
  validate_lifecycle-IsLifecycle r h =
      let terminal = text_of (get "history_terminal_state" r) in
      let (a, identity, h1) = bind-eq-ok (Lifecycle.check_identity r) _ h in
      let (b, states, h2) = bind-eq-ok (Lifecycle.check_states r) _ h1 in
      let (c, response, h3) = bind-eq-ok (Lifecycle.check_response host r) _ h2 in
      let (d, projection, h4) = bind-eq-ok (Lifecycle.check_projection host r terminal) _ h3 in
      let (ends, known, admission) = check_states-lem r states in
      let (same, seal, closed) = check_response-lem r response in
      (
        terminal,
        record {
          ends = ends;
          known = known;
          admission = admission;
          same_response = same;
          sealed = seal;
          no_influence = closed;
          visible = check_projection-visible r terminal projection;
          history = check_transitions-HasHistory host terminal (get "transitions" r) h4;
        },
      )
