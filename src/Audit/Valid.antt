-- ===== src/Audit/Valid.antt =====
-- What an audit event has that pmiri/audit.py finds valid.
use ragsistemi.Prelude.{
  ℕ, suc, String, Bool, true, false, not, ◌≡◌, refl, ◌⊎◌, inl, inr, List, [], ◌∷◌, Option, none,
  some, ◌==◌, string_eq, split_lines, All, Bool-cases, ok, arith, bind-eq-ok, ok_injective,
}
use ragsistemi.Host.{Host}
use ragsistemi.Canonical.{sha256_json}
use ragsistemi.Canonical.Serial.{Json, null, bool, num, str, arr, obj, Fields, object}
use ragsistemi.Decisions.{get, has_exactly, is_text, is_digest}
use ragsistemi.Decisions.Outbound.{is_none}
use ragsistemi.Audit
use ragsistemi.Audit.{
  required, event_keys, picked, in_set, is_operation, is_status, is_event_id, id_differs, collect,
  tests, validate_audit_event, read_verified,
}

not-false : (b : Bool) → not b ≡ false → b ≡ true
not-false true h = refl
not-false false h = cc

abbrev pub Off : Bool × String → Type 0
Off (b, message) = b ≡ false

-- Where no message is collected, no test holds.
collect-Off : (ts : List (Bool × String)) → collect ts ≡ [] → All Off ts
unfolding collect
collect-Off [] h = tt
collect-Off ((true, message) ∷ ts) h = cc
collect-Off ((false, message) ∷ ts) h = (refl, collect-Off ts h)

in_set-two :
    (a b : String) (v : Json)
    → in_set (a ∷ b ∷ []) v ≡ ok true
    → (is_text a v ≡ true) ⊎ (is_text b v ≡ true)
unfolding in_set is_text
in_set-two a b (str s) h = elim (Bool-cases (s == a)) [
  | inl e ↦ inl (ground arith)
  | inr n ↦ inr (ground arith)
]
in_set-two a b null h = cc
in_set-two a b (bool c) h = cc
in_set-two a b (num i) h = cc
in_set-two a b (arr xs) h = cc
in_set-two a b (obj d) h = cc

-- What an event shows of its outcome: an emission both fingerprints and no error, a rejection the one
-- error and no fingerprint.
pub data Shows (event : Fields) : Type 0 where
  emitted :
      is_text "EMITTED" (get "outcome" event) ≡ true
      → is_digest (get "projection_fingerprint" event) ≡ true
      → is_digest (get "typed_result_fingerprint" event) ≡ true
      → is_none (get "error_code" event) ≡ true
      → Shows event
  rejected :
      is_text "REJECTED" (get "outcome" event) ≡ true
      → is_none (get "projection_fingerprint" event) ≡ true
      → is_none (get "typed_result_fingerprint" event) ≡ true
      → is_text "REQUEST_REJECTED" (get "error_code" event) ≡ true
      → Shows event

module _ (host : Host) where
  pub record IsAuditEvent (event : Fields) : Type 0 where
    pub exact : has_exactly event required ≡ true
    pub transport :
        (is_text "HTTP_LOOPBACK" (get "transport" event) ≡ true)
        ⊎ (is_text "LOCAL" (get "transport" event) ≡ true)
    pub operation : is_operation (get "operation" event) ≡ true
    pub status : is_status (get "status_code" event) ≡ true
    pub shows : Shows event
    pub named : is_event_id (get "event_id" event) ≡ true
    pub same_id : id_differs (get "event_id" event) (get "event_fingerprint" event) ≡ false
    pub signed :
        is_text
          (sha256_json host (object (picked event_keys event)))
          (get "event_fingerprint" event)
        ≡ true

  shows_of :
      (event : Fields)
      → (is_text "EMITTED" (get "outcome" event) ≡ true)
        ⊎ (is_text "REJECTED" (get "outcome" event) ≡ true)
      → All Off (tests host event true true)
      → Shows event
  unfolding tests
  shows_of event which off =
      let from_9 = off.1.1.1.1.1.1.1.1.1 in
      let fps = from_9.0 in
      let error = from_9.1.0 in
      let no_fps = from_9.1.1.0 in
      let code = from_9.1.1.1.0 in
      elim (Bool-cases (is_text "EMITTED" (get "outcome" event))) [
        | inl e ↦ emitted e (ground (arith, e)) (ground (arith, e)) (ground (arith, e))
        | inr n ↦
            let r : is_text "REJECTED" (get "outcome" event) ≡ true = only which n in
            rejected r (ground (arith, n, r)) (ground (arith, n, r)) (ground (arith, n, r))
      ]
    where
      only : {x y : Bool} → (x ≡ true) ⊎ (y ≡ true) → x ≡ false → y ≡ true
      only (inl e) n = cc
      only (inr r) n = r

  -- the same of one event that is valid
  pub validate_audit_event-IsAuditEvent :
      (event : Fields) → validate_audit_event host event ≡ ok [] → IsAuditEvent event
  unfolding validate_audit_event tests
  validate_audit_event-IsAuditEvent event h =
      let (known, t_in, h1) =
        bind-eq-ok (in_set ("HTTP_LOOPBACK" ∷ "LOCAL" ∷ []) (get "transport" event)) _ h in
      let (outcome, o_in, h2) =
        bind-eq-ok (in_set ("EMITTED" ∷ "REJECTED" ∷ []) (get "outcome" event)) _ h1 in
      let off = collect-Off (tests host event known outcome) (ok_injective h2) in
      valid_of known outcome t_in o_in off
    where
      valid_of :
          (known outcome : Bool)
          → in_set ("HTTP_LOOPBACK" ∷ "LOCAL" ∷ []) (get "transport" event) ≡ ok known
          → in_set ("EMITTED" ∷ "REJECTED" ∷ []) (get "outcome" event) ≡ ok outcome
          → All Off (tests host event known outcome)
          → IsAuditEvent event
      valid_of false outcome t o off = let unknown = off.1.1.1.0 in cc
      valid_of true false t o off = let unknown = off.1.1.1.1.1.0 in cc
      valid_of true true t o off =
          let from_4 = off.1.1.1.1 in
          let from_13 = from_4.1.1.1.1.1.1.1.1.1 in
          record {
            exact = not-false _ off.0;
            transport = in_set-two "HTTP_LOOPBACK" "LOCAL" (get "transport" event) t;
            operation = not-false _ from_4.0;
            status = not-false _ from_4.1.1.0;
            shows = shows_of event (in_set-two "EMITTED" "REJECTED" (get "outcome" event) o) off;
            named = not-false _ from_13.0;
            same_id = from_13.1.1.0;
            signed = ground (arith, from_13.1.0);
          }

  raise_first-none :
      (before : String) (errors : List String)
      → Audit.raise_first host before errors ≡ ok tt
      → errors ≡ []
  unfolding Audit.raise_first
  raise_first-none before [] h = refl
  raise_first-none before (e ∷ errors) h = cc

  read_line-IsAuditEvent :
      (number : ℕ) (line : Option Json) (event : Fields)
      → Audit.read_line host number line ≡ ok event
      → IsAuditEvent event
  unfolding Audit.read_line
  read_line-IsAuditEvent number none event h = cc
  read_line-IsAuditEvent number (some (obj d)) event h =
      let (errors, checked, h1) = bind-eq-ok (validate_audit_event host d) _ h in
      let (passed, none_, h2) = bind-eq-ok (Audit.raise_first host _ errors) _ h1 in
      rw (← ok_injective h2)
        (validate_audit_event-IsAuditEvent d (rw (raise_first-none _ errors none_) at checked))
  read_line-IsAuditEvent number (some null) event h = cc
  read_line-IsAuditEvent number (some (bool b)) event h = cc
  read_line-IsAuditEvent number (some (num i)) event h = cc
  read_line-IsAuditEvent number (some (str s)) event h = cc
  read_line-IsAuditEvent number (some (arr xs)) event h = cc

  read_lines-IsAuditEvent :
      (loads : String → Option Json) (number : ℕ) (lines : List String) (events : List Fields)
      → Audit.read_lines host loads number lines ≡ ok events
      → All IsAuditEvent events
  unfolding Audit.read_lines
  read_lines-IsAuditEvent loads number [] events h = rw (← ok_injective h) tt
  read_lines-IsAuditEvent loads number (line ∷ lines) events h =
      let (event, first, h1) = bind-eq-ok (Audit.read_line host number (loads line)) _ h in
      let (rest, later, h2) = bind-eq-ok (Audit.read_lines host loads (suc number) lines) _ h1 in
      rw (← ok_injective h2) (
        read_line-IsAuditEvent number (loads line) event first,
        read_lines-IsAuditEvent loads (suc number) lines rest later,
      )

  -- Whatever stands in the file, and however its lines are parsed: every event that is read has the
  -- keys of an event and no others, a known transport and operation, a status of 100 to 599, what
  -- its outcome asks for, and its own fingerprint, of which its id is made.
  pub read_verified-IsAuditEvent :
      (loads : String → Option Json) (content : Option String) (events : List Fields)
      → read_verified host loads content ≡ ok events
      → All IsAuditEvent events
  unfolding read_verified
  read_verified-IsAuditEvent loads none events h = rw (← ok_injective h) tt
  read_verified-IsAuditEvent loads (some content) events h =
      read_lines-IsAuditEvent loads 1 (split_lines content) events h
