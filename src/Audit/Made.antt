-- ===== src/Audit/Made.antt =====
-- The events that pmiri/audit.py makes.
use ragsistemi.Prelude.{
  ℕ, String, Bool, true, ◌≡◌, refl, ◌≤◌, List, [], ◌∷◌, Option, some, ap, string_eq, contains,
  truthy, All, Result, ok, ◌>>=◌, concat,
}
use ragsistemi.Prelude.Int.{pos}
use ragsistemi.Host.{Host}
use ragsistemi.Canonical.{sha256_json, is_sha256}
use ragsistemi.Canonical.Serial.{str, obj, canonical_json}
use ragsistemi.Audit.Entries.{transport_is, outcome_is}
use ragsistemi.Audit.Valid.{Off}
use ragsistemi.Audit.{
  AuditEvent, payload, in_set, collect, tests, validate_audit_event, create, append, emitted,
  rejected, event_fields,
}
use ragsistemi.Audit.Single.{
  audit_operation-is_operation, time_or-truthy, status_between, Off-collect,
}
use ragsistemi.Audit.Passed.{IsSound, emission-Off, rejection-Off}

both_known :
    (a b : Result Bool) (f : Bool → Bool → List String)
    → a ≡ ok true
    → b ≡ ok true
    → f true true ≡ []
    → (a >>= (λ x. b >>= (λ y. ok (f x y)))) ≡ ok []
both_known a b f x y z = rw (x, y) (ap ok z)

module _ (host : Host) where
  validate-Off :
      (e : AuditEvent)
      → in_set ("HTTP_LOOPBACK" ∷ "LOCAL" ∷ []) (str e.transport) ≡ ok true
      → in_set ("EMITTED" ∷ "REJECTED" ∷ []) (str e.outcome) ≡ ok true
      → All Off (tests host (event_fields e) true true)
      → validate_audit_event host (event_fields e) ≡ ok []
  unfolding validate_audit_event
  validate-Off e t o h =
      both_known _ _ (λ x y. collect (tests host (event_fields e) x y)) (rw (transport_is e) t)
        (rw (outcome_is e) o) (Off-collect (tests host (event_fields e) true true) h)

  pub is_emission :
      (operation projection typed : String) (n : ℕ) (transport : String)
      (captured_at : Option String) (wall : String)
      → ((s : String) → is_sha256 (host.sha256 s) ≡ true)
      → contains ("HTTP_LOOPBACK" ∷ "LOCAL" ∷ []) transport ≡ true
      → is_sha256 projection ≡ true
      → is_sha256 typed ≡ true
      → 100 ≤ n
      → n ≤ 599
      → truthy wall ≡ true
      → validate_audit_event host (
          event_fields (emitted host operation projection typed (pos n) transport captured_at wall))
        ≡ ok []
  unfolding emitted create payload in_set sha256_json string_eq
  is_emission operation projection typed n transport captured_at wall digests known p t low high w =
      let e = emitted host operation projection typed (pos n) transport captured_at wall in
      let s : IsSound e = record {
        time = time_or-truthy captured_at wall w;
        operation = audit_operation-is_operation (some operation);
        status = status_between n low high;
      } in
      validate-Off e (rw known refl) refl
        (emission-Off host e projection typed s refl refl refl refl p t (digests _) refl refl)

  is_rejection :
      (operation : Option String) (n : ℕ) (transport : String) (captured_at : Option String)
      (wall : String)
      → ((s : String) → is_sha256 (host.sha256 s) ≡ true)
      → contains ("HTTP_LOOPBACK" ∷ "LOCAL" ∷ []) transport ≡ true
      → 100 ≤ n
      → n ≤ 599
      → truthy wall ≡ true
      → validate_audit_event host (
          event_fields
            (rejected host operation (pos n) "REQUEST_REJECTED" transport captured_at wall))
        ≡ ok []
  unfolding rejected create payload in_set sha256_json string_eq
  is_rejection operation n transport captured_at wall digests known low high w =
      let e = rejected host operation (pos n) "REQUEST_REJECTED" transport captured_at wall in
      let s : IsSound e = record {
        time = time_or-truthy captured_at wall w;
        operation = audit_operation-is_operation operation;
        status = status_between n low high;
      } in
      validate-Off e (rw known refl) refl
        (rejection-Off host e s refl refl refl refl (digests _) refl refl)

  -- a valid event is one more line of the file
  valid-appended :
      (e : AuditEvent) (content : String)
      → validate_audit_event host (event_fields e) ≡ ok []
      → append host e content
        ≡ ok (concat (content ∷ canonical_json (obj (event_fields e)) ∷ "\n" ∷ []))
  unfolding append
  valid-appended e content h = rw h refl

  -- What `emitted` makes is appended to the log as one more line, when the transport is one of the two,
  -- the fingerprints of the projection and of the typed result are SHA-256 texts, the status is from
  -- 100 to 599, the clock gives a text that is not empty, and every digest is a SHA-256 text; and what
  -- `rejected` makes of any operation, known or not, is too, when its error code is REQUEST_REJECTED.
  pub append-made :
      (operation : String) (unknown : Option String) (projection typed : String) (n : ℕ)
      (transport : String) (captured_at : Option String) (wall content : String)
      → ((s : String) → is_sha256 (host.sha256 s) ≡ true)
      → contains ("HTTP_LOOPBACK" ∷ "LOCAL" ∷ []) transport ≡ true
      → is_sha256 projection ≡ true
      → is_sha256 typed ≡ true
      → 100 ≤ n
      → n ≤ 599
      → truthy wall ≡ true
      → let e = emitted host operation projection typed (pos n) transport captured_at wall in
        let r = rejected host unknown (pos n) "REQUEST_REJECTED" transport captured_at wall in
        (append host e content
          ≡ ok (concat (content ∷ canonical_json (obj (event_fields e)) ∷ "\n" ∷ [])))
        × (append host r content
            ≡ ok (concat (content ∷ canonical_json (obj (event_fields r)) ∷ "\n" ∷ [])))
  append-made operation unknown projection typed n transport captured_at wall content digests known
        p t low high w =
      (
        valid-appended _ content (
            is_emission operation projection typed n transport captured_at wall digests known p t
              low high w),
        valid-appended _ content
            (is_rejection unknown n transport captured_at wall digests known low high w),
      )
