-- ===== src/Examples/Logs.antt =====
-- Runs of pmiri/audit.py on small inputs.
use ragsistemi.Prelude.{
  String, ◌≡◌, refl, [], ◌∷◌, All, Option, none, some, ok, concat, string_eq, arith,
}
use ragsistemi.Prelude.Int.{pos}
use ragsistemi.Canonical.{is_sha256}
use ragsistemi.Canonical.Serial.{Json, obj, Fields, canonical_json}
use ragsistemi.Audit.{
  AuditEvent, emitted, rejected, append, validate_audit_event, event_fields, read_verified,
}
use ragsistemi.Audit.Made.{is_emission, append-made}
use ragsistemi.Audit.Valid.{IsAuditEvent, read_verified-IsAuditEvent}
use ragsistemi.Examples.Hosts.{hex_host, digest}

abbrev event : AuditEvent
event = emitted hex_host "search" digest digest (pos 200) "LOCAL" none "now"

abbrev event_json : Fields
event_json = event_fields event

-- a parser that reads one line, written with one character here
abbrev loads : String → Option Json
loads s = some (obj event_json)

event_is_valid : validate_audit_event hex_host event_json ≡ ok []
unfolding string_eq is_sha256
event_is_valid =
    is_emission hex_host "search" digest digest 200 "LOCAL" none "now" (λ s. refl) refl refl refl
      (omega arith) (omega arith) refl

event_is_read : read_verified hex_host loads (some "e") ≡ ok (event_json ∷ [])
unfolding read_verified
event_is_read = rw event_is_valid refl

read_verified-IsAuditEvent_example : All (IsAuditEvent hex_host) (event_json ∷ [])
read_verified-IsAuditEvent_example =
    read_verified-IsAuditEvent hex_host loads (some "e") (event_json ∷ []) event_is_read

append-made_example :
    (append hex_host (emitted hex_host "search" digest digest (pos 200) "LOCAL" none "now") ""
      ≡ ok (
          concat (
            ""
            ∷ canonical_json (
                obj (
                  event_fields
                    (emitted hex_host "search" digest digest (pos 200) "LOCAL" none "now")))
            ∷ "\n"
            ∷ [])))
    × (append hex_host (rejected hex_host none (pos 200) "REQUEST_REJECTED" "LOCAL" none "now") ""
        ≡ ok (
            concat (
              ""
              ∷ canonical_json (
                  obj (
                    event_fields
                      (rejected hex_host none (pos 200) "REQUEST_REJECTED" "LOCAL" none "now")))
              ∷ "\n"
              ∷ [])))
unfolding string_eq is_sha256
append-made_example =
    append-made hex_host "search" none digest digest 200 "LOCAL" none "now" "" (λ s. refl) refl refl
      refl (omega arith) (omega arith) refl
