-- ===== src/Audit/Entries.antt =====
-- What the dictionary of an event of pmiri/audit.py holds.
use ragsistemi.Prelude.{true, ◌≡◌, refl, string_eq}
use ragsistemi.Canonical.Serial.{str, num, dict, optional}
use ragsistemi.Decisions.{get, has_exactly, names, missing}
use ragsistemi.Audit.{AuditEvent, event_fields, payload, picked, event_keys, required}

pub artifact_type_is :
    (e : AuditEvent) → get "artifact_type" (event_fields e) ≡ str "PMIRI_READ_AUDIT_EVENT"
unfolding event_fields get dict string_eq
artifact_type_is e = refl

pub artifact_version_is : (e : AuditEvent) → get "artifact_version" (event_fields e) ≡ str "0.1"
unfolding event_fields get dict string_eq
artifact_version_is e = refl

pub captured_at_is : (e : AuditEvent) → get "captured_at" (event_fields e) ≡ str e.captured_at
unfolding event_fields get dict string_eq
captured_at_is e = refl

pub transport_is : (e : AuditEvent) → get "transport" (event_fields e) ≡ str e.transport
unfolding event_fields get dict string_eq
transport_is e = refl

pub operation_is : (e : AuditEvent) → get "operation" (event_fields e) ≡ str e.operation
unfolding event_fields get dict string_eq
operation_is e = refl

pub outcome_is : (e : AuditEvent) → get "outcome" (event_fields e) ≡ str e.outcome
unfolding event_fields get dict string_eq
outcome_is e = refl

pub status_code_is : (e : AuditEvent) → get "status_code" (event_fields e) ≡ num e.status_code
unfolding event_fields get dict string_eq
status_code_is e = refl

pub projection_fingerprint_is :
    (e : AuditEvent)
    → get "projection_fingerprint" (event_fields e) ≡ optional e.projection_fingerprint
unfolding event_fields get dict string_eq
projection_fingerprint_is e = refl

pub typed_result_fingerprint_is :
    (e : AuditEvent)
    → get "typed_result_fingerprint" (event_fields e) ≡ optional e.typed_result_fingerprint
unfolding event_fields get dict string_eq
typed_result_fingerprint_is e = refl

pub error_code_is : (e : AuditEvent) → get "error_code" (event_fields e) ≡ optional e.error_code
unfolding event_fields get dict string_eq
error_code_is e = refl

pub event_id_is : (e : AuditEvent) → get "event_id" (event_fields e) ≡ str e.event_id
unfolding event_fields get dict string_eq
event_id_is e = refl

pub event_fingerprint_is :
    (e : AuditEvent) → get "event_fingerprint" (event_fields e) ≡ str e.event_fingerprint
unfolding event_fields get dict string_eq
event_fingerprint_is e = refl

pub event_fields-exact : (e : AuditEvent) → has_exactly (event_fields e) required ≡ true
unfolding event_fields has_exactly dict string_eq missing names
event_fields-exact e = refl

-- what is signed is what `create` signs
pub picked-event_fields : (e : AuditEvent) → picked event_keys (event_fields e) ≡ payload e
unfolding picked event_fields get dict string_eq
picked-event_fields e = refl
