-- ===== src/ControlPlane/Principals.antt =====
-- `SQLiteAuthenticationRegistry`: the table of principals. A row keeps the dictionary that
-- `_principal_payload` makes; the text of it that `json.dumps` writes and `json.loads` reads back
-- is left out.
pub mod Restored
pub mod Revoked
use ragsistemi.Prelude.{
  ℕ, String, Bool, true, false, not, ◌&&◌, List, [], ◌∷◌, none, some, Option, if◌then◌else◌, ◌==◌,
  string_eq, Eq, Result, ok, err, request_authorization_error, ◌>>=◌, ◌>>◌, raise_if, truthy,
}
use ragsistemi.Prelude.Dict.{Dict, lookup, insert}
use ragsistemi.Host.{Host}
use ragsistemi.Auth.Principal.{Attestation, Principal, issue, verified}
use ragsistemi.Canonical.Serial.{Json, Fields, str}
use ragsistemi.Canonical.Equality.{json_eq}
use ragsistemi.Decisions.{get}
use ragsistemi.ControlPlane.Payload.{principal_payload, attestation_of, arguments}

pub record Row : Type 0 where
  pub principal_fingerprint : String
  pub payload : Fields
  pub revoked_at : Option ℕ

abbrev pub Table : Type 0
Table = Dict Row

unfoldable pub same_refs : List String → List String → Bool
same_refs [] [] = true
same_refs (x ∷ xs) (y ∷ ys) = x == y && same_refs xs ys
same_refs _ _ = false

-- `expected_attestation != attestation` of the frozen dataclass, negated
unfoldable pub same_attestation : Attestation → Attestation → Bool
same_attestation a b =
    a.attestation_id == b.attestation_id
    && a.principal_ref == b.principal_ref
    && a.zone_id == b.zone_id
    && a.issuer_ref == b.issuer_ref
    && same_refs a.evidence_refs b.evidence_refs
    && a.issued_at == b.issued_at
    && a.valid_until == b.valid_until
    && a.status == b.status
    && a.fingerprint == b.fingerprint

abbrev is_null : {A : Type 0} → Option A → Bool
is_null none = true
is_null (some a) = false

insert_new : Principal → Option Row → Table → Result Table
insert_new p none t = ok (
    insert p.authentication_ref
      (record {
        principal_fingerprint = p.fingerprint;
        payload = principal_payload p;
        revoked_at = none;
      })
      t)
insert_new p (some row) t =
    if not (row.principal_fingerprint == p.fingerprint)
    then err (request_authorization_error "authentication_reference_rebound")
    else if not (is_null row.revoked_at)
    then err (request_authorization_error "principal_revoked")
    else ok t

unfoldable pub register : Principal → Table → Result Table
unfolding insert_new
register p t = insert_new p (lookup p.authentication_ref t) t

mark : String → ℕ → Option Row → Table → Bool × Table
mark ref now none t = (false, t)
mark ref now (some row) t =
    if is_null row.revoked_at
    then (true, insert ref (record row { revoked_at = some now }) t)
    else (false, t)

-- `revoke`: the rows that the UPDATE reached, and the table behind it
unfoldable pub revoke : String → ℕ → Table → Bool × Table
unfolding mark
revoke ref now t = mark ref now (lookup ref t) t

module _ (host : Host) where
  -- the attestation, issued again, is the one that was stored
  checked_attestation : Attestation → Result Attestation
  checked_attestation a = do
    expected ←
        issue host a.principal_ref a.zone_id a.issuer_ref a.evidence_refs a.issued_at a.valid_until
          a.status
    raise_if (not (same_attestation expected a))
        (request_authorization_error "stored_attestation_fingerprint_mismatch")
    ok a

  checked_principal : Json → Principal → Result Principal
  checked_principal stored principal = do
    raise_if (not (json_eq (str principal.fingerprint) stored))
        (request_authorization_error "stored_principal_fingerprint_mismatch")
    ok principal

  -- `_principal_from_payload`
  unfoldable pub restored : Fields → Result Principal
  unfolding checked_attestation checked_principal
  restored payload = do
    raw ← attestation_of (get "trust_zone_attestation" payload)
    attestation ← checked_attestation raw
    given ← arguments attestation payload
    principal ← verified host given
    checked_principal (get "fingerprint" payload) principal

  -- all that `restored` raises is caught
  or_none : Result Principal → Option Principal
  or_none (ok p) = some p
  or_none (err e) = none

  -- a row that was revoked is not selected
  selected : Option Row → Option Principal
  unfolding or_none
  selected none = none
  selected (some row) = if is_null row.revoked_at then or_none (restored row.payload) else none

  unfoldable pub resolve : Option String → Table → Option Principal
  unfolding selected
  resolve none t = none
  resolve (some ref) t = if truthy ref then selected (lookup ref t) else none
