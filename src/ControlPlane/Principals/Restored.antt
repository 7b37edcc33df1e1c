-- ===== src/ControlPlane/Principals/Restored.antt =====
-- What is registered is what resolves: the checks of `_principal_from_payload` accept every
-- principal that `verified` made.
use mathlib.Core.Path.{subst}
use ragsistemi.Prelude.{
  String, ◌≡◌, refl, sym, ◌∙◌, true, List, [], ◌∷◌, none, some, ok, arith, truthy, string_eq,
}
use ragsistemi.Prelude.Order.{sorted_set, contains-sorted_set}
use ragsistemi.Prelude.Dict.{lookup, insert, lookup-insert}
use ragsistemi.Host.{Host}
use ragsistemi.Auth.Principal.{
  Attestation, Principal, PrincipalArgs, issue, verified, build, args_of,
}
use ragsistemi.Auth.Principal.Verified.{issue_ext}
use ragsistemi.Auth.Principal.Again.{verified_again, verified-build}
use ragsistemi.Canonical.Serial.{str, dict}
use ragsistemi.Canonical.Equality.{json_eq}
use ragsistemi.Decisions.{get}
use ragsistemi.ControlPlane.Payload.{
  principal_payload, attestation_payload, attestation_of-payload, arguments-payload,
}
use ragsistemi.ControlPlane.Principals
use ragsistemi.ControlPlane.Principals.{
  Row, Table, register, resolve, restored, same_refs, same_attestation,
}

same_refs_refl : (xs : List String) → same_refs xs xs ≡ true
unfolding same_refs
same_refs_refl [] = refl
same_refs_refl (x ∷ xs) = ground (arith, same_refs_refl xs)

same_attestation_refl : (a : Attestation) → same_attestation a a ≡ true
unfolding same_attestation
same_attestation_refl a = ground (arith, same_refs_refl a.evidence_refs)

module _ (host : Host) where
  -- the fields of an attestation are the arguments that it was issued for
  issue_fields :
      (principal zone issuer : String) (evidence : List String) (issued until status : String)
      (a : Attestation)
      → issue host principal zone issuer evidence issued until status ≡ ok a
      → (a.principal_ref ≡ principal)
        × (a.zone_id ≡ zone)
        × (a.issuer_ref ≡ issuer)
        × (a.evidence_refs ≡ sorted_set evidence)
        × (a.issued_at ≡ issued)
        × (a.valid_until ≡ until)
        × (a.status ≡ status)
  unfolding issue
  issue_fields principal zone issuer evidence issued until status a h = ground arith

  -- an attestation is issued again from its own fields
  issue_again :
      (principal zone issuer : String) (evidence : List String) (issued until status : String)
      (a : Attestation)
      → issue host principal zone issuer evidence issued until status ≡ ok a
      → issue host a.principal_ref a.zone_id a.issuer_ref a.evidence_refs a.issued_at a.valid_until
          a.status
        ≡ ok a
  issue_again principal zone issuer evidence issued until status a h =
      let (f0, f1, f2, f3, f4, f5, f6) =
        issue_fields principal zone issuer evidence issued until status a h in
      let again =
        issue_ext host principal zone issuer (sorted_set evidence) evidence issued until status
          (λ v. contains-sorted_set v evidence) in
      cc

  -- An attestation that the program issued.
  abbrev pub IsIssued : Attestation → Type 0
  IsIssued a =
      (evidence : List String) × (issue host a.principal_ref a.zone_id a.issuer_ref evidence
          a.issued_at a.valid_until a.status
        ≡ ok a)

  checked_attestation-issued :
      (a : Attestation) → IsIssued a → Principals.checked_attestation host a ≡ ok a
  unfolding Principals.checked_attestation
  checked_attestation-issued a (evidence, issued) =
      let again =
        issue_again a.principal_ref a.zone_id a.issuer_ref evidence a.issued_at a.valid_until
          a.status a issued in
      rw again (ground (arith, same_attestation_refl a))

  attestation_there :
      (p : Principal)
      → get "trust_zone_attestation" (principal_payload p) ≡ attestation_payload p.attestation
  unfolding get principal_payload dict string_eq
  attestation_there p = refl

  fingerprint_there : (p : Principal) → get "fingerprint" (principal_payload p) ≡ str p.fingerprint
  unfolding get principal_payload dict string_eq
  fingerprint_there p = refl

  checked_principal-same :
      (p : Principal) → Principals.checked_principal host (str p.fingerprint) p ≡ ok p
  unfolding Principals.checked_principal json_eq
  checked_principal-same p = ground arith

  restored-verified :
      (a : PrincipalArgs) (p : Principal)
      → verified host a ≡ ok p
      → IsIssued p.attestation
      → restored host (principal_payload p) ≡ ok p
  unfolding restored
  restored-verified a p h issued =
      let (made, named) = verified-build host a p h in
      let checked : verified host (args_of p) ≡ ok p =
        subst (λ (x : Principal). verified host (args_of x) ≡ ok p) (sym made)
          (verified_again host a ∙ h) in
      rw
        (
          attestation_there p,
          attestation_of-payload p.attestation,
          checked_attestation-issued p.attestation issued,
          arguments-payload p,
          checked,
          fingerprint_there p,
          checked_principal-same p,
        )
        refl

  -- A principal that was verified, with an attestation that was issued, and registered under a new
  -- reference is what the reference resolves to: every field of it and of its attestation is read
  -- back from the dictionary that was stored, and the checks of fingerprints pass.
  pub resolve-register_stored :
      (a : PrincipalArgs) (p : Principal) (t t' : Table)
      → verified host a ≡ ok p
      → IsIssued p.attestation
      → lookup p.authentication_ref t ≡ none
      → register p t ≡ ok t'
      → resolve host (some p.authentication_ref) t' ≡ some p
  unfolding resolve register Principals.insert_new Principals.selected Principals.or_none
  resolve-register_stored a p t t' h issued fresh done =
      let (made, named) = verified-build host a p h in
      let row : Row = record {
        principal_fingerprint = p.fingerprint;
        payload = principal_payload p;
        revoked_at = none;
      } in
      let key : truthy p.authentication_ref ≡ true =
        subst (λ (x : Principal). truthy x.authentication_ref ≡ true) (sym made)
          (unfold build in named) in
      let stored : t' ≡ insert p.authentication_ref row t = ground (arith, fresh) in
      let found : lookup p.authentication_ref t' ≡ some row =
        ground (arith, lookup-insert p.authentication_ref p.authentication_ref row t) in
      rw (key, found, restored-verified a p h issued) refl
