-- ===== src/Auth/Principal/Verified.antt =====
-- What `issue` and `verified` guarantee of what they return.
use ragsistemi.Prelude.{
  ℕ, String, ◌≡◌, refl, true, false, not, ◌||◌, List, ◌==◌, string_eq, ok, arith, all_truthy,
  raise_if_passed, ok_injective,
}
use mathlib.Core.Path.{subst}
use ragsistemi.Prelude.Order.{SameMembers, sorted_set_ext, contains-sorted_set}
use ragsistemi.Prelude.Int.{ℤ, pos, negsuc, is_below}
use ragsistemi.Host.{Host}
use ragsistemi.Canonical.Time.{valid_interval}
use ragsistemi.Auth.Principal.{
  Attestation, Principal, PrincipalArgs, issue, verified, build, required, attestation_is_valid,
  active,
}

not_below_zero : (i : ℤ) → is_below i 0 ≡ false → (n : ℕ) × (i ≡ pos n)
not_below_zero (pos n) h = (n, refl)
not_below_zero (negsuc n) h = cc

module _ (host : Host) where
  -- The evidence of an attestation counts as a set: two lists with the same members give the same
  -- attestation, its fingerprint included, or the same exception.
  pub issue_ext :
      (principal zone issuer : String) (evidence other : List String) (issued until status : String)
      → SameMembers evidence other
      → issue host principal zone issuer evidence issued until status
        ≡ issue host principal zone issuer other issued until status
  unfolding issue
  issue_ext principal zone issuer evidence other issued until status h =
      rw (sorted_set_ext evidence other h)

  -- An attestation that is issued is valid for its principal at the moment of issue.
  pub issue-is_valid :
      (principal zone issuer : String) (evidence : List String) (issued until status : String)
      (a : Attestation)
      → issue host principal zone issuer evidence issued until status ≡ ok a
      → attestation_is_valid host a principal issued ≡ true
  unfolding issue attestation_is_valid
  issue-is_valid principal zone issuer evidence issued until status a h = ground arith

  -- What a verified principal is, beside the arguments that it was made from.
  pub record IsVerified (a : PrincipalArgs) (p : Principal) : Type 0 where
    pub active_status : p.status ≡ active
    pub epoch : (n : ℕ) × (p.policy_epoch ≡ pos n)
    pub epoch_kept : p.policy_epoch ≡ a.policy_epoch
    pub attested : p.attestation.principal_ref ≡ p.principal_ref
    pub projects : SameMembers p.allowed_projects a.allowed_projects
    pub operations : SameMembers p.allowed_operations a.allowed_operations
    pub purposes : SameMembers p.allowed_purposes a.allowed_purposes
    pub in_order : valid_interval host p.issued_at p.valid_until p.issued_at ≡ true

  build-IsVerified :
      (a : PrincipalArgs)
      → (is_below a.policy_epoch 0 || not (a.status == active)) ≡ false
      → not (a.attestation.principal_ref == a.principal_ref) ≡ false
      → not (valid_interval host a.issued_at a.valid_until a.issued_at) ≡ false
      → IsVerified a (build host a)
  unfolding build
  build-IsVerified a state own ordered = record {
    active_status = ground arith;
    epoch = not_below_zero a.policy_epoch (ground arith);
    epoch_kept = refl;
    attested = ground arith;
    projects = λ v. contains-sorted_set v a.allowed_projects;
    operations = λ v. contains-sorted_set v a.allowed_operations;
    purposes = λ v. contains-sorted_set v a.allowed_purposes;
    in_order = ground arith;
  }

  -- A principal that `verified` returns is active, has the epoch that was asked for, which is not
  -- negative, is attested under its own reference, has a validity interval in order, and may do
  -- exactly what was asked for.
  pub verified-IsVerified :
      (a : PrincipalArgs) (p : Principal) → verified host a ≡ ok p → IsVerified a p
  unfolding verified
  verified-IsVerified a p h =
      let (present, h1) = raise_if_passed (not (all_truthy (required a))) _ _ h in
      let (granted, h2) = raise_if_passed _ _ _ h1 in
      let (state, h3) =
        raise_if_passed (is_below a.policy_epoch 0 || not (a.status == active)) _ _ h2 in
      let (own, h4) =
        raise_if_passed (not (a.attestation.principal_ref == a.principal_ref)) _ _ h3 in
      let (ordered, h5) =
        raise_if_passed (not (valid_interval host a.issued_at a.valid_until a.issued_at)) _ _ h4 in
      subst (λ q. IsVerified a q) (ok_injective h5) (build-IsVerified a state own ordered)
