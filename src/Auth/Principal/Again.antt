-- ===== src/Auth/Principal/Again.antt =====
-- `AuthenticatedPrincipal.verified`, called again with the fields of the principal that it made.
use ragsistemi.Prelude.{
  String, ◌≡◌, refl, sym, true, not, ◌||◌, List, ◌==◌, string_eq, ok, arith, truthy, all_truthy,
  raise_if_passed, ok_injective,
}
use ragsistemi.Prelude.Order.{sorted_set, sorted_set_ext, contains-sorted_set}
use ragsistemi.Prelude.Int.{is_below}
use ragsistemi.Host.{Host}
use ragsistemi.Canonical.Time.{valid_interval}
use ragsistemi.Auth.Principal
use ragsistemi.Auth.Principal.{
  Principal, PrincipalArgs, verified, build, required, active, args_of, authority_is_empty,
}

sorted_set_again : (xs : List String) → sorted_set (sorted_set xs) ≡ sorted_set xs
sorted_set_again xs = sorted_set_ext (sorted_set xs) xs (λ v. contains-sorted_set v xs)

module _ (host : Host) where
  -- The arguments that are read off a principal make it again.
  pub verified_again :
      (a : PrincipalArgs) → verified host (args_of (build host a)) ≡ verified host a
  unfolding verified build args_of required Principal.principal_json
  verified_again a =
      rw
        (
          sorted_set_again a.allowed_projects,
          sorted_set_again a.allowed_operations,
          sorted_set_again a.allowed_purposes,
          sorted_set_again a.delegation_grant_refs,
        )
        refl

  pub verified-build :
      (a : PrincipalArgs) (p : Principal)
      → verified host a ≡ ok p
      → (p ≡ build host a) × (truthy a.authentication_ref ≡ true)
  unfolding verified required
  verified-build a p h =
      let (present, h1) = raise_if_passed (not (all_truthy (required a))) _ _ h in
      let (granted, h2) =
        raise_if_passed
          (authority_is_empty (sorted_set a.allowed_projects) (sorted_set a.allowed_operations)
            (sorted_set a.allowed_purposes))
          _ _ h1 in
      let (state, h3) =
        raise_if_passed (is_below a.policy_epoch 0 || not (a.status == active)) _ _ h2 in
      let (own, h4) =
        raise_if_passed (not (a.attestation.principal_ref == a.principal_ref)) _ _ h3 in
      let (ordered, h5) =
        raise_if_passed (not (valid_interval host a.issued_at a.valid_until a.issued_at)) _ _ h4 in
      (sym (ok_injective h5), ground (arith, present))
