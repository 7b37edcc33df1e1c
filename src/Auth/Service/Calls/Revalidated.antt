-- ===== src/Auth/Service/Calls/Revalidated.antt =====
-- `revalidate`: what it re-checks, that it accepts a binding just made, and that a new policy epoch
-- ends every older binding.
use ragsistemi.Prelude.{
  ℕ, String, ◌≡◌, refl, ap, ◌↔◌, Bool, true, none, some, Option, contains, Result, ok, err, arith,
  string_eq, bind-eq-ok,
}
use ragsistemi.Host.{Host}
use ragsistemi.Canonical.{sha256_json}
use ragsistemi.Models.{QueryRequest, normalized, as_dict, normalized-as_dict}
use ragsistemi.Canonical.Serial.{Json}
use ragsistemi.Auth.Principal
use ragsistemi.Auth.Principal.{Principal, same_epoch}
use ragsistemi.Auth.Adapters.{
  RegistryAdapter, RateLimiterAdapter, PolicyEpochAdapter, ReplayGuardAdapter,
}
use ragsistemi.Auth.Service as Bindings
use ragsistemi.Auth.Service.{
  Binding, Evaluation, deny, allow, now_or, build_binding, same_binding, binding_is_valid,
}
use ragsistemi.Auth.Service.Bound.{build_binding-bind, same_binding_iff}
use ragsistemi.Auth.Service.Calls
use ragsistemi.Auth.Service.Calls.{Service, revalidate, current_epoch}

module _ (host : Host) (registry : RegistryAdapter) (limiter : RateLimiterAdapter)
    (epochs : PolicyEpochAdapter) (guard : ReplayGuardAdapter host) where
  abbrev State : Type 0
  State = Calls.State host registry limiter epochs guard

  -- A binding still holds for a request.
  pub record IsCurrent (r : QueryRequest) (b : Binding) (current : String) (s : State)
      (p : Principal) (epoch : ℕ) : Type 0 where
    pub resolved : registry.resolve (some b.authentication_ref) s.registry ≡ some p
    pub at_epoch : current_epoch host registry limiter epochs guard s ≡ ok epoch
    pub valid : Principal.is_valid host p current epoch ≡ true
    pub same_policy : same_epoch b.policy_epoch epoch ≡ true
    pub project : contains p.allowed_projects r.project_constraint ≡ true
    pub purpose : contains p.allowed_purposes r.purpose ≡ true
    pub operation : contains p.allowed_operations s.operation ≡ true
    pub derived : build_binding host s.operation r p b.issued_at ≡ ok b
    pub in_time : binding_is_valid host b current epoch ≡ true

  rebuilt-true :
      (b : Binding) (current : String) (epoch : ℕ) (built : Result Binding)
      → Calls.rebuilt host registry limiter epochs guard b current epoch built ≡ ok true
      → (built ≡ ok b) × (binding_is_valid host b current epoch ≡ true)
  unfolding Calls.rebuilt
  rebuilt-true b current epoch (ok c) h = ground (arith, (same_binding_iff c b).0)
  rebuilt-true b current epoch (err e) h = cc

  recheck-true :
      (j : Json) (r : QueryRequest) (b : Binding) (current : String) (epoch : ℕ) (p : Principal)
      (s : State)
      → Calls.recheck host registry limiter epochs guard j r b current epoch (some p) s ≡ ok true
      → (Principal.is_valid host p current epoch ≡ true)
        × (same_epoch b.policy_epoch epoch ≡ true)
        × (contains p.allowed_projects r.project_constraint ≡ true)
        × (contains p.allowed_purposes r.purpose ≡ true)
        × (contains p.allowed_operations s.operation ≡ true)
        × (build_binding host s.operation r p b.issued_at ≡ ok b)
        × (binding_is_valid host b current epoch ≡ true)
  unfolding Calls.recheck
  recheck-true j r b current epoch p s h =
      ground (arith, rebuilt-true b current epoch (build_binding host s.operation r p b.issued_at))

  recheck_found :
      (j : Json) (r : QueryRequest) (b : Binding) (current : String) (epoch : ℕ) (s : State)
      → current_epoch host registry limiter epochs guard s ≡ ok epoch
      → (found : Option Principal) → registry.resolve (some b.authentication_ref) s.registry ≡ found
      → Calls.recheck host registry limiter epochs guard j r b current epoch found s ≡ ok true
      → (p : Principal) × IsCurrent r b current s p epoch
  recheck_found j r b current epoch s at none known h = absurd (unfold Calls.recheck in cc)
  recheck_found j r b current epoch s at (some p) known h =
      let c = recheck-true j r b current epoch p s h in
      (
        p,
        record {
          resolved = known;
          at_epoch = at;
          valid = c.0;
          same_policy = c.1;
          project = c.2;
          purpose = c.3;
          operation = c.4;
          derived = c.5;
          in_time = c.6;
        },
      )

  caught_true :
      (m : Result Bool)
      → Calls.is_ok_true host registry limiter epochs guard m ≡ ok true
      → m ≡ ok true
  unfolding Calls.is_ok_true
  caught_true (ok x) h = h
  caught_true (err e) h = ground arith

  -- what an answer of true comes from
  pub revalidate-true :
      (r : QueryRequest) (b : Binding) (now : Option String) (wall : String) (s : State)
      → revalidate host registry limiter epochs guard r b now wall s ≡ ok true
      → (epoch : ℕ) × (p : Principal) × IsCurrent r b (now_or now wall) s p epoch
  unfolding revalidate
  revalidate-true r b now wall s h =
      let current = now_or now wall in
      let passed =
        caught_true (Calls.attempt_recheck host registry limiter epochs guard r b current s) h in
      let (j, made, h1) = bind-eq-ok (normalized r) _ passed in
      let (epoch, at, h2) = bind-eq-ok (current_epoch host registry limiter epochs guard s) _ h1 in
      let f =
        recheck_found j r b current epoch s at
          (registry.resolve (some b.authentication_ref) s.registry) refl h2 in
      (epoch, f.0, f.1)

  recheck-IsCurrent :
      (r : QueryRequest) (b : Binding) (current : String) (s : State) (p : Principal) (epoch : ℕ)
      → IsCurrent r b current s p epoch
      → Calls.recheck host registry limiter epochs guard (as_dict r) r b current epoch (some p) s
        ≡ ok true
  unfolding Calls.recheck
  recheck-IsCurrent r b current s p epoch c =
      let (subject_fp, purpose_fp, e) =
        build_binding-bind host s.operation r p b.issued_at b c.derived in
      let named : b.request_fingerprint ≡ sha256_json host (as_dict r) =
        unfold Bindings.bind in ap (λ (x : Binding). x.request_fingerprint) e in
      let owned : b.principal_ref ≡ p.principal_ref =
        unfold Bindings.bind in ap (λ (x : Binding). x.principal_ref) e in
      let again : Calls.rebuilt host registry limiter epochs guard b current epoch
            (build_binding host s.operation r p b.issued_at)
          ≡ ok true =
        rw c.derived
          (unfold Calls.rebuilt in ground (arith, (same_binding_iff b b).1 refl, c.in_time)) in
      ground (arith, named, owned, c.valid, c.same_policy, c.project, c.purpose, c.operation, again)

  normalized_of :
      (operation : String) (r : QueryRequest) (p : Principal) (t : String) (b : Binding)
      → build_binding host operation r p t ≡ ok b
      → normalized r ≡ ok (as_dict r)
  unfolding build_binding
  normalized_of operation r p t b h =
      let (j, made, h1) = bind-eq-ok (normalized r) _ h in
      rw made (ap ok (normalized-as_dict r j made))

  -- `revalidate` answers true for every binding that is current.
  pub IsCurrent-revalidate :
      (r : QueryRequest) (b : Binding) (now : Option String) (wall : String) (s : State)
      (p : Principal) (epoch : ℕ)
      → IsCurrent r b (now_or now wall) s p epoch
      → revalidate host registry limiter epochs guard r b now wall s ≡ ok true
  unfolding revalidate Calls.attempt_recheck Calls.is_ok_true
  IsCurrent-revalidate r b now wall s p epoch c =
      rw (normalized_of s.operation r p b.issued_at b c.derived, c.at_epoch, c.resolved)
        (rw (recheck-IsCurrent r b (now_or now wall) s p epoch c) refl)

  -- `revalidate` answers true exactly where the binding is, field by field, the one that the service
  -- derives now for this request and for the principal that the binding names, that principal is
  -- valid now at the current policy epoch and still has project, purpose and operation, and the
  -- binding has that epoch and has not run out.
  pub revalidate_iff :
      (r : QueryRequest) (b : Binding) (now : Option String) (wall : String) (s : State)
      → (revalidate host registry limiter epochs guard r b now wall s ≡ ok true)
        ↔ ((epoch : ℕ) × (p : Principal) × IsCurrent r b (now_or now wall) s p epoch)
  revalidate_iff r b now wall s =
      (revalidate-true r b now wall s, λ c. IsCurrent-revalidate r b now wall s c.1 c.0 c.2)
