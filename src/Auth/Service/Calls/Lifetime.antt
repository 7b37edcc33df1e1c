-- ===== src/Auth/Service/Calls/Lifetime.antt =====
-- The life of a binding: it revalidates when it is made, and ends with the policy epoch.
use mathlib.Core.Path.{subst}
use ragsistemi.Prelude.{
  ℕ, String, ◌≡◌, ◌≢◌, ◌<◌, ◌≤◌, refl, sym, ap, ◌∙◌, true, none, some, Option, ok, arith, string_eq,
  ltb, bind-eq-ok, ok_injective, Bool-cases, inl, inr,
}
use ragsistemi.Prelude.Int.{ℤ, pos, negsuc}
use ragsistemi.Host.{Host}
use ragsistemi.Canonical.Time.{valid_interval}
use ragsistemi.Models.{QueryRequest, as_dict}
use ragsistemi.Auth.Principal
use ragsistemi.Auth.Principal.{Principal, same_epoch}
use ragsistemi.Auth.Adapters.{
  RegistryAdapter, RateLimiterAdapter, PolicyEpochAdapter, ReplayGuardAdapter,
}
use ragsistemi.Auth.Service.{Binding, allow, now_or, build_binding, binding_is_valid, bind}
use ragsistemi.Auth.Service.Bound.{build_binding-bind}
use ragsistemi.Auth.Service.Calls
use ragsistemi.Auth.Service.Calls.{evaluate, revalidate, current_epoch, advance_policy_epoch}
use ragsistemi.Auth.Service.Calls.Granted.{IsGranted, after, evaluate-allow}
use ragsistemi.Auth.Service.Calls.Revalidated.{IsCurrent, revalidate-true, IsCurrent-revalidate}

-- an interval that holds a moment holds it when it begins there
valid_interval_from :
    (host : Host) (issued until current : String)
    → valid_interval host issued until current ≡ true
    → valid_interval host current until current ≡ true
unfolding valid_interval
valid_interval_from host issued until current h = ground arith

-- what a principal that is valid gives a binding made now
valid_parts :
    (host : Host) (p : Principal) (current : String) (epoch : ℕ)
    → Principal.is_valid host p current epoch ≡ true
    → (same_epoch p.policy_epoch epoch ≡ true)
      × (valid_interval host p.issued_at p.valid_until current ≡ true)
unfolding Principal.is_valid
valid_parts host p current epoch h = ground arith

one_epoch :
    (i : ℤ) (old new epoch : ℕ)
    → old < new
    → same_epoch i old ≡ true
    → same_epoch i epoch ≡ true
    → epoch ≡ new
    → ⊥
unfolding same_epoch
one_epoch (pos n) old new epoch lt x y z = ground arith
one_epoch (negsuc n) old new epoch lt x y z = cc

module _ (host : Host) (registry : RegistryAdapter) (limiter : RateLimiterAdapter)
    (epochs : PolicyEpochAdapter) (guard : ReplayGuardAdapter host) where
  abbrev State : Type 0
  State = Calls.State host registry limiter epochs guard

  granted-IsCurrent :
      (r : QueryRequest) (ref : Option String) (current : String) (clock : ℕ) (s : State)
      (b : Binding) (p : Principal) (epoch : ℕ)
      → registry.IsWell s.registry
      → IsGranted host registry limiter epochs guard r ref current clock s b p epoch
      → IsCurrent host registry limiter epochs guard r b current
          (after host registry limiter epochs guard r current clock s b p)
          p
          epoch
  unfolding after
  granted-IsCurrent r ref current clock s b p epoch well g =
      let (subject_fp, purpose_fp, e) = build_binding-bind host s.operation r p current b g.bound in
      let made : Binding = bind host (as_dict r) s.operation r p subject_fp purpose_fp current in
      let owner : b.authentication_ref ≡ p.authentication_ref =
        unfold bind in ap (λ (x : Binding). x.authentication_ref) e in
      let issued : b.issued_at ≡ current = unfold bind in ap (λ (x : Binding). x.issued_at) e in
      let epoch_of : b.policy_epoch ≡ p.policy_epoch =
        unfold bind in ap (λ (x : Binding). x.policy_epoch) e in
      let until : b.valid_until ≡ p.valid_until =
        unfold bind in ap (λ (x : Binding). x.valid_until) e in
      let (same, inside) = valid_parts host p current epoch g.valid in
      let again = valid_interval_from host p.issued_at p.valid_until current inside in
      record {
        resolved = rw owner (registry.own ref s.registry p well g.resolved);
        at_epoch = unfold current_epoch in g.at_epoch;
        valid = g.valid;
        same_policy = rw epoch_of same;
        project = g.project;
        purpose = g.purpose;
        operation = g.operation;
        derived =
            subst (λ (t : String). build_binding host s.operation r p t ≡ ok b) (sym issued)
              g.bound;
        in_time = unfold binding_is_valid in ground (arith, epoch_of, issued, until, same, again);
      }

  -- Over a registry that files each principal under its own reference, a binding that `evaluate`
  -- has just issued revalidates at the same moment.
  pub revalidate-evaluate :
      (r : QueryRequest) (ref now : Option String) (wall : String) (clock : ℕ) (s s' : State)
      (b : Binding)
      → registry.IsWell s.registry
      → evaluate host registry limiter epochs guard r ref now wall clock s ≡ (ok (allow b), s')
      → revalidate host registry limiter epochs guard r b now wall s' ≡ ok true
  revalidate-evaluate r ref now wall clock s s' b well h =
      let (p, epoch, g, state) =
        evaluate-allow host registry limiter epochs guard r ref now wall clock s s' b h in
      rw state (
        IsCurrent-revalidate host registry limiter epochs guard r b now wall
          (after host registry limiter epochs guard r (now_or now wall) clock s b p) p epoch
          (granted-IsCurrent r ref (now_or now wall) clock s b p epoch well g))

  -- a binding of another epoch than the current one never revalidates
  revalidate_stale :
      (r : QueryRequest) (b : Binding) (now : Option String) (wall : String) (s : State)
      (old new : ℕ)
      → same_epoch b.policy_epoch old ≡ true
      → old < new
      → current_epoch host registry limiter epochs guard s ≡ ok new
      → revalidate host registry limiter epochs guard r b now wall s ≢ ok true
  revalidate_stale r b now wall s old new was later at h =
      let (epoch, p, c) = revalidate-true host registry limiter epochs guard r b now wall s h in
      one_epoch b.policy_epoch old new epoch later was c.same_policy
        (ok_injective (sym c.at_epoch ∙ at))

  advance_own_epoch :
      (n : ℤ) (s s' : State)
      → Calls.advance_own host registry limiter epochs guard n s ≡ ok s'
      → (new : ℕ) × (n ≡ pos new)
        × (s.current_policy_epoch ≤ new)
        × (s' ≡ record s { current_policy_epoch = new })
  unfolding Calls.advance_own
  advance_own_epoch (negsuc n) s s' h = cc
  advance_own_epoch (pos n) s s' h = elim (Bool-cases (ltb n s.current_policy_epoch)) [
    | inl back ↦ absurd (ground arith)
    | inr on ↦ (n, refl, ground arith, ground arith)
  ]

  advance_epoch :
      (n : ℤ) (kept : Option epochs.State) (s s' : State) (old : ℕ)
      → s.epoch_store ≡ kept
      → Calls.advance_stored host registry limiter epochs guard n kept s ≡ ok s'
      → current_epoch host registry limiter epochs guard s ≡ ok old
      → (new : ℕ) × (n ≡ pos new)
        × (old ≤ new)
        × (current_epoch host registry limiter epochs guard s' ≡ ok new)
  unfolding Calls.advance_stored current_epoch
  advance_epoch n none s s' old kept h at =
      let (new, e, le, state) = advance_own_epoch n s s' h in
      (new, e, ground (arith, kept), ground (arith, kept, state))
  advance_epoch n (some e) s s' old kept h at =
      let (e', advanced, h1) = bind-eq-ok (epochs.advance n e) _ h in
      let (new, eq, le, got) = epochs.advance-get n e e' old advanced (ground (arith, kept)) in
      (new, eq, le, ground (arith, got))

  -- Where the current policy epoch can be read and the policy epoch is advanced, in the object or
  -- in its store, the current epoch becomes the one asked for, which is not lower.
  pub current_epoch-advance :
      (n : ℤ) (s s' : State) (old : ℕ)
      → advance_policy_epoch host registry limiter epochs guard n s ≡ ok s'
      → current_epoch host registry limiter epochs guard s ≡ ok old
      → (new : ℕ) × (n ≡ pos new)
        × (old ≤ new)
        × (current_epoch host registry limiter epochs guard s' ≡ ok new)
  unfolding advance_policy_epoch
  current_epoch-advance n s s' old h at = advance_epoch n s.epoch_store s s' old refl h at

  -- Once the policy epoch has been advanced from the current one to a higher one, a binding of the
  -- epoch before never revalidates, for any request and at any time.
  pub advance-ends_bindings :
      (old new : ℕ) (s s' : State) (r : QueryRequest) (b : Binding) (now : Option String)
      (wall : String)
      → advance_policy_epoch host registry limiter epochs guard (pos new) s ≡ ok s'
      → current_epoch host registry limiter epochs guard s ≡ ok old
      → same_epoch b.policy_epoch old ≡ true
      → old < new
      → revalidate host registry limiter epochs guard r b now wall s' ≢ ok true
  advance-ends_bindings old new s s' r b now wall h at was lt =
      let (n, e, le, at') = current_epoch-advance (pos new) s s' old h at in
      revalidate_stale r b now wall s' old n was (ground (arith, e)) at'
