-- ===== src/Auth/Service/Calls/Run.antt =====
-- A service over the in-memory ports, with the policy epoch in its SQLite table.
use ragsistemi.Prelude.{
  ℕ, String, ◌≡◌, ◌≢◌, ◌↔◌, arith, refl, true, [], ok, some, string_eq, nat_eq,
}
use ragsistemi.Prelude.Int.{pos}
use ragsistemi.Prelude.Dict.{lookup}
use ragsistemi.Canonical.Time.{parse_time, normalize_zone}
use ragsistemi.Auth.Principal
use ragsistemi.Auth.InMemory
use ragsistemi.Auth.Service.{allow, now_or}
use ragsistemi.Auth.Service.Calls
use ragsistemi.Auth.Service.Calls.{
  Service, evaluate, revalidate, advance_policy_epoch, current_epoch,
}
use ragsistemi.Auth.Service.Calls.Granted.{IsGranted, after, evaluate-allow}
use ragsistemi.Auth.Service.Calls.Denied.{Effect, evaluate-confined}
use ragsistemi.Auth.Service.Calls.Replayed.{evaluate_once}
use ragsistemi.Auth.Service.Calls.Revalidated.{IsCurrent, revalidate_iff}
use ragsistemi.Auth.Service.Calls.Lifetime.{revalidate-evaluate, advance-ends_bindings}
use ragsistemi.Auth.Replay.Memory.{new-Holds}
use ragsistemi.ControlPlane.Epoch
use ragsistemi.Examples.Hosts.{host}
use ragsistemi.Auth.Service.Calls.Inputs.{State, service, request, binding, used, evaluated}

abbrev half : String
half = "2026-01-01T00:00:05Z"

guard_is_well : InMemory.IsQueue service.guard
guard_is_well = ([], new-Holds 1)

registry_is_well : InMemory.IsFiled service.registry
unfolding lookup
registry_is_well = λ k p h. ground arith

evaluate-allow_example :
    (p : Principal.Principal) × (epoch : ℕ) × IsGranted host InMemory.registry InMemory.limiter
      Epoch.epochs
      (InMemory.guard host)
      request
      (some "auth/a")
      (now_or (some half) "")
      7000000
      service
      binding
      p
      epoch
    × (used
        ≡ after host InMemory.registry InMemory.limiter Epoch.epochs
            (InMemory.guard host)
            request
            (now_or (some half) "")
            7000000
            service
            binding
            p)
evaluate-allow_example =
    evaluate-allow host InMemory.registry InMemory.limiter Epoch.epochs (InMemory.guard host)
      request (some "auth/a") (some half) "" 7000000 service used binding evaluated

evaluate-confined_example :
    Effect host InMemory.registry InMemory.limiter Epoch.epochs
      (InMemory.guard host)
      request
      (some "auth/a")
      (now_or (some half) "")
      7000000
      service
      used
evaluate-confined_example =
    evaluate-confined host InMemory.registry InMemory.limiter Epoch.epochs (InMemory.guard host)
      request (some "auth/a") (some half) "" 7000000 service used (allow binding) guard_is_well
      evaluated

end_parses : parse_time host binding.valid_until ≡ ok 61000000
unfolding parse_time normalize_zone string_eq
end_parses = refl

later_parses : parse_time host (now_or (some "2026-01-01T00:00:09Z") "") ≡ ok 10000000
unfolding parse_time normalize_zone string_eq now_or
later_parses = refl

evaluate_once_example :
    evaluate host InMemory.registry InMemory.limiter Epoch.epochs
      (InMemory.guard host)
      request
      (some "auth/a")
      (some "2026-01-01T00:00:09Z")
      ""
      8000000
      used
    ≢ (ok (allow binding), used)
evaluate_once_example =
    evaluate_once host InMemory.registry InMemory.limiter Epoch.epochs (InMemory.guard host) request
      request (some "auth/a") (some "auth/a") (some half) (some "2026-01-01T00:00:09Z") "" ""
      7000000 8000000 service used used binding binding 61000000 10000000 guard_is_well evaluated
      refl end_parses later_parses (omega arith)

revalidate_iff_example :
    (revalidate host InMemory.registry InMemory.limiter Epoch.epochs
        (InMemory.guard host)
        request
        binding
        (some half)
        ""
        used
      ≡ ok true)
    ↔ ((epoch : ℕ) × (p : Principal.Principal) × IsCurrent host InMemory.registry InMemory.limiter
          Epoch.epochs
          (InMemory.guard host)
          request
          binding
          (now_or (some half) "")
          used
          p
          epoch)
revalidate_iff_example =
    revalidate_iff host InMemory.registry InMemory.limiter Epoch.epochs (InMemory.guard host)
      request binding (some half) "" used

revalidate-evaluate_example :
    revalidate host InMemory.registry InMemory.limiter Epoch.epochs
      (InMemory.guard host)
      request
      binding
      (some half)
      ""
      used
    ≡ ok true
revalidate-evaluate_example =
    revalidate-evaluate host InMemory.registry InMemory.limiter Epoch.epochs (InMemory.guard host)
      request (some "auth/a") (some half) "" 7000000 service used binding registry_is_well evaluated

abbrev advanced : State
advanced = record used { epoch_store = some (some 4); current_policy_epoch = 4 }

epoch_advanced :
    advance_policy_epoch host InMemory.registry InMemory.limiter Epoch.epochs
      (InMemory.guard host)
      (pos 4)
      used
    ≡ ok advanced
unfolding advance_policy_epoch Calls.advance_stored Calls.nat_or Epoch.advance
epoch_advanced = refl

epoch_before :
    current_epoch host InMemory.registry InMemory.limiter Epoch.epochs (InMemory.guard host) used
    ≡ ok 3
unfolding current_epoch Calls.epoch_in Epoch.get
epoch_before = refl

binding_epoch : Principal.same_epoch binding.policy_epoch 3 ≡ true
unfolding Principal.same_epoch nat_eq
binding_epoch = refl

advance-ends_bindings_example :
    revalidate host InMemory.registry InMemory.limiter Epoch.epochs
      (InMemory.guard host)
      request
      binding
      (some half)
      ""
      advanced
    ≢ ok true
advance-ends_bindings_example =
    advance-ends_bindings host InMemory.registry InMemory.limiter Epoch.epochs (InMemory.guard host)
      3 4 used advanced request binding (some half) "" epoch_advanced epoch_before binding_epoch
      (omega arith)
