-- ===== src/Auth/Service/Calls/Replayed.antt =====
-- A request id in two calls of `evaluate`, one right after the other.
use mathlib.Core.Path.{subst}
use ragsistemi.Prelude.{ℕ, String, ◌≡◌, ◌≢◌, ◌<◌, true, ap, Option, ok}
use ragsistemi.Host.{Host}
use ragsistemi.Canonical.Time.{parse_time}
use ragsistemi.Models.{QueryRequest}
use ragsistemi.Auth.Adapters.{
  RegistryAdapter, RateLimiterAdapter, PolicyEpochAdapter, ReplayGuardAdapter,
}
use ragsistemi.Auth.Service.{Binding, allow, now_or}
use ragsistemi.Auth.Service.Calls
use ragsistemi.Auth.Service.Calls.{evaluate}
use ragsistemi.Auth.Service.Calls.Granted.{evaluate-allow, after}

module _ (host : Host) (registry : RegistryAdapter) (limiter : RateLimiterAdapter)
    (epochs : PolicyEpochAdapter) (guard : ReplayGuardAdapter host) where
  abbrev State : Type 0
  State = Calls.State host registry limiter epochs guard

  -- Of two calls, the second made on the state that the first has left: where the first allowed a
  -- request, over a replay guard in a good state, the second does not allow a request with the same
  -- id, whoever makes it and whatever it asks, at a time before the binding of the first runs out.
  -- Nothing is said of calls with others in between.
  pub evaluate_once :
      (r r' : QueryRequest) (ref ref' now now' : Option String) (wall wall' : String)
      (clock clock' : ℕ) (s s' s'' : State) (b b' : Binding) (e t : ℕ)
      → guard.IsWell s.guard
      → evaluate host registry limiter epochs guard r ref now wall clock s ≡ (ok (allow b), s')
      → r'.request_id ≡ r.request_id
      → parse_time host b.valid_until ≡ ok e
      → parse_time host (now_or now' wall') ≡ ok t
      → t < e
      → evaluate host registry limiter epochs guard r' ref' now' wall' clock' s'
        ≢ (ok (allow b'), s'')
  unfolding after
  evaluate_once r r' ref ref' now now' wall wall' clock clock' s s' s'' b b' e t w h same until at
        lt again =
      let (p, epoch, g, state) =
        evaluate-allow host registry limiter epochs guard r ref now wall clock s s' b h in
      let (p', epoch', g', state') =
        evaluate-allow host registry limiter epochs guard r' ref' now' wall' clock' s' s'' b'
          again in
      let held : s'.guard
          ≡ (guard.consume r.request_id b.fingerprint b.valid_until (now_or now wall) s.guard).1 =
        ap (λ (x : State). x.guard) state in
      let twice =
        subst
          (λ (id : String).
            (guard.consume id b'.fingerprint b'.valid_until (now_or now' wall') s'.guard).0
            ≡ ok true)
          same g'.fresh in
      guard.once r.request_id b.fingerprint b.valid_until (now_or now wall) b'.fingerprint
        b'.valid_until (now_or now' wall') e t s.guard w g.fresh until at lt
        (subst
          (λ (x : guard.State).
            (guard.consume r.request_id b'.fingerprint b'.valid_until (now_or now' wall') x).0
            ≡ ok true)
          held twice)
