-- ===== src/Auth/Service/Calls/Answered.antt =====
-- What `revalidate` of pmiri/request_auth.py raises it catches, so far as the model goes.
use ragsistemi.Prelude.{
  ℕ, String, Bool, true, false, ◌≡◌, refl, inl, inr, Option, none, some, arith, Result, ok, err,
  Error, is_value_error, bind-eq-err, string_eq,
}
use ragsistemi.Host.{Host}
use ragsistemi.Canonical.Serial.{Json}
use ragsistemi.Models.{QueryRequest, normalized, raises-normalized}
use ragsistemi.Auth.Principal.{Principal}
use ragsistemi.Auth.Adapters.{
  RegistryAdapter, RateLimiterAdapter, PolicyEpochAdapter, ReplayGuardAdapter,
}
use ragsistemi.Auth.Service.{Binding, build_binding, now_or}
use ragsistemi.Auth.Service.Bound.{raises-build_binding}
use ragsistemi.Auth.Service.Calls
use ragsistemi.Auth.Service.Calls.{is_caught, current_epoch, revalidate}

value_error-is_caught : (e : Error) → is_value_error e ≡ true → is_caught e ≡ true
value_error-is_caught e h = ground arith

module _ (host : Host) (registry : RegistryAdapter) (limiter : RateLimiterAdapter)
    (epochs : PolicyEpochAdapter) (guard : ReplayGuardAdapter host) where
  abbrev State : Type 0
  State = Calls.State host registry limiter epochs guard

  raises-rebuilt :
      (b : Binding) (current : String) (epoch : ℕ) (candidate : Result Binding) (e : Error)
      → Calls.rebuilt host registry limiter epochs guard b current epoch candidate ≡ err e
      → candidate ≡ err e
  unfolding Calls.rebuilt
  raises-rebuilt b current epoch (ok candidate) e h = cc
  raises-rebuilt b current epoch (err r) e h = cc

  raises-recheck :
      (j : Json) (r : QueryRequest) (b : Binding) (current : String) (epoch : ℕ)
      (found : Option Principal) (s : State) (e : Error)
      → Calls.recheck host registry limiter epochs guard j r b current epoch found s ≡ err e
      → is_value_error e ≡ true
  unfolding Calls.recheck
  raises-recheck j r b current epoch none s e h = cc
  raises-recheck j r b current epoch (some p) s e h = ground (
    arith,
    raises-rebuilt b current epoch (build_binding host s.operation r p b.issued_at) e,
    raises-build_binding host s.operation r p b.issued_at e,
  )

  raises-epoch_in :
      (store : Option epochs.State) (own : ℕ) (e : Error)
      → Calls.epoch_in host registry limiter epochs guard store own ≡ err e
      → is_value_error e ≡ true
  unfolding Calls.epoch_in
  raises-epoch_in none own e h = cc
  raises-epoch_in (some row) own e h = epochs.raises row e h

  raises-attempt_recheck :
      (r : QueryRequest) (b : Binding) (current : String) (s : State) (e : Error)
      → Calls.attempt_recheck host registry limiter epochs guard r b current s ≡ err e
      → is_value_error e ≡ true
  unfolding Calls.attempt_recheck current_epoch
  raises-attempt_recheck r b current s e h = elim (bind-eq-err (normalized r) _ h) [
    | inl early ↦ raises-normalized r e early
    | inr (j, made, h1) ↦
        elim (bind-eq-err
          (Calls.epoch_in host registry limiter epochs guard s.epoch_store s.current_policy_epoch) _
          h1) [
            | inl unread ↦ raises-epoch_in s.epoch_store s.current_policy_epoch e unread
            | inr (epoch, read, h2) ↦
                raises-recheck j r b current epoch
                  (registry.resolve (some b.authentication_ref) s.registry) s e h2
          ]
  ]

  answered :
      (o : Result Bool)
      → ((e : Error) → o ≡ err e → is_value_error e ≡ true)
      → (x : Bool) × (Calls.is_ok_true host registry limiter epochs guard o ≡ ok x)
  unfolding Calls.is_ok_true
  answered (ok x) h = (x, refl)
  answered (err e) h = (false, ground (arith, value_error-is_caught e (h e refl)))

  -- What the ports of this model and its timestamps raise are errors that `revalidate` catches: a
  -- timestamp without a moment in UTC, and an error of the database, are not among them.
  pub revalidate-returns :
      (r : QueryRequest) (b : Binding) (now : Option String) (wall : String) (s : State)
      → (x : Bool) × (revalidate host registry limiter epochs guard r b now wall s ≡ ok x)
  unfolding revalidate
  revalidate-returns r b now wall s =
      answered (Calls.attempt_recheck host registry limiter epochs guard r b (now_or now wall) s)
        (λ e h. raises-attempt_recheck r b (now_or now wall) s e h)
