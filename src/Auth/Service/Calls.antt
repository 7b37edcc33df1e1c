-- ===== src/Auth/Service/Calls.antt =====
-- The methods of `RequestAuthorizationService`: `advance_policy_epoch`, `evaluate` and `revalidate`.
-- A method that mutates returns the new service, beside an exception too: what was consumed before
-- a raise stays consumed. `wall` is what `utc_now()` gives at the call, `clock` what `self.clock()`
-- gives.
pub mod Granted
pub mod Denied
pub mod Replayed
pub mod Revalidated
pub mod Lifetime
pub mod Answered
pub mod Inputs
pub mod Run
use ragsistemi.Prelude.{
  ℕ, String, Bool, true, false, not, ◌&&◌, ◌||◌, [], ◌∷◌, none, some, Option, if◌then◌else◌, ◌==◌,
  string_eq, contains, ltb, Result, ok, err, Error, value_error, ◌>>=◌, ◌>>◌, raise_if,
  is_value_error, concat,
}
use ragsistemi.Prelude.Int.{ℤ, pos, negsuc}
use ragsistemi.Host.{Host}
use ragsistemi.Canonical.{sha256_json}
use ragsistemi.Canonical.Serial.{Json}
use ragsistemi.Models.{QueryRequest, normalized}
use ragsistemi.Auth.Principal
use ragsistemi.Auth.Principal.{Principal, same_epoch}
use ragsistemi.Auth.Adapters.{
  RegistryAdapter, RateLimiterAdapter, PolicyEpochAdapter, ReplayGuardAdapter,
}
use ragsistemi.Auth.Service.{
  Binding, Evaluation, deny, allow, now_or, build_binding, binding_is_valid, same_binding,
}

-- The attributes of the object. `epoch_store` is the state of `policy_epoch_store`, where there is
-- one.
pub record Service (Registry Limiter Guard Epoch : Type 0) : Type 0 where
  pub registry : Registry
  pub current_policy_epoch : ℕ
  pub limiter : Limiter
  pub guard : Guard
  pub operation : String
  pub epoch_store : Option Epoch

-- An outcome, and the object behind it.
abbrev pub Outcome : Type 0 → Type 0
Outcome S = Result Evaluation × S

-- `except (RequestAuthorizationError, TypeError, ValueError, KeyError)`
abbrev pub is_caught : Error → Bool
is_caught (Error.type_error m) = true
is_caught (Error.key_error m) = true
is_caught e = is_value_error e

module _ {S : Type 0} where
  unfoldable pub catch : Outcome S → Outcome S
  catch (ok e, s) = (ok e, s)
  catch (err e, s) = (if is_caught e then ok (deny "AUTHORIZATION_INVALID") else err e, s)

module _ (host : Host) (registry : RegistryAdapter) (limiter : RateLimiterAdapter)
    (epochs : PolicyEpochAdapter) (guard : ReplayGuardAdapter host) where
  abbrev pub State : Type 0
  State = Service registry.State limiter.State guard.State epochs.State

  epoch_in : Option epochs.State → ℕ → Result ℕ
  epoch_in none own = ok own
  epoch_in (some e) own = epochs.get e

  -- `_current_policy_epoch`
  unfoldable pub current_epoch : State → Result ℕ
  unfolding epoch_in
  current_epoch s = epoch_in s.epoch_store s.current_policy_epoch

  advance_own : ℤ → State → Result State
  advance_own (negsuc n) s = err (value_error "policy_epoch_cannot_move_backwards")
  advance_own (pos n) s =
      if ltb n s.current_policy_epoch
      then err (value_error "policy_epoch_cannot_move_backwards")
      else ok (record s { current_policy_epoch = n })

  -- The store refuses a negative epoch, so the number that is kept beside it is not negative.
  nat_or : ℕ → ℤ → ℕ
  nat_or d (pos n) = n
  nat_or d (negsuc n) = d

  advance_stored : ℤ → Option epochs.State → State → Result State
  unfolding advance_own nat_or
  advance_stored new_epoch none s = advance_own new_epoch s
  advance_stored new_epoch (some e) s = do
    e' ← epochs.advance new_epoch e
    ok (record s {
      epoch_store = some e';
      current_policy_epoch = nat_or s.current_policy_epoch new_epoch;
    })

  unfoldable pub advance_policy_epoch : ℤ → State → Result State
  unfolding advance_stored
  advance_policy_epoch new_epoch s = advance_stored new_epoch s.epoch_store s

  -- The replay guard's answer decides.
  replayed : Binding → Result Bool → State → Outcome State
  replayed b (ok true) s = (ok (allow b), s)
  replayed b (ok false) s = (ok (deny "REQUEST_REPLAY"), s)
  replayed b (err e) s = (err e, s)

  guarded : QueryRequest → String → Result Binding → State → Outcome State
  unfolding replayed
  guarded r current (err e) s = (err e, s)
  guarded r current (ok b) s =
      let (answer, guard') =
        guard.consume r.request_id b.fingerprint b.valid_until current s.guard in
      replayed b answer (record s { guard = guard' })

  limited : QueryRequest → Principal → String → Bool × limiter.State → State → Outcome State
  unfolding guarded
  limited r p current (false, limiter') s =
      (ok (deny "RATE_LIMITED"), record s { limiter = limiter' })
  limited r p current (true, limiter') s =
      guarded r current (build_binding host s.operation r p current)
        (record s { limiter = limiter' })

  -- The tests of scope, then the ports that keep count.
  scoped : QueryRequest → Principal → String → ℕ → State → Outcome State
  unfolding limited
  scoped r p current clock s =
      if not (contains p.allowed_projects r.project_constraint)
      then (ok (deny "SCOPE_MISMATCH"), s)
      else if not (contains p.allowed_operations s.operation)
      then (ok (deny "OPERATION_NOT_ALLOWED"), s)
      else if not (contains p.allowed_purposes r.purpose)
      then (ok (deny "PURPOSE_NOT_ALLOWED"), s)
      else limited r p current
          (limiter.consume (concat (p.principal_ref ∷ ":" ∷ s.operation ∷ [])) clock s.limiter) s

  authenticated : QueryRequest → Principal → String → ℕ → Result ℕ → State → Outcome State
  unfolding scoped
  authenticated r p current clock (err e) s = (err e, s)
  authenticated r p current clock (ok epoch) s =
      if not (Principal.is_valid host p current epoch)
      then (ok (deny "AUTHORITY_STALE_OR_INVALID"), s)
      else scoped r p current clock s

  resolved : QueryRequest → Option Principal → String → ℕ → State → Outcome State
  unfolding authenticated
  resolved r none current clock s = (ok (deny "AUTHENTICATION_UNKNOWN"), s)
  resolved r (some p) current clock s = authenticated r p current clock (current_epoch s) s

  attempt : QueryRequest → Option String → String → ℕ → Result Json → State → Outcome State
  unfolding resolved
  attempt r ref current clock (err e) s = (err e, s)
  attempt r ref current clock (ok j) s =
      resolved r (registry.resolve ref s.registry) current clock s

  unfoldable pub evaluate :
      QueryRequest
      → (authentication_ref now : Option String) → (wall : String) (clock : ℕ) → State
      → Outcome State
  unfolding attempt
  evaluate r ref now wall clock s = catch (attempt r ref (now_or now wall) clock (normalized r) s)

  -- the candidate against the binding
  rebuilt : Binding → String → ℕ → Result Binding → Result Bool
  rebuilt b current epoch (ok candidate) =
      ok (same_binding candidate b && binding_is_valid host b current epoch)
  rebuilt b current epoch (err e) = err e

  recheck : Json → QueryRequest → Binding → String → ℕ → Option Principal → State → Result Bool
  unfolding rebuilt
  recheck j r b current epoch none s = ok false
  recheck j r b current epoch (some p) s =
      if not (Principal.is_valid host p current epoch)
      then ok false
      else if not (same_epoch b.policy_epoch epoch)
      then ok false
      else if not (b.request_fingerprint == sha256_json host j)
      then ok false
      else if not (b.principal_ref == p.principal_ref)
      then ok false
      else if not (contains p.allowed_projects r.project_constraint)
      then ok false
      else if not (contains p.allowed_purposes r.purpose)
          || not (contains p.allowed_operations s.operation)
      then ok false
      else rebuilt b current epoch (build_binding host s.operation r p b.issued_at)

  attempt_recheck : QueryRequest → Binding → String → State → Result Bool
  unfolding recheck
  attempt_recheck r b current s = do
    j ← normalized r
    epoch ← current_epoch s
    recheck j r b current epoch (registry.resolve (some b.authentication_ref) s.registry) s

  is_ok_true : Result Bool → Result Bool
  is_ok_true (ok x) = ok x
  is_ok_true (err e) = if is_caught e then ok false else err e

  -- `revalidate` leaves the object as it is.
  unfoldable pub revalidate :
      QueryRequest → Binding → (now : Option String) → (wall : String) → State → Result Bool
  unfolding attempt_recheck is_ok_true
  revalidate r b now wall s = is_ok_true (attempt_recheck r b (now_or now wall) s)
