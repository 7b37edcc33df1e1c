-- ===== src/Auth/Adapters.antt =====
-- The four ports of pmiri/server.py (`ServerAuthorizationAdapters`): operations over a state that
-- the deployment owns, with the laws on which the authorization service relies. The in-memory
-- classes of pmiri/request_auth.py and the SQLite classes of pmiri/control_plane.py fill them.
use ragsistemi.Prelude.{
  ℕ, ◌<◌, String, ◌≡◌, ◌≢◌, Bool, true, false, Option, some, ◌≤◌, Result, ok, err, is_value_error,
  Error,
}
use ragsistemi.Prelude.Int.{ℤ, pos}
use ragsistemi.Host.{Host}
use ragsistemi.Canonical.Time.{parse_time}
use ragsistemi.Auth.Principal.{Principal}

pub record RegistryAdapter : Type 1 where
  pub State : Type 0
  pub resolve : Option String → State → Option Principal
  pub IsWell : State → Type 0
  -- a principal is filed under its own reference
  pub own :
      (ref : Option String) (s : State) (p : Principal)
      → IsWell s
      → resolve ref s ≡ some p
      → resolve (some p.authentication_ref) s ≡ some p

pub record RateLimiterAdapter : Type 1 where
  pub State : Type 0
  pub consume : String → ℕ → State → Bool × State

pub record PolicyEpochAdapter : Type 1 where
  pub State : Type 0
  pub get : State → Result ℕ
  pub advance : ℤ → State → Result State
  -- the exceptions of `get` are among those that the service catches
  pub raises : (s : State) (e : Error) → get s ≡ err e → is_value_error e ≡ true
  -- the epoch never falls, and becomes the one asked for
  pub advance-get :
      (n : ℤ) (s s' : State) (old : ℕ)
      → advance n s ≡ ok s'
      → get s ≡ ok old
      → (new : ℕ) × (n ≡ pos new) × (old ≤ new) × (get s' ≡ ok new)

pub record ReplayGuardAdapter (host : Host) : Type 1 where
  pub State : Type 0
  -- request id, fingerprint, `expires_at`, `now`
  pub consume : String → String → String → String → State → Result Bool × State
  -- what holds of the state between two calls
  pub IsWell : State → Type 0
  pub consume-IsWell :
      (id fp until now : String) (s : State) → IsWell s → IsWell (consume id fp until now s).1
  -- the exceptions of a call are those of the timestamps
  pub raises :
      (id fp until now : String) (s : State)
      → IsWell s
      → (consume id fp until now s).0 ≢ ok true
      → (consume id fp until now s).0 ≢ ok false
      → (m : String) × ((consume id fp until now s).0 ≡ err (Error.value_error m))
  -- a request that was accepted is refused in the next call, up to its expiry
  pub once :
      (id fp until now fp' until' now' : String) (e t : ℕ) (s : State)
      → IsWell s
      → (consume id fp until now s).0 ≡ ok true
      → parse_time host until ≡ ok e
      → parse_time host now' ≡ ok t
      → t < e
      → (consume id fp' until' now' (consume id fp until now s).1).0 ≢ ok true
