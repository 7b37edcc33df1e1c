-- ===== src/Examples/Ports.antt =====
-- The in-memory ports and the SQLite tables on small inputs.
use ragsistemi.Prelude.{
  ℕ, String, List, ◌≡◌, ◌≤◌, refl, true, false, [], ◌∷◌, Option, ok, none, some, string_eq,
  contains, text_ne, arith,
}
use ragsistemi.Prelude.Dict.{lookup, insert}
use ragsistemi.Auth.Principal.{Principal}
use ragsistemi.Auth.Registry
use ragsistemi.Auth.Registry.{Registry, fingerprint_at, register_keeps, resolve-register}
use ragsistemi.Auth.Rate
use ragsistemi.Auth.Rate.{RateLimiter}
use ragsistemi.Auth.Rate.Budget.{IsBounded}
use ragsistemi.Auth.Rate.Windows.{Within, granted, granted-le}
use ragsistemi.Auth.Replay
use ragsistemi.Auth.Replay.{ReplayGuard}
use ragsistemi.Auth.Replay.Queue.{Holds, admit, consume_at-admit}
use ragsistemi.Auth.Replay.Memory
use ragsistemi.Auth.Replay.Memory.{accepted_once, new-Holds}
use ragsistemi.ControlPlane.Epoch
use ragsistemi.ControlPlane.Epoch.{Steps-rise}
use ragsistemi.ControlPlane.Rates
use ragsistemi.ControlPlane.Rates.{Limiter, answers-in_memory, in_memory}
use ragsistemi.ControlPlane.Replays
use ragsistemi.ControlPlane.Replays.{accepted_until_expiry}
use ragsistemi.ControlPlane.Payload.{principal_payload}
use ragsistemi.ControlPlane.Principals
use ragsistemi.ControlPlane.Principals.Revoked
use ragsistemi.ControlPlane.Principals.Revoked.{revoked_forever}
use ragsistemi.ControlPlane.Principals.Restored.{resolve-register_stored}
use ragsistemi.Examples.Hosts.{host}
use ragsistemi.Examples.Principals.{
  args, principal, principal-verified, attestation_issued, evidence,
}

abbrev guard : ReplayGuard
guard = record { max_entries = 2; seen = []; order = [] }

consume_at-admit_example :
    ((Replay.consume_at "r1" "f" 9 5 guard).0 ≡ ok (admit 2 "r1" "f" 9 5 []).0)
    × Holds (admit 2 "r1" "f" 9 5 []).1 (Replay.consume_at "r1" "f" 9 5 guard).1
consume_at-admit_example = consume_at-admit "r1" "f" 9 5 [] guard (new-Holds 1)

abbrev calls : List Memory.Call
calls =
    record { id = "r2"; fingerprint = "g"; expiry = 9; now = 6 }
    ∷ record { id = "r1"; fingerprint = "f"; expiry = 20; now = 8 }
    ∷ []

first_accepted : (Replay.consume_at "r1" "f" 9 5 guard).0 ≡ ok true
unfolding Replay.consume_at Replay.consume_pruned Replay.admit_into Replay.evict Replay.drop_expired
    lookup
first_accepted = refl

accepted_once_example :
    contains (Memory.accepted (Memory.answers calls (Replay.consume_at "r1" "f" 9 5 guard).1)) "r1"
    ≡ false
accepted_once_example =
    accepted_once guard [] "r1" "f" 9 5 calls (new-Holds 1) first_accepted (omega arith)
      (omega arith, (omega arith, tt))

abbrev table_calls : List Replays.Call
table_calls =
    record { id = "r2"; fingerprint = "g"; expiry = 9; now = 6 }
    ∷ record { id = "r1"; fingerprint = "f"; expiry = 20; now = 8 }
    ∷ []

first_recorded : (Replays.consume_at "r1" "f" 9 5 []).0 ≡ true
unfolding Replays.consume_at Replays.delete_expired lookup
first_recorded = refl

accepted_until_expiry_example :
    contains
      (Replays.accepted (Replays.answers table_calls (Replays.consume_at "r1" "f" 9 5 []).1))
      "r1"
    ≡ false
accepted_until_expiry_example =
    accepted_until_expiry [] "r1" "f" 9 5 table_calls first_recorded
      (omega arith, (omega arith, tt))

abbrev limiter : RateLimiter
limiter = record { max_requests = 2; window_seconds = 1; windows = ("k", (0, 1)) ∷ [] }

limiter-IsBounded : IsBounded limiter
unfolding lookup
limiter-IsBounded = record { at_key = λ k s c h. ground arith }

abbrev bursts : List (String × ℕ)
bursts = ("k", 900000) ∷ ("j", 950000) ∷ ("k", 1000000) ∷ ("k", 1100000) ∷ []

bursts-Within : Within "k" 900000 1 bursts
bursts-Within = (
  λ e. (omega arith, omega arith),
  (
    λ e. absurd (text_ne "j" "k" refl e),
    (λ e. (omega arith, omega arith), (λ e. (omega arith, omega arith), tt)),
  ),
)

granted-le_example : granted "k" bursts limiter ≤ 4
granted-le_example = granted-le "k" 900000 bursts limiter limiter-IsBounded bursts-Within

-- the bound is met up to one: three calls within a second pass a budget of two
three_granted : granted "k" bursts limiter ≡ 3
unfolding granted Rate.consume Rate.window_of Rate.roll Rate.spend lookup insert string_eq
three_granted = refl

abbrev fresh_limiter : RateLimiter
fresh_limiter = record { max_requests = 2; window_seconds = 1; windows = [] }

no_window : ◌≡◌ {A = Option (ℕ × ℕ)} (lookup "k" fresh_limiter.windows) none
unfolding lookup
no_window = refl

window_found : lookup "k" limiter.windows ≡ some (0, 1)
unfolding lookup string_eq
window_found = refl

abbrev sql_limiter : Limiter
sql_limiter = record { max_requests = 2; window_seconds = 1; rate_windows = [] }

answers-in_memory_example :
    Rates.answers (λ key t s. Rates.consume key t s) bursts sql_limiter
    ≡ Rates.answers (λ key t s. Rate.consume key t s) bursts (in_memory sql_limiter)
answers-in_memory_example = answers-in_memory bursts sql_limiter

abbrev other : Principal
other = record principal { authentication_ref = "auth/b" }

abbrev filed : Registry
filed = ("auth/a", principal) ∷ []

both_filed : Registry.register other filed ≡ ok (("auth/a", principal) ∷ ("auth/b", other) ∷ [])
unfolding Registry.register lookup insert string_eq
both_filed = refl

a_filed : fingerprint_at (Registry.resolve (some "auth/a") filed) ≡ some "digest"
unfolding Registry.resolve lookup string_eq
a_filed = refl

abbrev row : Principals.Row
row = record {
  principal_fingerprint = "digest";
  payload = principal_payload principal;
  revoked_at = none;
}

stored : Principals.register principal [] ≡ ok (("auth/a", row) ∷ [])
unfolding Principals.register lookup insert
stored = refl

no_row : ◌≡◌ {A = Option Principals.Row} (lookup "auth/a" []) none
unfolding lookup
no_row = refl

resolve-register_stored_example :
    Principals.resolve host (some "auth/a") (("auth/a", row) ∷ []) ≡ some principal
resolve-register_stored_example =
    resolve-register_stored host args principal [] (("auth/a", row) ∷ []) principal-verified
      (evidence, attestation_issued) no_row stored

row_revoked : (Principals.revoke "auth/a" 7 (("auth/a", row) ∷ [])).0 ≡ true
unfolding Principals.revoke lookup string_eq
row_revoked = refl

revoked_forever_example :
    Principals.resolve host
      (some "auth/a")
      (Principals.revoke "auth/b" 8 (Principals.revoke "auth/a" 7 (("auth/a", row) ∷ [])).1).1
    ≡ none
revoked_forever_example =
    revoked_forever host "auth/a" 7 (("auth/a", row) ∷ [])
      (Principals.revoke "auth/b" 8 (Principals.revoke "auth/a" 7 (("auth/a", row) ∷ [])).1).1
      row_revoked (Revoked.step (Revoked.revoked "auth/b" 8) Revoked.stop)

bumped_once : Epoch.bump (some 3) ≡ ok (4, some 4)
unfolding Epoch.bump
bumped_once = refl

Steps-rise_example : (new : ℕ) × (◌≡◌ {A = Option ℕ} (some 4) (some new)) × (3 ≤ new)
Steps-rise_example = Steps-rise 3 refl (Epoch.step (Epoch.bumped 4 bumped_once) Epoch.stop)
