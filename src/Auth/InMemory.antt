-- ===== src/Auth/InMemory.antt =====
-- The classes of pmiri/request_auth.py behind the ports: `AuthenticationRegistry`, `ReplayGuard` and
-- `FixedWindowRateLimiter`.
use ragsistemi.Prelude.{
  ℕ, ◌<◌, String, ◌≡◌, ◌≢◌, refl, ap, Bool, true, false, none, some, Option, string_eq, Result, ok,
  err, Error, value_error, arith,
}
use ragsistemi.Prelude.Dict.{lookup, lookup-insert}
use ragsistemi.Host.{Host}
use ragsistemi.Canonical.Time.{parse_time, raises-parse_time}
use ragsistemi.Auth.Principal.{Principal}
use ragsistemi.Auth.Registry.{Registry, register, resolve}
use ragsistemi.Auth.Rate
use ragsistemi.Auth.Rate.{RateLimiter}
use ragsistemi.Auth.Replay
use ragsistemi.Auth.Replay.{ReplayGuard, consume_at, consume_parsed}
use ragsistemi.Auth.Replay.Queue.{Requests, Holds, admit, consume_at-admit}
use ragsistemi.Auth.Replay.Memory.{Call, refused_next}
use ragsistemi.Auth.Adapters.{RegistryAdapter, RateLimiterAdapter, ReplayGuardAdapter}

-- every principal is filed under its own reference
abbrev pub IsFiled : Registry → Type 0
IsFiled r = (k : String) (p : Principal) → lookup k r ≡ some p → p.authentication_ref ≡ k

pub register-IsFiled :
    (p : Principal) (r r' : Registry) → IsFiled r → register p r ≡ ok r' → IsFiled r'
unfolding register
register-IsFiled p r r' f h =
    λ k q at. ground (arith, lookup-insert k p.authentication_ref p r, f k q)

pub resolve_own :
    (ref : Option String) (r : Registry) (p : Principal)
    → IsFiled r
    → resolve ref r ≡ some p
    → resolve (some p.authentication_ref) r ≡ some p
unfolding resolve
resolve_own none r p f h = cc
resolve_own (some ref) r p f h = ground (arith, f ref p)

abbrev pub registry : RegistryAdapter
registry = record {
  State = Registry;
  resolve = λ ref r. resolve ref r;
  IsWell = λ r. IsFiled r;
  own = λ ref r p f h. resolve_own ref r p f h;
}

abbrev pub limiter : RateLimiterAdapter
limiter = record { State = RateLimiter; consume = λ key now l. Rate.consume key now l }

abbrev pub IsQueue : ReplayGuard → Type 0
IsQueue g = (q : Requests) × Holds q g

module _ (host : Host) where
  consume_parsed-IsQueue :
      (id fp : String) (now until : Result ℕ) (g : ReplayGuard)
      → IsQueue g
      → IsQueue (consume_parsed id fp now until g).1
  unfolding consume_parsed
  consume_parsed-IsQueue id fp (ok t) (ok e) g (q, h) =
      ((admit g.max_entries id fp e t q).1, (consume_at-admit id fp e t q g h).1)
  consume_parsed-IsQueue id fp (ok t) (err e) g w = w
  consume_parsed-IsQueue id fp (err e) until g w = w

  -- where neither yes nor no is answered, one of the times did not parse
  consume_parsed_raises :
      (id fp : String) (now until : Result ℕ) (g : ReplayGuard)
      → ((e : Error) → now ≡ err e → (m : String) × (e ≡ value_error m))
      → ((e : Error) → until ≡ err e → (m : String) × (e ≡ value_error m))
      → IsQueue g
      → (consume_parsed id fp now until g).0 ≢ ok true
      → (consume_parsed id fp now until g).0 ≢ ok false
      → (m : String) × ((consume_parsed id fp now until g).0 ≡ err (value_error m))
  unfolding consume_parsed
  consume_parsed_raises id fp (ok t) (ok e) g f u (q, h) not_yes not_no =
      let says = (consume_at-admit id fp e t q g h).0 in
      answered (admit g.max_entries id fp e t q).0 says
    where
      answered :
          (b : Bool)
          → (consume_at id fp e t g).0 ≡ ok b
          → (m : String) × ((consume_at id fp e t g).0 ≡ err (value_error m))
      answered true says = absurd (not_yes says)
      answered false says = absurd (not_no says)
  consume_parsed_raises id fp (ok t) (err x) g f u w not_yes not_no =
      let (m, same) = u x refl in (m, ap err same)
  consume_parsed_raises id fp (err x) until g f u w not_yes not_no =
      let (m, same) = f x refl in (m, ap err same)

  consume_parsed_once :
      (id fp fp' : String) (now until now' until' : Result ℕ) (e t : ℕ) (g : ReplayGuard)
      → IsQueue g
      → (consume_parsed id fp now until g).0 ≡ ok true
      → until ≡ ok e
      → now' ≡ ok t
      → t < e
      → (consume_parsed id fp' now' until' (consume_parsed id fp now until g).1).0 ≢ ok true
  unfolding consume_parsed
  consume_parsed_once id fp fp' (err x) until now' until' e t g w h u n lt = cc
  consume_parsed_once id fp fp' (ok s) (err x) now' until' e t g w h u n lt = cc
  consume_parsed_once id fp fp' (ok s) (ok e') (err x) until' e t g w h u n lt = cc
  consume_parsed_once id fp fp' (ok s) (ok e') (ok t') (err x) e t g w h u n lt = λ k. cc
  consume_parsed_once id fp fp' (ok s) (ok e') (ok t') (ok x) e t g (q, held) h u n lt =
      let call : Call = record { id = id; fingerprint = fp'; expiry = x; now = t' } in
      let before : t' < e' = ground arith in
      let no = refused_next g q id fp e' s call held h before refl in λ k. cc

  pub consume-IsQueue :
      (id fp until now : String) (g : ReplayGuard)
      → IsQueue g
      → IsQueue (Replay.consume host id fp until now g).1
  unfolding Replay.consume
  consume-IsQueue id fp until now g w =
      consume_parsed-IsQueue id fp (parse_time host now) (parse_time host until) g w

  pub raises-consume :
      (id fp until now : String) (g : ReplayGuard)
      → IsQueue g
      → (Replay.consume host id fp until now g).0 ≢ ok true
      → (Replay.consume host id fp until now g).0 ≢ ok false
      → (m : String) × ((Replay.consume host id fp until now g).0 ≡ err (value_error m))
  unfolding Replay.consume
  raises-consume id fp until now g w y n =
      consume_parsed_raises id fp (parse_time host now) (parse_time host until) g
        (raises-parse_time host now) (raises-parse_time host until) w y n

  pub consume_once :
      (id fp until now fp' until' now' : String) (e t : ℕ) (g : ReplayGuard)
      → IsQueue g
      → (Replay.consume host id fp until now g).0 ≡ ok true
      → parse_time host until ≡ ok e
      → parse_time host now' ≡ ok t
      → t < e
      → (Replay.consume host id fp' until' now' (Replay.consume host id fp until now g).1).0
        ≢ ok true
  unfolding Replay.consume
  consume_once id fp until now fp' until' now' e t g w h u n lt =
      consume_parsed_once id fp fp' (parse_time host now) (parse_time host until)
        (parse_time host now') (parse_time host until') e t g w h u n lt

  abbrev pub guard : ReplayGuardAdapter host
  guard = record {
    State = ReplayGuard;
    consume = λ id fp until now g. Replay.consume host id fp until now g;
    IsWell = λ g. IsQueue g;
    consume-IsWell = λ id fp until now g w. consume-IsQueue id fp until now g w;
    raises = λ id fp until now g w y n. raises-consume id fp until now g w y n;
    once = λ id fp until now fp' until' now' e t g w h u n lt.
        consume_once id fp until now fp' until' now' e t g w h u n lt;
  }
