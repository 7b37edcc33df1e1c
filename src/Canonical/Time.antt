-- ===== src/Canonical/Time.antt =====
-- `_parse_time` and the validity intervals of pmiri/request_auth.py and pmiri/security.py.
use Prim.Native.Char.{code}
use ragsistemi.Prelude.{
  ℕ, String, ◌≡◌, ◌≤◌, ◌&&◌, ◌↔◌, Bool, true, false, ◌==◌, nat_eq, leb, if◌then◌else◌, Option, none,
  some, arith, Result, ok, err, Error, value_error, ◌>>=◌, truthy,
}
use ragsistemi.Host.{Host, IsoTime, naive, aware}

-- `value[:-1] + "+00:00" if value.endswith("Z") else value`
unfoldable pub normalize_zone : String → String
unfolding nat_eq
normalize_zone String.[] = String.[]
normalize_zone (String.◌∷◌ c String.[]) =
    if code c == b'Z' then "+00:00" else String.◌∷◌ c String.[]
normalize_zone (String.◌∷◌ c (String.◌∷◌ d s)) = String.◌∷◌ c (normalize_zone (String.◌∷◌ d s))

utc : Option IsoTime → Result ℕ
utc none = err (value_error "Invalid isoformat string")
utc (some naive) = err (value_error "timestamp_must_be_timezone_aware")
utc (some (aware t)) = ok t

is_true : Result Bool → Bool
is_true (ok b) = b
is_true (err e) = false

module _ (host : Host) where
  -- `_parse_time`, for texts whose time has an instant in UTC: for others `astimezone` raises an
  -- OverflowError, which no `except` of the callers names
  unfoldable pub parse_time : String → Result ℕ
  unfolding utc
  parse_time value = utc (host.from_iso_format (normalize_zone value))

  -- For these texts the exceptions of `_parse_time` are ValueErrors.
  pub raises-parse_time :
      (value : String) (e : Error) → parse_time value ≡ err e → (m : String) × (e ≡ value_error m)
  unfolding parse_time
  raises-parse_time value e h = raised (host.from_iso_format (normalize_zone value)) h
    where
      raised : (o : Option IsoTime) → utc o ≡ err e → (m : String) × (e ≡ value_error m)
      raised none k = ("Invalid isoformat string", cc)
      raised (some naive) k = ("timestamp_must_be_timezone_aware", cc)
      raised (some (aware t)) k = cc

  interval : String → String → String → Result Bool
  interval valid_from valid_until now = do
    start ← parse_time valid_from
    current ← parse_time now
    end ← parse_time valid_until
    ok (leb start current && leb current end)

  -- `_valid_interval` of pmiri/request_auth.py: `except (TypeError, ValueError): return False`
  unfoldable pub valid_interval : String → String → String → Bool
  unfolding interval is_true
  valid_interval valid_from valid_until now = is_true (interval valid_from valid_until now)

  open_interval : String → Option String → String → Result Bool
  open_interval valid_from none now = do
    start ← parse_time valid_from
    current ← parse_time now
    ok (leb start current)
  open_interval valid_from (some valid_until) now =
      if truthy valid_until
      then (do
        start ← parse_time valid_from
        end ← parse_time valid_until
        current ← parse_time now
        ok (leb start current && leb current end))
      else (do start ← parse_time valid_from; current ← parse_time now; ok (leb start current))

  -- `_valid_interval` of pmiri/security.py, where the end may be missing
  unfoldable pub valid_open_interval : String → Option String → String → Bool
  unfolding open_interval is_true
  valid_open_interval valid_from valid_until now =
      is_true (open_interval valid_from valid_until now)

  -- An interval is valid exactly when the three times parse and are in order.
  pub valid_interval_iff :
      (valid_from valid_until now : String)
      → (valid_interval valid_from valid_until now ≡ true) ↔ (
          (s : ℕ) × (c : ℕ) × (e : ℕ) × (parse_time valid_from ≡ ok s)
          × (parse_time now ≡ ok c)
          × (parse_time valid_until ≡ ok e)
          × (s ≤ c)
          × (c ≤ e))
  unfolding valid_interval
  valid_interval_iff f u n = (λ h. ground arith, λ h. ground arith)
