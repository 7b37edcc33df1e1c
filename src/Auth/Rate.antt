-- ===== src/Auth/Rate.antt =====
-- `FixedWindowRateLimiter` of pmiri/request_auth.py. Times are in microseconds, so a window of `w`
-- seconds is `w * 1000000` long; `current - start >= window` is written without subtraction.
pub mod Budget
pub mod Windows
use ragsistemi.Prelude.{
  ℕ, suc, ◌+◌, ◌*◌, String, Bool, true, false, Option, none, some, [], leb, if◌then◌else◌, Result,
  ok, err, value_error,
}
use ragsistemi.Prelude.Int.{ℤ, pos, negsuc}
use ragsistemi.Prelude.Dict.{Dict, lookup, insert}

pub record RateLimiter : Type 0 where
  pub max_requests : ℕ
  pub window_seconds : ℕ
  -- the start of each key's window, and its count
  pub windows : Dict (ℕ × ℕ)

-- `FixedWindowRateLimiter(max_requests=..., window_seconds=...)`
unfoldable pub new : ℤ → ℤ → Result RateLimiter
new (pos (suc m)) (pos (suc w)) =
    ok (record { max_requests = suc m; window_seconds = suc w; windows = [] })
new _ _ = err (value_error "rate_limit_policy_invalid")

-- `self._windows.get(key, (current, 0))`
unfoldable pub window_of : Option (ℕ × ℕ) → ℕ → ℕ × ℕ
window_of none current = (current, 0)
window_of (some w) current = w

-- A window that has passed starts anew.
unfoldable pub roll : ℕ → ℕ × ℕ → ℕ → ℕ × ℕ
roll window (start, count) current =
    if leb (start + window * 1000000) current then (current, 0) else (start, count)

unfoldable pub spend : String → ℕ × ℕ → RateLimiter → Bool × RateLimiter
spend key (start, count) l =
    if leb l.max_requests count
    then (false, record l { windows = insert key (start, count) l.windows })
    else (true, record l { windows = insert key (start, count + 1) l.windows })

unfoldable pub consume : String → ℕ → RateLimiter → Bool × RateLimiter
unfolding window_of roll spend
consume key current l =
    spend key (roll l.window_seconds (window_of (lookup key l.windows) current) current) l
