-- ===== src/Auth/Rate/Budget.antt =====
-- One call of `FixedWindowRateLimiter`: its effect on the windows, key by key.
use ragsistemi.Prelude.{
  ℕ, ◌+◌, ◌≤◌, ◌≡◌, ◌≢◌, refl, String, not, some, leb, if◌then◌else◌, arith, Bool-cases,
  Option-cases, inl, inr, ◌==◌, string_eq,
}
use ragsistemi.Prelude.Dict.{lookup, insert, lookup-insert}
use ragsistemi.Auth.Rate.{RateLimiter, consume, roll, window_of}

-- No key's count is over the budget.
pub record IsBounded (l : RateLimiter) : Type 0 where
  pub at_key :
      (k : String) (start count : ℕ)
      → lookup k l.windows ≡ some (start, count)
      → count ≤ l.max_requests

-- The window that a consume at `current` counts in.
abbrev pub counting : String → ℕ → RateLimiter → ℕ × ℕ
counting key current l = roll l.window_seconds (window_of (lookup key l.windows) current) current

-- the window that `spend` writes back
abbrev pub spent : ℕ → ℕ × ℕ → ℕ × ℕ
spent max (start, count) = (start, if leb max count then count else count + 1)

windows-consume :
    (key : String) (current : ℕ) (l : RateLimiter)
    → (consume key current l).1
      ≡ record l { windows = insert key (spent l.max_requests (counting key current l)) l.windows }
unfolding consume
windows-consume key current l = elim (Bool-cases (leb l.max_requests (counting key current l).1)) [
  | inl full ↦ rw full
  | inr room ↦ rw room
]

pub lookup-consume :
    (key k : String) (current : ℕ) (l : RateLimiter)
    → lookup k (consume key current l).1.windows ≡ (
        if key == k
        then some (spent l.max_requests (counting key current l))
        else lookup k l.windows)
lookup-consume key k current l =
    rw (windows-consume key current l)
      (lookup-insert k key (spent l.max_requests (counting key current l)) l.windows)

pub policy-consume :
    (key : String) (current : ℕ) (l : RateLimiter)
    → ((consume key current l).1.max_requests ≡ l.max_requests)
      × ((consume key current l).1.window_seconds ≡ l.window_seconds)
policy-consume key current l = rw (windows-consume key current l) (refl, refl)

pub counting-le :
    (key : String) (current : ℕ) (l : RateLimiter)
    → IsBounded l
    → (counting key current l).1 ≤ l.max_requests
unfolding roll window_of
counting-le key current l h = elim (Option-cases (lookup key l.windows)) [
  | inl fresh ↦ rw fresh (ground arith)
  | inr ((s, c), found) ↦ rw found (ground (arith, h.at_key key s c found))
]

-- A call keeps every count within the budget, whether it is allowed or refused.
pub consume-IsBounded :
    (key : String) (current : ℕ) (l : RateLimiter)
    → IsBounded l
    → IsBounded (consume key current l).1
consume-IsBounded key current l h = record {
  at_key = λ k s c p. ground (
    arith,
    lookup-consume key k current l,
    policy-consume key current l,
    counting-le key current l h,
    h.at_key k s c,
  );
}

-- A call of one key leaves the window of every other key as it was.
pub consume-other :
    (key k : String) (current : ℕ) (l : RateLimiter)
    → key ≢ k
    → lookup k (consume key current l).1.windows ≡ lookup k l.windows
consume-other key k current l n = ground (arith, lookup-consume key k current l)

pub allows-consume :
    (key : String) (current : ℕ) (l : RateLimiter)
    → (consume key current l).0 ≡ not (leb l.max_requests (counting key current l).1)
unfolding consume
allows-consume key current l = elim (Bool-cases (leb l.max_requests (counting key current l).1)) [
  | inl full ↦ rw full
  | inr room ↦ rw room
]
