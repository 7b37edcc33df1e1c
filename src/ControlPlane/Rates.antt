-- ===== src/ControlPlane/Rates.antt =====
-- `SQLiteRateLimiter`: the table of windows, one row for each key.
use ragsistemi.Prelude.{
  ℕ, ◌≡◌, refl, ◌+◌, ◌*◌, String, Bool, Option, none, some, [], ◌∷◌, List, leb, ltb, if◌then◌else◌,
  arith, ap,
}
use ragsistemi.Prelude.Dict.{Dict, lookup, insert}
use ragsistemi.Auth.Rate
use ragsistemi.Auth.Rate.{RateLimiter}
use ragsistemi.Auth.Adapters.{RateLimiterAdapter}

pub record Limiter : Type 0 where
  pub max_requests : ℕ
  pub window_seconds : ℕ
  pub rate_windows : Dict (ℕ × ℕ)

-- the row of the key, or a window that starts now
row_or : Option (ℕ × ℕ) → ℕ → ℕ × ℕ
row_or none current = (current, 0)
row_or (some row) current = row

restart : ℕ → ℕ → ℕ × ℕ → ℕ × ℕ
restart window current (start, count) =
    if leb (start + window * 1000000) current then (current, 0) else (start, count)

-- the upsert, with one more where the request is allowed
write : String → ℕ × ℕ → Limiter → Bool × Limiter
write key (start, count) l =
    let allowed = ltb count l.max_requests in
    (
      allowed,
      record l {
        rate_windows = insert key (start, if allowed then count + 1 else count) l.rate_windows;
      },
    )

unfoldable pub consume : String → ℕ → Limiter → Bool × Limiter
unfolding row_or restart write
consume key current l =
    write key (restart l.window_seconds current (row_or (lookup key l.rate_windows) current)) l

abbrev pub limiter : RateLimiterAdapter
limiter = record { State = Limiter; consume = λ key now l. consume key now l }

-- the limiter in memory with the table's windows
unfoldable pub in_memory : Limiter → RateLimiter
in_memory l = record {
  max_requests = l.max_requests;
  window_seconds = l.window_seconds;
  windows = l.rate_windows;
}

-- A call of the table and of the dictionary answer alike and leave the same windows.
consume-in_memory :
    (key : String) (t : ℕ) (l : Limiter)
    → Rate.consume key t (in_memory l) ≡ ((consume key t l).0, in_memory (consume key t l).1)
unfolding consume in_memory Rate.consume Rate.spend Rate.roll Rate.window_of
consume-in_memory key t l = ground arith

-- the answers to calls in turn
module _ {S : Type 0} (f : String → ℕ → S → Bool × S) where
  unfoldable pub answers : List (String × ℕ) → S → List Bool
  answers [] s = []
  answers ((key, t) ∷ calls) s = (f key t s).0 ∷ answers calls (f key t s).1

-- From the same policy and windows, the limiter in SQLite and the limiter in memory answer every
-- sequence of calls alike.
pub answers-in_memory :
    (calls : List (String × ℕ)) (l : Limiter)
    → answers (λ key t s. consume key t s) calls l
      ≡ answers (λ key t s. Rate.consume key t s) calls (in_memory l)
unfolding answers
answers-in_memory [] l = refl
answers-in_memory ((key, t) ∷ calls) l =
    rw (consume-in_memory key t l) (
      ap (λ (r : List Bool). (consume key t l).0 ∷ r) (answers-in_memory calls (consume key t l).1))
