-- ===== src/ControlPlane/Epoch.antt =====
-- `SQLitePolicyEpoch`: the row of a table that has at most one.
use ragsistemi.Prelude.{
  ℕ, ◌≡◌, ◌≤◌, ◌+◌, refl, true, Option, none, some, ltb, if◌then◌else◌, Result, ok, err, Error,
  value_error, request_authorization_error, is_value_error, arith,
}
use ragsistemi.Prelude.Int.{ℤ, pos, negsuc}
use ragsistemi.Auth.Adapters.{PolicyEpochAdapter}

abbrev pub Row : Type 0
Row = Option ℕ

-- the check of `__init__`
unfoldable pub initial : ℤ → Result ℕ
initial (pos n) = ok n
initial (negsuc n) = err (value_error "policy_epoch_invalid")

-- `INSERT OR IGNORE`
unfoldable pub initialize : ℕ → Row → Row
initialize first none = some first
initialize first (some epoch) = some epoch

unfoldable pub get : Row → Result ℕ
get none = err (request_authorization_error "policy_epoch_uninitialized")
get (some epoch) = ok epoch

unfoldable pub advance : ℤ → Row → Result Row
advance (negsuc n) row = err (value_error "policy_epoch_invalid")
advance (pos n) none = err (request_authorization_error "policy_epoch_uninitialized")
advance (pos n) (some epoch) =
    if ltb n epoch then err (value_error "policy_epoch_cannot_move_backwards") else ok (some n)

-- the next epoch, and the row behind it
unfoldable pub bump : Row → Result (ℕ × Row)
bump none = err (request_authorization_error "policy_epoch_uninitialized")
bump (some epoch) = ok (epoch + 1, some (epoch + 1))

pub raises-get : (row : Row) (e : Error) → get row ≡ err e → is_value_error e ≡ true
unfolding get
raises-get row e h = ground arith

pub get-advance :
    (n : ℤ) (row row' : Row) (old : ℕ)
    → advance n row ≡ ok row'
    → get row ≡ ok old
    → (new : ℕ) × (n ≡ pos new) × (old ≤ new) × (get row' ≡ ok new)
unfolding get advance
get-advance (negsuc n) row row' old h at = cc
get-advance (pos n) none row' old h at = cc
get-advance (pos n) (some epoch) row' old h at = (n, refl, ground arith, ground arith)

-- `SQLitePolicyEpoch` behind the port.
abbrev pub epochs : PolicyEpochAdapter
epochs = record {
  State = Row;
  get = λ row. get row;
  advance = λ n row. advance n row;
  raises = λ row e h. raises-get row e h;
  advance-get = λ n row row' old h at. get-advance n row row' old h at;
}

-- The calls of a worker: `advance`, `bump` and a new `initialize`.
pub data Step : Row → Row → Type 0 where
  advanced : {row row' : Row} → (n : ℤ) → advance n row ≡ ok row' → Step row row'
  bumped : {row row' : Row} → (next : ℕ) → bump row ≡ ok (next, row') → Step row row'
  initialized : {row : Row} → (first : ℕ) → Step row (initialize first row)

pub data Steps : Row → Row → Type 0 where
  stop : {row : Row} → Steps row row
  step : {row mid row' : Row} → Step row mid → Steps mid row' → Steps row row'

Step-rises :
    (old : ℕ) {row row' : Row}
    → row ≡ some old
    → Step row row'
    → (new : ℕ) × (row' ≡ some new) × (old ≤ new)
unfolding advance bump initialize
Step-rises old at (advanced (pos n) h) = ground arith
Step-rises old at (advanced (negsuc n) h) = ground arith
Step-rises old at (bumped next h) = ground arith
Step-rises old at (initialized first) = (old, ground arith, omega arith)

-- Whatever the workers call, in whatever order, an epoch that has been stored never falls and never
-- goes missing.
pub Steps-rise :
    (old : ℕ) {row row' : Row}
    → row ≡ some old
    → Steps row row'
    → (new : ℕ) × (row' ≡ some new) × (old ≤ new)
Steps-rise old at stop = (old, at, omega arith)
Steps-rise old at (step s rest) =
    let (mid, at', le) = Step-rises old at s in
    let (new, at'', le') = Steps-rise mid at' rest in (new, at'', omega arith)
