-- ===== src/Auth/Rate/Windows.antt =====
-- What `FixedWindowRateLimiter` lets through in a window's length.
use ragsistemi.Prelude.{
  ℕ, ◌+◌, ◌*◌, ◌≤◌, ◌<◌, ◌≡◌, ◌⊎◌, ◌∙◌, refl, String, Bool, true, false, Option, none, some, List,
  [], ◌∷◌, leb, arith, Bool-cases, Option-cases, inl, inr, All, ◌==◌, string_eq, ◌&&◌,
}
use ragsistemi.Prelude.Dict.{lookup}
use ragsistemi.Auth.Rate.{RateLimiter, consume, roll, window_of}
use ragsistemi.Auth.Rate.Budget.{
  IsBounded, counting, lookup-consume, policy-consume, allows-consume, consume-IsBounded,
  consume-other,
}

-- Calls of `consume`, each a key and a time, and how many of them let `key` through.
abbrev pub Calls : Type 0
Calls = List (String × ℕ)

abbrev pub one_if : Bool → ℕ
one_if true = 1
one_if false = 0

unfoldable pub granted : String → Calls → RateLimiter → ℕ
granted key [] l = 0
granted key ((k, t) ∷ calls) l =
    one_if (k == key && (consume k t l).0) + granted key calls (consume k t l).1

-- The times at which `key` calls lie in [from, from + window).
abbrev pub Within : String → ℕ → ℕ → Calls → Type 0
Within key from window =
    All (λ (c : String × ℕ). c.0 ≡ key → (from ≤ c.1) × (c.1 < from + window * 1000000))

-- The window of `key` began at `start`, and has let `count` through.
abbrev Counts : String → ℕ → ℕ → RateLimiter → Type 0
Counts key start count l = lookup key l.windows ≡ some (start, count)

-- a call in the running window counts in it
Counts-consume :
    (key : String) (start count t : ℕ) (l : RateLimiter)
    → Counts key start count l
    → t < start + l.window_seconds * 1000000
    → counting key t l ≡ (start, count)
unfolding roll window_of
Counts-consume key start count t l c lt = rw c (ground arith)

-- a call that finds `count` in its window leaves the window with the call's grant added
consume-counted :
    (key : String) (start count t : ℕ) (l : RateLimiter)
    → counting key t l ≡ (start, count)
    → count ≤ l.max_requests
    → Counts key start (one_if (consume key t l).0 + count) (consume key t l).1
      × (one_if (consume key t l).0 + count ≤ l.max_requests)
consume-counted key start count t l counted le = elim (Bool-cases (leb l.max_requests count)) [
  | inl full ↦
      let refused : (consume key t l).0 ≡ false = rw (allows-consume key t l, counted, full) refl in
      let kept : Counts key start count (consume key t l).1 =
        ground (arith, lookup-consume key key t l, counted) in
      rw refused (ground (arith, kept), omega arith)
  | inr room ↦
      let passed : (consume key t l).0 ≡ true = rw (allows-consume key t l, counted, room) refl in
      let kept : Counts key start (count + 1) (consume key t l).1 =
        ground (arith, lookup-consume key key t l, counted) in
      rw passed (ground (arith, kept), ground arith)
]

-- a call counts in a new window, or in the one that its key has
counting_cases :
    (key : String) (t : ℕ) (l : RateLimiter)
    → (counting key t l ≡ (t, 0))
      ⊎ ((s : ℕ) × (c : ℕ) × Counts key s c l × (counting key t l ≡ (s, c)))
unfolding roll window_of
counting_cases key t l = elim (Option-cases (lookup key l.windows)) [
  | inl fresh ↦ inl (rw fresh (ground arith))
  | inr ((s, c), found) ↦ elim (Bool-cases (leb (s + l.window_seconds * 1000000) t)) [
    | inl old ↦ inl (rw (found, old) refl)
    | inr running ↦ inr (s, c, found, rw (found, running) refl)
  ]
]

module _ (key : String) (max window : ℕ) where
  -- a limiter with this policy
  abbrev HasPolicy : RateLimiter → Type 0
  HasPolicy l = (l.max_requests ≡ max) × (l.window_seconds ≡ window)

  HasPolicy-consume :
      (k : String) (t : ℕ) (l : RateLimiter) → HasPolicy l → HasPolicy (consume k t l).1
  HasPolicy-consume k t l p = ((policy-consume k t l).0 ∙ p.0, (policy-consume k t l).1 ∙ p.1)

  granted-running :
      (start count : ℕ) (calls : Calls) (l : RateLimiter)
      → HasPolicy l
      → Counts key start count l
      → count ≤ max
      → All (λ (c : String × ℕ). c.0 ≡ key → c.1 < start + window * 1000000) calls
      → granted key calls l + count ≤ max
  unfolding granted
  granted-running start count [] l p c le w = omega arith
  granted-running start count ((k, t) ∷ calls) l p c le w = elim (string_eq.dec k key) [
    | yes same ↦
        let lt : t < start + l.window_seconds * 1000000 = rw (p.1) (w.0 same) in
        let (c', le') =
          consume-counted key start count t l (Counts-consume key start count t l c lt)
            (rw p.0 le) in
        let rest =
          granted-running start (one_if (consume key t l).0 + count) calls (consume key t l).1
            (HasPolicy-consume key t l p) c' (omega (arith, p.0)) w.1 in
        rw same (ground (arith, rest))
    | no other ↦
        let rest =
          granted-running start count calls (consume k t l).1 (HasPolicy-consume k t l p)
            (consume-other k key t l other ∙ c) le w.1 in
        ground (arith, rest)
  ]

  -- The count of `key`, 0 before its first call.
  abbrev count_of : Option (ℕ × ℕ) → ℕ
  count_of none = 0
  count_of (some w) = w.1

  count_of-le :
      (l : RateLimiter) → HasPolicy l → IsBounded l → count_of (lookup key l.windows) ≤ max
  count_of-le l p b = elim (Option-cases (lookup key l.windows)) [
    | inl fresh ↦ rw fresh (omega arith)
    | inr ((s, c), found) ↦ rw found (omega (arith, b.at_key key s c found, p.0))
  ]

  -- what lies in [from, from + window) is over before a window that begins later ends
  later :
      (from t : ℕ) (calls : Calls)
      → from ≤ t
      → Within key from window calls
      → All (λ (c : String × ℕ). c.0 ≡ key → c.1 < t + window * 1000000) calls
  later from t [] le w = tt
  later from t (c ∷ calls) le w = (λ e. omega (arith, (w.0 e).1, le), later from t calls le w.1)

  granted-Within :
      (from : ℕ) (calls : Calls) (l : RateLimiter)
      → HasPolicy l
      → IsBounded l
      → Within key from window calls
      → granted key calls l + count_of (lookup key l.windows) ≤ max + max
  unfolding granted
  granted-Within from [] l p b w = omega (arith, count_of-le l p b)
  granted-Within from ((k, t) ∷ calls) l p b w = elim (string_eq.dec k key) [
    | yes same ↦
        let le = count_of-le l p b in
        let p' = HasPolicy-consume key t l p in
        rw same (elim (counting_cases key t l) [
          | inl new ↦
              let (c, few) = consume-counted key t 0 t l new (omega arith) in
              let rest =
                granted-running t (one_if (consume key t l).0 + 0) calls (consume key t l).1 p' c
                  (omega (arith, p.0)) (later from t calls (w.0 same).0 w.1) in
              ground (arith, rest, le)
          | inr (s, n, c, counted) ↦
              let (c', few) = consume-counted key s n t l counted (b.at_key key s n c) in
              let rest =
                granted-Within from calls (consume key t l).1 p' (consume-IsBounded key t l b)
                  w.1 in
              ground (arith, rest, c, c')
        ])
    | no other ↦
        let rest =
          granted-Within from calls (consume k t l).1 (HasPolicy-consume k t l p)
            (consume-IsBounded k t l b) w.1 in
        ground (arith, rest, consume-other k key t l other)
  ]

-- From a limiter whose counts are within the budget, the calls of one key that fall in a window's
-- length, in whatever order, are let through at most twice the budget.
pub granted-le :
    (key : String) (from : ℕ) (calls : Calls) (l : RateLimiter)
    → IsBounded l
    → Within key from l.window_seconds calls
    → granted key calls l ≤ l.max_requests + l.max_requests
granted-le key from calls l b w =
    omega (arith, granted-Within key l.max_requests l.window_seconds from calls l (refl, refl) b w)

-- A key that has no window yet is let through at most its budget by its calls that fall in the
-- window from its first call.
pub granted-le_fresh :
    (key : String) (first : ℕ) (calls : Calls) (l : RateLimiter)
    → lookup key l.windows ≡ none
    → Within key first l.window_seconds ((key, first) ∷ calls)
    → granted key ((key, first) ∷ calls) l ≤ l.max_requests
unfolding granted roll window_of
granted-le_fresh key first calls l fresh w =
    let (c, few) = consume-counted key first 0 first l (rw fresh (ground arith)) (omega arith) in
    let rest =
      granted-running key l.max_requests l.window_seconds first (one_if (consume key first l).0 + 0)
        calls (consume key first l).1 (policy-consume key first l) c few
        (later key l.max_requests l.window_seconds first first calls (omega arith) w.1) in
    ground (arith, rest)

-- Where the budget is at least one, a key whose window has passed is let through.
pub consume-after_window :
    (key : String) (start count t : ℕ) (l : RateLimiter)
    → 1 ≤ l.max_requests
    → Counts key start count l
    → start + l.window_seconds * 1000000 ≤ t
    → (consume key t l).0 ≡ true
unfolding roll window_of
consume-after_window key start count t l some_budget c over =
    let new : counting key t l ≡ (t, 0) = rw c (ground arith) in
    rw (allows-consume key t l, new) (ground arith)
