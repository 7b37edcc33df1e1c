-- ===== src/Auth/Replay/Memory.antt =====
-- How long `ReplayGuard` remembers a request: until it expires, or until as many calls as the guard
-- has room for have followed.
use ragsistemi.Prelude.{
  ℕ, suc, String, contains, ◌≡◌, ◌⊎◌, ◌≤◌, ◌<◌, ◌+◌, refl, ap, Bool, true, false, List, [], ◌∷◌,
  ◌++◌, leb, length, All, Result, ok, err, arith, Bool-cases, inl, inr, length-append, string_eq,
}
use ragsistemi.Prelude.Dict.{lookup, keys, has_key}
use ragsistemi.Auth.Replay
use ragsistemi.Auth.Replay.{ReplayGuard, consume_at}
use ragsistemi.Auth.Replay.Queue.{Requests, Holds, live, push, admit, consume_at-admit}

-- A call of `consume`, its times parsed.
pub record Call : Type 0 where
  pub id : String
  pub fingerprint : String
  pub expiry : ℕ
  pub now : ℕ

abbrev pub answer : Call → ReplayGuard → Result Bool × ReplayGuard
answer c g = consume_at c.id c.fingerprint c.expiry c.now g

-- The answers to the calls, in turn, each beside the request that it is about.
pub answers : List Call → ReplayGuard → List (String × Result Bool)
answers [] g = []
answers (c ∷ calls) g = (c.id, (answer c g).0) ∷ answers calls (answer c g).1

-- The queue holds a request `id` that expires at `e`, with at most `n` behind it.
abbrev IsHeld : String → ℕ → ℕ → Requests → Type 0
IsHeld id e n [] = ⊥
IsHeld id e n ((j, (fp, x)) ∷ q) = ((j ≡ id) × (x ≡ e) × (length q ≤ n)) ⊎ IsHeld id e n q

IsHeld-live :
    (id : String) (e n now : ℕ) (q : Requests)
    → now < e
    → IsHeld id e n q
    → IsHeld id e n (live now q)
unfolding live
IsHeld-live id e n now [] lt h = h
IsHeld-live id e n now ((j, (fp, x)) ∷ q) lt (inl (same, at, few)) = ground (arith, at)
IsHeld-live id e n now ((j, (fp, x)) ∷ q) lt (inr h) = ground (arith, IsHeld-live id e n now q lt h)

IsHeld-has_key : (id : String) (e n : ℕ) (q : Requests) → IsHeld id e n q → has_key id q ≡ true
unfolding lookup
IsHeld-has_key id e n [] h = absurd h
IsHeld-has_key id e n ((j, (fp, x)) ∷ q) (inl (same, at, few)) = ground (arith, same)
IsHeld-has_key id e n ((j, (fp, x)) ∷ q) (inr h) = ground (arith, IsHeld-has_key id e n q h)

IsHeld-append :
    (id : String) (e n : ℕ) (q : Requests) (r : String × (String × ℕ))
    → IsHeld id e n q
    → IsHeld id e (suc n) (q ++ r ∷ [])
IsHeld-append id e n [] r h = absurd h
IsHeld-append id e n ((j, (fp, x)) ∷ q) r (inl (same, at, few)) =
    inl (same, at, omega (arith, length-append {0} q (r ∷ [])))
IsHeld-append id e n ((j, (fp, x)) ∷ q) r (inr h) = inr (IsHeld-append id e n q r h)

IsHeld-weaken : (id : String) (e n : ℕ) (q : Requests) → IsHeld id e n q → IsHeld id e (suc n) q
IsHeld-weaken id e n [] h = h
IsHeld-weaken id e n ((j, (fp, x)) ∷ q) (inl (same, at, few)) = inl (same, at, omega arith)
IsHeld-weaken id e n ((j, (fp, x)) ∷ q) (inr h) = inr (IsHeld-weaken id e n q h)

IsHeld-push :
    (id : String) (e n bound : ℕ) (j fp : String) (x : ℕ) (q : Requests)
    → suc n < bound
    → IsHeld id e n q
    → IsHeld id e (suc n) (push bound j fp x q)
IsHeld-push id e n bound j fp x [] room h = absurd h
IsHeld-push id e n bound j fp x ((i, (gp, y)) ∷ q) room h =
    elim (Bool-cases (leb bound (length ((i, (gp, y)) ∷ q)))) [
      | inl full ↦ rw full (later h full)
      | inr roomy ↦ rw roomy (IsHeld-append id e n ((i, (gp, y)) ∷ q) (j, (fp, x)) h)
    ]
  where
    later :
        IsHeld id e n ((i, (gp, y)) ∷ q)
        → leb bound (length ((i, (gp, y)) ∷ q)) ≡ true
        → IsHeld id e (suc n) (q ++ (j, (fp, x)) ∷ [])
    later (inl (same, at, few)) full = absurd (ground arith)
    later (inr k) full = IsHeld-append id e n q (j, (fp, x)) k

IsHeld-admit :
    (id : String) (e n bound now : ℕ) (j fp : String) (x : ℕ) (q : Requests)
    → suc n < bound
    → now < e
    → IsHeld id e n q
    → IsHeld id e (suc n) (admit bound j fp x now q).1
unfolding admit
IsHeld-admit id e n bound now j fp x q room lt h =
    let held = IsHeld-live id e n now q lt h in
    elim (Bool-cases (has_key j (live now q))) [
      | inl known ↦ rw known (IsHeld-weaken id e n (live now q) held)
      | inr fresh ↦ rw fresh (IsHeld-push id e n bound j fp x (live now q) room held)
    ]

last-IsHeld : (id fp : String) (e : ℕ) (q : Requests) → IsHeld id e 0 (q ++ (id, (fp, e)) ∷ [])
last-IsHeld id fp e [] = inl (refl, refl, omega arith)
last-IsHeld id fp e (r ∷ q) = inr (last-IsHeld id fp e q)

push-IsHeld : (id fp : String) (e bound : ℕ) (q : Requests) → IsHeld id e 0 (push bound id fp e q)
push-IsHeld id fp e bound [] = inl (refl, refl, omega arith)
push-IsHeld id fp e bound (r ∷ q) = elim (Bool-cases (leb bound (length (r ∷ q)))) [
  | inl full ↦ rw full (last-IsHeld id fp e q)
  | inr roomy ↦ rw roomy (last-IsHeld id fp e (r ∷ q))
]

admit-IsHeld :
    (id fp : String) (e bound now : ℕ) (q : Requests)
    → (admit bound id fp e now q).0 ≡ true
    → IsHeld id e 0 (admit bound id fp e now q).1
unfolding admit
admit-IsHeld id fp e bound now q h = elim (Bool-cases (has_key id (live now q))) [
  | inl known ↦ absurd (ground arith)
  | inr fresh ↦ rw fresh (push-IsHeld id fp e bound (live now q))
]

admit_refuses :
    (id fp : String) (x e n bound now : ℕ) (q : Requests)
    → now < e
    → IsHeld id e n q
    → (admit bound id fp x now q).0 ≡ false
unfolding admit
admit_refuses id fp x e n bound now q lt h =
    ground (arith, IsHeld-has_key id e n (live now q) (IsHeld-live id e n now q lt h))

max_entries-consume_at :
    (id fp : String) (e now : ℕ) (g : ReplayGuard)
    → (consume_at id fp e now g).1.max_entries ≡ g.max_entries
unfolding consume_at Replay.consume_pruned Replay.admit_into Replay.evict Replay.remember
max_entries-consume_at id fp e now g = ground arith

abbrev Refuses : String → List (String × Result Bool) → Type 0
Refuses id = All (λ (r : String × Result Bool). r.0 ≡ id → r.1 ≡ ok false)

abbrev pub AllBefore : ℕ → List Call → Type 0
AllBefore e = All (λ (c : Call). c.now < e)

module _ (id : String) (e : ℕ) where
  first_refuses :
      (n : ℕ) (c : Call) (q : Requests) (g : ReplayGuard)
      → Holds q g
      → IsHeld id e n q
      → c.now < e
      → c.id ≡ id
      → (answer c g).0 ≡ ok false
  first_refuses n c q g h k before p =
      let (says, after) = consume_at-admit c.id c.fingerprint c.expiry c.now q g h in
      rw (says, p)
        (ap ok (admit_refuses id c.fingerprint c.expiry e n g.max_entries c.now q before k))

  held-Refuses :
      (n : ℕ) (calls : List Call) (q : Requests) (g : ReplayGuard)
      → Holds q g
      → IsHeld id e n q
      → n + length calls ≤ g.max_entries
      → AllBefore e calls
      → Refuses id (answers calls g)
  unfolding answers
  held-Refuses n [] q g h k room before = tt
  held-Refuses n (c ∷ []) q g h k room before = (first_refuses n c q g h k before.0, tt)
  held-Refuses n (c ∷ d ∷ calls) q g h k room before =
      let (says, after) = consume_at-admit c.id c.fingerprint c.expiry c.now q g h in
      let same = max_entries-consume_at c.id c.fingerprint c.expiry c.now g in
      (
        first_refuses n c q g h k before.0,
        held-Refuses (suc n) (d ∷ calls) (admit g.max_entries c.id c.fingerprint c.expiry c.now q).1
            (answer c g).1 after
            (IsHeld-admit id e n g.max_entries c.now c.id c.fingerprint c.expiry q (omega arith)
              before.0 k)
            (omega arith) before.1,
      )

-- the ids of the calls that the guard lets through
pub accepted : List (String × Result Bool) → List String
accepted [] = []
accepted ((id, ok true) ∷ rest) = id ∷ accepted rest
accepted ((id, ok false) ∷ rest) = accepted rest
accepted ((id, err e) ∷ rest) = accepted rest

Refuses-accepted :
    (id : String) (rs : List (String × Result Bool))
    → Refuses id rs
    → contains (accepted rs) id ≡ false
unfolding accepted
Refuses-accepted id [] h = refl
Refuses-accepted id ((j, ok true) ∷ rest) h = ground (arith, Refuses-accepted id rest h.1, h.0)
Refuses-accepted id ((j, ok false) ∷ rest) h = Refuses-accepted id rest h.1
Refuses-accepted id ((j, err e) ∷ rest) h = Refuses-accepted id rest h.1

refused_after :
    (g : ReplayGuard) (q : Requests) (id fp : String) (e now : ℕ) (calls : List Call)
    → Holds q g
    → (consume_at id fp e now g).0 ≡ ok true
    → length calls ≤ g.max_entries
    → AllBefore e calls
    → Refuses id (answers calls (consume_at id fp e now g).1)
refused_after g q id fp e now calls h yes_ok room before =
    let (says, after) = consume_at-admit id fp e now q g h in
    let same = max_entries-consume_at id fp e now g in
    held-Refuses id e 0 calls (admit g.max_entries id fp e now q).1 (consume_at id fp e now g).1
      after (admit-IsHeld id fp e g.max_entries now q (cc)) (omega arith) before

-- A request that the guard accepts, while it holds some queue, is let through by no call that
-- follows, as long as the calls come before its expiry and are no more than the guard has room
-- for.
pub accepted_once :
    (g : ReplayGuard) (q : Requests) (id fp : String) (e now : ℕ) (calls : List Call)
    → Holds q g
    → (consume_at id fp e now g).0 ≡ ok true
    → length calls ≤ g.max_entries
    → AllBefore e calls
    → contains (accepted (answers calls (consume_at id fp e now g).1)) id ≡ false
accepted_once g q id fp e now calls h yes_ok room before =
    Refuses-accepted id (answers calls (consume_at id fp e now g).1)
      (refused_after g q id fp e now calls h yes_ok room before)

-- the one call that follows
pub refused_next :
    (g : ReplayGuard) (q : Requests) (id fp : String) (e now : ℕ) (c : Call)
    → Holds q g
    → (consume_at id fp e now g).0 ≡ ok true
    → c.now < e
    → c.id ≡ id
    → (answer c (consume_at id fp e now g).1).0 ≡ ok false
unfolding answers
refused_next g q id fp e now c h accepted before =
    (refused_after g q id fp e now (c ∷ []) h accepted h.positive (before, tt)).0

-- The guard's own ids, whatever calls have been made, are those of a bounded queue.
pub new-Holds : (n : ℕ) → Holds [] (record { max_entries = suc n; seen = []; order = [] })
unfolding keys
new-Holds n = record {
  seen = refl;
  order = refl;
  distinct = tt;
  bounded = omega arith;
  positive = omega arith;
}
