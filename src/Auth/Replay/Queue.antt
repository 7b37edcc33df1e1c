-- ===== src/Auth/Replay/Queue.antt =====
-- The dictionary and the deque of `ReplayGuard` are one bounded queue of live requests: `consume`
-- implements the queue's operation, and the deque is never found empty.
use ragsistemi.Prelude.{
  ℕ, String, ◌≡◌, ◌≤◌, ◌+◌, refl, Bool, not, true, false, none, some, Option, [], ◌∷◌, ◌++◌, leb,
  length, if◌then◌else◌, ok, arith, Bool-cases, Option-cases, inl, inr, length-append,
}
use ragsistemi.Prelude.Dict.{
  Dict, lookup, keys, has_key, is_some, NodupKeys, erase_missing, insert_missing, insert-NodupKeys,
  keys-append_one,
}
use ragsistemi.Auth.Replay.{
  ReplayGuard, drop_expired, evict, remember, admit_into, consume_pruned, consume_at,
}

-- A queue of requests, the oldest first: each with its fingerprint and its expiry.
abbrev pub Requests : Type 0
Requests = Dict (String × ℕ)

-- `g` holds the queue `q`, within its bound.
pub record Holds (q : Requests) (g : ReplayGuard) : Type 0 where
  pub seen : g.seen ≡ q
  pub order : g.order ≡ keys q
  pub distinct : NodupKeys q
  pub bounded : length q ≤ g.max_entries
  pub positive : 1 ≤ g.max_entries

-- The oldest requests go while they are expired.
unfoldable pub live : ℕ → Requests → Requests
live now [] = []
live now ((id, (fp, expiry)) ∷ q) =
    let rest = live now q in if leb expiry now then rest else (id, (fp, expiry)) ∷ q

-- One request more, at the cost of the oldest where `bound` are held.
abbrev pub push : ℕ → String → String → ℕ → Requests → Requests
push bound id fp expiry [] = (id, (fp, expiry)) ∷ []
push bound id fp expiry (r ∷ q) =
    if leb bound (length (r ∷ q))
    then q ++ (id, (fp, expiry)) ∷ []
    else (r ∷ q) ++ (id, (fp, expiry)) ∷ []

unfoldable pub admit : ℕ → String → String → ℕ → ℕ → Requests → Bool × Requests
admit bound id fp expiry now q =
    let held = live now q in
    if has_key id held then (false, held) else (true, push bound id fp expiry held)

drop_expired-live :
    (now : ℕ) (q : Requests)
    → NodupKeys q
    → drop_expired now (keys q) q ≡ (keys (live now q), live now q)
unfolding drop_expired keys live
drop_expired-live now [] h = refl
drop_expired-live now ((id, (fp, e)) ∷ q) h =
    ground (arith, drop_expired-live now q h.1, erase_missing id q h.0)

live-NodupKeys : (now : ℕ) (q : Requests) → NodupKeys q → NodupKeys (live now q)
unfolding live
live-NodupKeys now [] h = tt
live-NodupKeys now ((id, (fp, e)) ∷ q) h = ground (arith, live-NodupKeys now q h.1)

length-live : (now : ℕ) (q : Requests) → length (live now q) ≤ length q
unfolding live
length-live now [] = omega arith
length-live now ((id, (fp, e)) ∷ q) = ground (arith, length-live now q)

append_one-NodupKeys :
    (id : String) (v : String × ℕ) (q : Requests)
    → lookup id q ≡ none
    → NodupKeys q
    → NodupKeys (q ++ (id, v) ∷ [])
append_one-NodupKeys id v q h d = rw (← insert_missing id v q h) (insert-NodupKeys id v q d)

-- `remember` of a new request, where there is room, adds it to the queue.
remember-Holds :
    (q : Requests) (g : ReplayGuard) (id fp : String) (e : ℕ)
    → Holds q g
    → lookup id q ≡ none
    → length q + 1 ≤ g.max_entries
    → Holds (q ++ (id, (fp, e)) ∷ []) (remember id fp e g)
unfolding remember
remember-Holds q g id fp e h fresh room = record {
  seen = cc (h.seen, insert_missing id (fp, e) q fresh);
  order = cc (h.order, keys-append_one id (fp, e) q);
  distinct = append_one-NodupKeys id (fp, e) q fresh h.distinct;
  bounded = omega (arith, length-append {0} q ((id, (fp, e)) ∷ []), room);
  positive = h.positive;
}

-- the head of a full queue goes
tail_fits :
    (b : ℕ) (id : String) (v : String × ℕ) (q : Requests)
    → length ((id, v) ∷ q) ≤ b
    → length q + 1 ≤ b
tail_fits b id v q h = omega arith

-- With the expired ones gone, `evict` and `remember` push the request.
push-Holds :
    (q : Requests) (g : ReplayGuard) (id fp : String) (e : ℕ)
    → Holds q g
    → lookup id q ≡ none
    → (room : ReplayGuard) × (evict g ≡ ok room)
      × Holds (push g.max_entries id fp e q) (remember id fp e room)
unfolding evict keys lookup
push-Holds [] g id fp e h fresh = (
  g,
  ground (arith, h.seen, h.positive),
  remember-Holds [] g id fp e h refl (ground (arith, h.positive)),
)
push-Holds ((i, v) ∷ q) g id fp e h fresh =
    elim (Bool-cases (leb g.max_entries (length ((i, v) ∷ q)))) [
      | inl full ↦
          let shorter : ReplayGuard = record g { seen = q; order = keys q } in
          let held : Holds q shorter = record {
            seen = refl;
            order = refl;
            distinct = h.distinct.1;
            bounded = omega arith;
            positive = h.positive;
          } in
          (
            shorter,
            ground (arith, h.order, h.seen, erase_missing i q h.distinct.0),
            rw full (remember-Holds q shorter id fp e held (ground arith) (omega arith)),
          )
      | inr roomy ↦ (
        g,
        ground (arith, h.seen),
        rw roomy (remember-Holds ((i, v) ∷ q) g id fp e h fresh (ground arith)),
      )
    ]

pruned_Holds :
    (q : Requests) (g : ReplayGuard) (now : ℕ)
    → Holds q g
    → Holds (live now q) (record g { seen = live now q; order = keys (live now q) })
pruned_Holds q g now h = record {
  seen = refl;
  order = refl;
  distinct = live-NodupKeys now q h.distinct;
  bounded = omega (arith, length-live now q, h.bounded);
  positive = h.positive;
}

module _ (id fp : String) (e : ℕ) where
  consume_pruned-admit :
      (q : Requests) (g : ReplayGuard)
      → Holds q g
      → (found : Option (String × ℕ)) → lookup id q ≡ found
      → ((consume_pruned id fp e g).0 ≡ ok (not (is_some found)))
        × Holds
            (if is_some found then q else push g.max_entries id fp e q)
            (consume_pruned id fp e g).1
  unfolding consume_pruned
  consume_pruned-admit q g h (some v) known =
      let found : lookup id g.seen ≡ some v = rw h.seen known in rw found (refl, h)
  consume_pruned-admit q g h none fresh =
      let (room, made, held) = push-Holds q g id fp e h fresh in
      let missing : lookup id g.seen ≡ none = rw h.seen fresh in
      rw (missing, made) (unfold admit_into in (refl, held))

  -- A guard that holds a queue answers as the bounded queue does, and then holds the queue's new
  -- contents.
  pub consume_at-admit :
      (now : ℕ) (q : Requests) (g : ReplayGuard)
      → Holds q g
      → ((consume_at id fp e now g).0 ≡ ok (admit g.max_entries id fp e now q).0)
        × Holds (admit g.max_entries id fp e now q).1 (consume_at id fp e now g).1
  unfolding consume_at admit
  consume_at-admit now q g h =
      let pruned : ReplayGuard = record g { seen = live now q; order = keys (live now q) } in
      let step = consume_pruned-admit (live now q) pruned (pruned_Holds q g now h) in
      rw (h.order, h.seen, drop_expired-live now q h.distinct)
        (elim (Option-cases (lookup id (live now q))) [
          | inl fresh ↦ rw fresh (step none fresh)
          | inr (v, known) ↦ rw known (step (some v) known)
        ])
