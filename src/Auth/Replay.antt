-- ===== src/Auth/Replay.antt =====
-- `ReplayGuard` of pmiri/request_auth.py: a dictionary of request ids and a deque of the same ids in
-- order of arrival. The proofs stand in the modules below.
pub mod Queue
pub mod Memory
use ragsistemi.Prelude.{
  ℕ, zero, suc, String, Bool, true, false, Option, none, some, List, [], ◌∷◌, ◌++◌, leb, length,
  if◌then◌else◌, Result, ok, err, value_error, index_error, ◌>>=◌, raise_if,
}
use ragsistemi.Prelude.Int.{ℤ, pos, negsuc, is_below}
use ragsistemi.Prelude.Dict.{Dict, lookup, insert, erase, has_key}
use ragsistemi.Host.{Host}
use ragsistemi.Canonical.Time.{parse_time}

pub record ReplayGuard : Type 0 where
  pub max_entries : ℕ
  pub seen : Dict (String × ℕ)
  pub order : List String

-- `ReplayGuard(max_entries=...)`
unfoldable pub new : ℤ → Result ReplayGuard
new (pos (suc n)) = ok (record { max_entries = suc n; seen = []; order = [] })
new _ = err (value_error "replay_guard_capacity_invalid")

-- `self._seen.get(id, ("", 0.0))[1]`
expiry_of : Option (String × ℕ) → ℕ
expiry_of none = 0
expiry_of (some (fingerprint, expiry)) = expiry

-- The `while` loop over the head of the deque.
unfoldable pub drop_expired : ℕ → List String → Dict (String × ℕ) → List String × Dict (String × ℕ)
unfolding expiry_of lookup erase
drop_expired now [] seen = ([], seen)
drop_expired now (old ∷ order) seen =
    let next = drop_expired now order (erase old seen) in
    if leb (expiry_of (lookup old seen)) now then next else (old ∷ order, seen)

pop_oldest : List String → ReplayGuard → Result ReplayGuard
unfolding erase
pop_oldest [] g = err (index_error "pop from an empty deque")
pop_oldest (old ∷ order) g = ok (record g { seen = erase old g.seen; order = order })

-- `popleft` and `pop` when the guard is full. An empty deque raises.
unfoldable pub evict : ReplayGuard → Result ReplayGuard
unfolding pop_oldest
evict g = if leb g.max_entries (length g.seen) then pop_oldest g.order g else ok g

unfoldable pub remember : String → String → ℕ → ReplayGuard → ReplayGuard
unfolding insert
remember id fingerprint expiry g = record g {
  seen = insert id (fingerprint, expiry) g.seen;
  order = g.order ++ id ∷ [];
}

unfoldable pub admit_into :
    String → String → ℕ → ReplayGuard → Result ReplayGuard → Result Bool × ReplayGuard
admit_into id fingerprint expiry pruned (ok room) = (ok true, remember id fingerprint expiry room)
admit_into id fingerprint expiry pruned (err e) = (err e, pruned)

-- What `consume` does once the expired requests are gone.
unfoldable pub consume_pruned : String → String → ℕ → ReplayGuard → Result Bool × ReplayGuard
consume_pruned id fingerprint expiry g =
    if has_key id g.seen then (ok false, g) else admit_into id fingerprint expiry g (evict g)

-- The body of `consume` under its lock, the two times parsed. What was written before a raise
-- stays written.
unfoldable pub consume_at : String → String → ℕ → ℕ → ReplayGuard → Result Bool × ReplayGuard
consume_at id fingerprint expiry now g =
    let (order, seen) = drop_expired now g.order g.seen in
    consume_pruned id fingerprint expiry (record g { seen = seen; order = order })

unfoldable pub consume_parsed :
    String → String → Result ℕ → Result ℕ → ReplayGuard → Result Bool × ReplayGuard
consume_parsed id fingerprint (ok now) (ok expiry) g = consume_at id fingerprint expiry now g
consume_parsed id fingerprint (ok now) (err e) g = (err e, g)
consume_parsed id fingerprint (err e) expiry g = (err e, g)

unfoldable pub consume :
    Host → String → String → String → String → ReplayGuard → Result Bool × ReplayGuard
consume host id fingerprint expires_at now g =
    consume_parsed id fingerprint (parse_time host now) (parse_time host expires_at) g
