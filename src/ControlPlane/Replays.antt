-- ===== src/ControlPlane/Replays.antt =====
-- `SQLiteReplayGuard`: the table of request ids, without a bound.
use ragsistemi.Prelude.{
  ℕ, contains, ◌≡◌, ◌≢◌, ◌<◌, refl, ap, String, Bool, true, false, some, [], ◌∷◌, List, All, leb,
  if◌then◌else◌, arith, Result, ok, err, Error, value_error, ◌==◌, string_eq, Bool-cases, inl, inr,
}
use ragsistemi.Prelude.Dict.{Dict, lookup, insert, has_key, lookup-insert}
use ragsistemi.Host.{Host}
use ragsistemi.Canonical.Time.{parse_time, raises-parse_time}
use ragsistemi.Auth.Adapters.{ReplayGuardAdapter}

abbrev pub Table : Type 0
Table = Dict (String × ℕ)

-- `DELETE FROM request_replays WHERE expires_at<=?`
unfoldable pub delete_expired : ℕ → Table → Table
delete_expired now [] = []
delete_expired now ((id, (fp, expiry)) ∷ t) =
    let rest = delete_expired now t in if leb expiry now then rest else (id, (fp, expiry)) ∷ rest

record_new : String → String → ℕ → Table → Bool × Table
record_new id fp expiry t = if has_key id t then (false, t) else (true, insert id (fp, expiry) t)

unfoldable pub consume_at : String → String → ℕ → ℕ → Table → Bool × Table
unfolding record_new
consume_at id fp expiry now t = record_new id fp expiry (delete_expired now t)

unfoldable pub consume_parsed : String → String → Result ℕ → Result ℕ → Table → Result Bool × Table
consume_parsed id fp (ok now) (ok expiry) t =
    let (answer, t') = consume_at id fp expiry now t in (ok answer, t')
consume_parsed id fp (ok now) (err e) t = (err e, t)
consume_parsed id fp (err e) expiry t = (err e, t)

unfoldable pub consume : Host → String → String → String → String → Table → Result Bool × Table
consume host id fp expires_at now t =
    consume_parsed id fp (parse_time host now) (parse_time host expires_at) t

-- A row of the id is there, with expiry `e`.
abbrev Row : String → ℕ → Table → Type 0
Row id e t = (fp : String) × (lookup id t ≡ some (fp, e))

delete_expired-Row :
    (id : String) (e now : ℕ) (t : Table) → now < e → Row id e t → Row id e (delete_expired now t)
unfolding delete_expired lookup
delete_expired-Row id e now [] lt r = r
delete_expired-Row id e now ((j, (gp, x)) ∷ t) lt (fp, r) = elim (Bool-cases (j == id)) [
  | inl here ↦ (fp, ground arith)
  | inr past ↦
      let (fq, s) = delete_expired-Row id e now t lt (fp, ground arith) in (fq, ground (arith, s))
]

consume_at-Row :
    (id : String) (e : ℕ) (j fp : String) (x now : ℕ) (t : Table)
    → now < e
    → Row id e t
    → Row id e (consume_at j fp x now t).1
unfolding consume_at record_new
consume_at-Row id e j fp x now t lt r =
    let (gp, kept) = delete_expired-Row id e now t lt r in
    (gp, ground (arith, lookup-insert id j (fp, x) (delete_expired now t)))

consume_at_refuses :
    (id : String) (e : ℕ) (fp : String) (x now : ℕ) (t : Table)
    → now < e
    → Row id e t
    → (consume_at id fp x now t).0 ≡ false
unfolding consume_at record_new
consume_at_refuses id e fp x now t lt r =
    let (gp, kept) = delete_expired-Row id e now t lt r in rw kept refl

accepted-Row :
    (id fp : String) (e now : ℕ) (t : Table)
    → (consume_at id fp e now t).0 ≡ true
    → Row id e (consume_at id fp e now t).1
unfolding consume_at record_new
accepted-Row id fp e now t h =
    (fp, ground (arith, lookup-insert id id (fp, e) (delete_expired now t)))

-- A call, its times parsed.
pub record Call : Type 0 where
  pub id : String
  pub fingerprint : String
  pub expiry : ℕ
  pub now : ℕ

abbrev answer : Call → Table → Bool × Table
answer c t = consume_at c.id c.fingerprint c.expiry c.now t

pub answers : List Call → Table → List (String × Bool)
answers [] t = []
answers (c ∷ calls) t = (c.id, (answer c t).0) ∷ answers calls (answer c t).1

abbrev Refuses : String → List (String × Bool) → Type 0
Refuses id = All (λ (r : String × Bool). r.0 ≡ id → r.1 ≡ false)

abbrev pub AllBefore : ℕ → List Call → Type 0
AllBefore e = All (λ (c : Call). c.now < e)

Row-Refuses :
    (id : String) (e : ℕ) (calls : List Call) (t : Table)
    → Row id e t
    → AllBefore e calls
    → Refuses id (answers calls t)
unfolding answers
Row-Refuses id e [] t r before = tt
Row-Refuses id e (c ∷ calls) t r before = (
  λ p. rw p (consume_at_refuses id e c.fingerprint c.expiry c.now t before.0 r),
  Row-Refuses id e calls (answer c t).1
      (consume_at-Row id e c.id c.fingerprint c.expiry c.now t before.0 r) before.1,
)

-- the ids of the calls that the table lets through
pub accepted : List (String × Bool) → List String
accepted [] = []
accepted ((id, true) ∷ rest) = id ∷ accepted rest
accepted ((id, false) ∷ rest) = accepted rest

Refuses-accepted :
    (id : String) (rs : List (String × Bool)) → Refuses id rs → contains (accepted rs) id ≡ false
unfolding accepted
Refuses-accepted id [] h = refl
Refuses-accepted id ((j, true) ∷ rest) h = ground (arith, Refuses-accepted id rest h.1, h.0)
Refuses-accepted id ((j, false) ∷ rest) h = Refuses-accepted id rest h.1

-- A request that the table accepts is let through by no later call that comes before its expiry,
-- however many calls there are and in whatever order their times stand.
pub accepted_until_expiry :
    (t : Table) (id fp : String) (e now : ℕ) (calls : List Call)
    → (consume_at id fp e now t).0 ≡ true
    → AllBefore e calls
    → contains (accepted (answers calls (consume_at id fp e now t).1)) id ≡ false
accepted_until_expiry t id fp e now calls h before =
    Refuses-accepted id (answers calls (consume_at id fp e now t).1)
      (Row-Refuses id e calls (consume_at id fp e now t).1 (accepted-Row id fp e now t h) before)

consume_parsed_raises :
    (id fp : String) (now until : Result ℕ) (t : Table)
    → ((e : Error) → now ≡ err e → (m : String) × (e ≡ value_error m))
    → ((e : Error) → until ≡ err e → (m : String) × (e ≡ value_error m))
    → (consume_parsed id fp now until t).0 ≢ ok true
    → (consume_parsed id fp now until t).0 ≢ ok false
    → (m : String) × ((consume_parsed id fp now until t).0 ≡ err (value_error m))
unfolding consume_parsed
consume_parsed_raises id fp (ok n) (ok e) t f u not_yes not_no =
    answered (consume_at id fp e n t).0 refl
  where
    answered :
        (b : Bool)
        → (consume_at id fp e n t).0 ≡ b
        → (m : String) × ((ok (consume_at id fp e n t).0) ≡ err (value_error m))
    answered true says = absurd (not_yes (ap ok says))
    answered false says = absurd (not_no (ap ok says))
consume_parsed_raises id fp (ok n) (err x) t f u not_yes not_no =
    let (m, same) = u x refl in (m, ap err same)
consume_parsed_raises id fp (err x) until t f u not_yes not_no =
    let (m, same) = f x refl in (m, ap err same)

consume_parsed_once :
    (id fp fp' : String) (now until now' until' : Result ℕ) (e n : ℕ) (t : Table)
    → (consume_parsed id fp now until t).0 ≡ ok true
    → until ≡ ok e
    → now' ≡ ok n
    → n < e
    → (consume_parsed id fp' now' until' (consume_parsed id fp now until t).1).0 ≢ ok true
unfolding consume_parsed
consume_parsed_once id fp fp' (err x) until now' until' e n t h u p lt = cc
consume_parsed_once id fp fp' (ok s) (err x) now' until' e n t h u p lt = cc
consume_parsed_once id fp fp' (ok s) (ok e') (err x) until' e n t h u p lt = cc
consume_parsed_once id fp fp' (ok s) (ok e') (ok n') (err x) e n t h u p lt = λ k. cc
consume_parsed_once id fp fp' (ok s) (ok e') (ok n') (ok x) e n t h u p lt =
    let said : (consume_at id fp e' s t).0 ≡ true = cc in
    let before : n' < e' = ground arith in
    let no =
      consume_at_refuses id e' fp' x n' (consume_at id fp e' s t).1 before
        (accepted-Row id fp e' s t said) in
    λ k. cc

module _ (host : Host) where
  pub raises-consume :
      (id fp until now : String) (t : Table)
      → (consume host id fp until now t).0 ≢ ok true
      → (consume host id fp until now t).0 ≢ ok false
      → (m : String) × ((consume host id fp until now t).0 ≡ err (value_error m))
  unfolding consume
  raises-consume id fp until now t y n =
      consume_parsed_raises id fp (parse_time host now) (parse_time host until) t
        (raises-parse_time host now) (raises-parse_time host until) y n

  pub consume_once :
      (id fp until now fp' until' now' : String) (e m : ℕ) (t : Table)
      → (consume host id fp until now t).0 ≡ ok true
      → parse_time host until ≡ ok e
      → parse_time host now' ≡ ok m
      → m < e
      → (consume host id fp' until' now' (consume host id fp until now t).1).0 ≢ ok true
  unfolding consume
  consume_once id fp until now fp' until' now' e m t h u n lt =
      consume_parsed_once id fp fp' (parse_time host now) (parse_time host until)
        (parse_time host now') (parse_time host until') e m t h u n lt

-- `SQLiteReplayGuard` behind the port.
abbrev pub guard : (host : Host) → ReplayGuardAdapter host
guard host = record {
  State = Table;
  consume = λ id fp until now t. consume host id fp until now t;
  IsWell = λ t. Unit {0};
  consume-IsWell = λ id fp until now t w. tt;
  raises = λ id fp until now t w y n. raises-consume host id fp until now t y n;
  once = λ id fp until now fp' until' now' e m t w h u n lt.
      consume_once host id fp until now fp' until' now' e m t h u n lt;
}
