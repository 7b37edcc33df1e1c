-- ===== src/Audit/Single.antt =====
-- The tests of pmiri/audit.py on single fields of an event.
use Prim.Native.String
use text.Mathlib.TextLemmas.{cons-append}
use ragsistemi.Prelude.{
  ℕ, String, Bool, true, false, not, ◌&&◌, ◌||◌, ◌≡◌, refl, ◌≤◌, List, [], ◌∷◌, Option, none, some,
  ◌==◌, string_eq, Bool-cases, inl, inr, ◌++◌, contains, truthy, All, arith, concat, take_chars,
}
use ragsistemi.Prelude.Int.{pos}
use ragsistemi.Canonical.{is_sha256}
use ragsistemi.Canonical.Serial.{str, num, optional}
use ragsistemi.Decisions.{is_text, is_filled, is_digest}
use ragsistemi.Decisions.Outbound.{is_none}
use ragsistemi.Reads.Operations.{read_operations}
use ragsistemi.Audit.Valid.{Off}
use ragsistemi.Audit.{
  AuditEvent, is_operation, is_status, is_event_id, id_differs, collect, audit_operation, time_or,
}

pub contains_left :
    (xs ys : List String) (v : String) → contains xs v ≡ true → contains (xs ++ ys) v ≡ true
contains_left [] ys v h = cc
contains_left (x ∷ xs) ys v h = ground (arith, contains_left xs ys v)

pub unknown_operation : is_operation (str "unknown") ≡ true
unfolding is_operation string_eq
unknown_operation = refl

pub audit_operation-is_operation :
    (operation : Option String) → is_operation (str (audit_operation operation)) ≡ true
unfolding audit_operation
audit_operation-is_operation none = unknown_operation
audit_operation-is_operation (some o) = elim (Bool-cases (contains read_operations o)) [
  | inl found ↦
      rw found (unfold is_operation in contains_left read_operations ("unknown" ∷ []) o found)
  | inr absent ↦ rw absent unknown_operation
]

pub time_or-truthy :
    (t : Option String) (wall : String) → truthy wall ≡ true → truthy (time_or t wall) ≡ true
unfolding time_or
time_or-truthy none wall h = h
time_or-truthy (some t) wall h = ground arith

pub status_between : (n : ℕ) → 100 ≤ n → n ≤ 599 → is_status (num (pos n)) ≡ true
unfolding is_status
status_between n low high = ground arith

pub text_eq_self : (s : String) → (s == s) ≡ true
text_eq_self s = ground arith

pub take_audit : (s : String) → take_chars 6 (String.◌++◌ "audit_" s) ≡ "audit_"
unfolding take_chars
take_audit s =
    rw (cons-append, cons-append, cons-append, cons-append, cons-append, cons-append) refl

pub Off-collect : (ts : List (Bool × String)) → All Off ts → collect ts ≡ []
unfolding collect
Off-collect [] h = refl
Off-collect ((b, message) ∷ ts) h = rw h.0 (Off-collect ts h.1)

-- the tests of one field, of a text of which what is asked is known
pub filled_of : (s : String) → truthy s ≡ true → not (is_filled (str s)) ≡ false
unfolding is_filled
filled_of s h = rw h refl

pub digest_of :
    (o : Option String) (s : String)
    → o ≡ some s
    → is_sha256 s ≡ true
    → is_digest (optional o) ≡ true
unfolding is_digest optional
digest_of o s e h = rw e h

pub none_of : (o : Option String) → o ≡ none → is_none (optional o) ≡ true
unfolding is_none optional
none_of o e = rw e refl

pub text_of : (s t : String) → s ≡ t → is_text t (str s) ≡ true
unfolding is_text
text_of s t e = ground arith

pub error_of : (o : Option String) (t : String) → o ≡ some t → is_text t (optional o) ≡ true
unfolding optional
error_of o t e = rw e (text_of t t refl)

pub rejected_of : (b : Bool) → (b && false) ≡ false
rejected_of b = ground arith

pub signed_of :
    (s t : String)
    → is_sha256 s ≡ true
    → s ≡ t
    → (not (is_digest (str s)) || not (is_text t (str s))) ≡ false
unfolding is_digest
signed_of s t d e = rw (d, text_of s t e) refl

pub prefixed : (s : String) → is_event_id (str (concat ("audit_" ∷ s ∷ []))) ≡ true
unfolding is_event_id concat string_eq
prefixed s = rw (take_audit (String.◌++◌ s "")) refl

pub event_id_of :
    (e : AuditEvent)
    → e.event_id ≡ concat ("audit_" ∷ take_chars 32 e.event_fingerprint ∷ [])
    → not (is_event_id (str e.event_id)) ≡ false
event_id_of e id = rw (id, prefixed) refl

pub same_id_of :
    (e : AuditEvent)
    → e.event_id ≡ concat ("audit_" ∷ take_chars 32 e.event_fingerprint ∷ [])
    → id_differs (str e.event_id) (str e.event_fingerprint) ≡ false
unfolding id_differs
same_id_of e id = rw id (elim (Bool-cases (is_sha256 e.event_fingerprint)) [
  | inl y ↦ ground arith
  | inr n ↦ ground arith
])
