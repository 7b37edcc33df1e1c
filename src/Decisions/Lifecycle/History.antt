-- ===== src/Decisions/Lifecycle/History.antt =====
-- The history of a lifecycle: what the loop over its transitions has checked.
use ragsistemi.Prelude.{
  ℕ, suc, String, ◌≡◌, ◌≤◌, Result, err, refl, sym, ap, ◌∙◌, inl, inr, true, not, ◌&&◌, ◌||◌, List,
  [], ◌∷◌, Option, none, some, ◌==◌, string_eq, contains, ok, arith, raise_if_passed, bind-eq-ok,
  ok_injective, All, Bool-cases,
}
use mathlib.Core.Path.{subst}
use ragsistemi.Host.{Host}
use ragsistemi.Canonical.Time.{parse_time}
use ragsistemi.Canonical.Serial.{Json, str, arr, obj, Items, nil, cons, Fields}
use ragsistemi.Decisions.{
  legal_transitions, reason_classes, get, has_exactly, is_index, is_text, is_digest,
  raise_unless_in,
}
use ragsistemi.Decisions.Lifecycle
use ragsistemi.Decisions.Lifecycle.{
  text_of, transition_fields, is_legal, visibility_of, check_history, validate_lifecycle,
}

-- The state machine of fetched content.
pub data Move : String → String → Type 0 where
  fetched : Move "NOT_APPLICABLE" "QUARANTINED"
  admitted : Move "QUARANTINED" "ADMITTED_TYPED_DATA"
  rejected : Move "QUARANTINED" "REJECTED"
  discarded : Move "QUARANTINED" "DISCARDED"
  aborted : Move "QUARANTINED" "ABORTED"
  admitted_discarded : Move "ADMITTED_TYPED_DATA" "DISCARDED"
  admitted_aborted : Move "ADMITTED_TYPED_DATA" "ABORTED"

-- at the time of the move before, or later
abbrev pub NotBefore : Option ℕ → ℕ → Type 0
NotBefore none at = Unit
NotBefore (some earlier) at = earlier ≤ at

abbrev IsMove : String × String × String → Type 0
IsMove (a, b, e) = Move a b

retarget : {a b start next : String} → Move a b → a ≡ start → b ≡ next → Move start next
retarget {a} {b} {start} {next} m p q = subst (λ x. Move x next) p (subst (λ y. Move a y) q m)

is_legal-Move_in :
    (rows : List (String × String × String)) (start next : String) (event : Json)
    → All IsMove rows
    → is_legal rows start next event ≡ true
    → Move start next
unfolding is_legal
is_legal-Move_in [] start next event all h = cc
is_legal-Move_in ((a, b, e) ∷ rest) start next event all h =
    elim (Bool-cases (a == start && b == next)) [
      | inl here ↦ retarget all.0 (ground (arith, here)) (ground (arith, here))
      | inr past ↦ is_legal-Move_in rest start next event all.1 (ground (arith, past))
    ]

is_legal-Move :
    (start next : String) (event : Json)
    → is_legal legal_transitions start next event ≡ true
    → Move start next
is_legal-Move start next event = is_legal-Move_in legal_transitions start next event (
  fetched,
  (admitted, (rejected, (discarded, (aborted, (admitted_discarded, (admitted_aborted, tt)))))),
)

-- a word that was found
pub raise_unless_in-str :
    (words : List String) (v : Json) (message : String)
    → raise_unless_in words v message ≡ ok tt
    → (v ≡ str (text_of v)) × (contains words (text_of v) ≡ true)
unfolding raise_unless_in text_of
raise_unless_in-str words (str s) message h = (refl, ground arith)
raise_unless_in-str words (arr items) message h = cc
raise_unless_in-str words (obj fields) message h = cc
raise_unless_in-str words Json.null message h = cc
raise_unless_in-str words (Json.bool b) message h = cc
raise_unless_in-str words (Json.num n) message h = cc

pub is_text-str : (text : String) (v : Json) → is_text text v ≡ true → v ≡ str text
unfolding is_text
is_text-str text (str s) h = ground arith
is_text-str text (arr items) h = cc
is_text-str text (obj fields) h = cc
is_text-str text Json.null h = cc
is_text-str text (Json.bool b) h = cc
is_text-str text (Json.num n) h = cc

pub is_digest-str : (v : Json) → is_digest v ≡ true → v ≡ str (text_of v)
unfolding is_digest text_of
is_digest-str (str s) h = refl
is_digest-str (arr items) h = cc
is_digest-str (obj fields) h = cc
is_digest-str Json.null h = cc
is_digest-str (Json.bool b) h = cc
is_digest-str (Json.num n) h = cc

module _ (host : Host) where
  -- A list of transitions, each a move from where the one before ended, at a time that has a zone and
  -- is not before the time before.
  pub data History : String → Option ℕ → Items → String → Type 0 where
    ended : {state : String} {time : Option ℕ} → History state time nil state
    moved :
        {state next last : String} {time : Option ℕ} {rest : Items} (t : Fields) (at : ℕ)
        → Move state next
        → is_text state (get "from_state" t) ≡ true
        → text_of (get "to_state" t) ≡ next
        → parse_time host (text_of (get "observed_at" t)) ≡ ok at
        → NotBefore time at
        → History next (some at) rest last
        → History state time (cons (obj t) rest) last

  in_order-NotBefore :
      (time : Option ℕ) (seen : Result ℕ) (at : ℕ)
      → Lifecycle.in_order host time seen ≡ ok at
      → (seen ≡ ok at) × NotBefore time at
  unfolding Lifecycle.in_order Lifecycle.is_before
  in_order-NotBefore none (ok t) at h = (h, tt)
  in_order-NotBefore (some earlier) (ok t) at h = (ground arith, ground arith)
  in_order-NotBefore none (err e) at h = cc
  in_order-NotBefore (some earlier) (err e) at h = cc

  observed_time-NotBefore :
      (time : Option ℕ) (v : Json) (at : ℕ)
      → Lifecycle.observed_time host time v ≡ ok at
      → (parse_time host (text_of v) ≡ ok at) × NotBefore time at
  unfolding Lifecycle.observed_time text_of
  observed_time-NotBefore time (str s) at h = in_order-NotBefore time (parse_time host s) at h
  observed_time-NotBefore time (arr items) at h = cc
  observed_time-NotBefore time (obj t) at h = cc
  observed_time-NotBefore time Json.null at h = cc
  observed_time-NotBefore time (Json.bool b) at h = cc
  observed_time-NotBefore time (Json.num i) at h = cc

  -- what one round of the loop has checked
  check_transition-Move :
      (n : ℕ) (previous : String) (time : Option ℕ) (t : Fields) (next : String) (at : ℕ)
      → Lifecycle.check_transition host n previous time (obj t) ≡ ok (next, at)
      → Move previous next
        × (is_text previous (get "from_state" t) ≡ true)
        × (text_of (get "to_state" t) ≡ next)
        × (parse_time host (text_of (get "observed_at" t)) ≡ ok at)
        × NotBefore time at
  unfolding Lifecycle.check_transition
  check_transition-Move n previous time t next at h =
      let (a, h1) = raise_if_passed (not (has_exactly t transition_fields)) _ _ h in
      let (joined, h2) =
        raise_if_passed
          (not (is_index n (get "sequence" t)) || not (is_text previous (get "from_state" t))) _ _
          h1 in
      let (c, found, h3) =
        bind-eq-ok
          (raise_unless_in reason_classes (get "reason_class" t)
            "lifecycle_transition_reason_invalid")
          _ h2 in
      let (now, seen, h4) =
        bind-eq-ok (Lifecycle.observed_time host time (get "observed_at" t)) _ h3 in
      let (legal, h5) =
        raise_if_passed
          (not (is_legal legal_transitions previous (text_of (get "to_state" t)) (get "event" t))) _
          _ h4 in
      let same : text_of (get "to_state" t) ≡ next =
        ap (λ (x : String × ℕ). x.0) (ok_injective h5) in
      let at_now : now ≡ at = ap (λ (x : String × ℕ). x.1) (ok_injective h5) in
      let timed = observed_time-NotBefore time (get "observed_at" t) now seen in
      (
        subst (λ x. Move previous x) same
            (is_legal-Move previous (text_of (get "to_state" t)) (get "event" t)
              (ground (arith, legal))),
        ground (arith, joined),
        same,
        timed.0 ∙ ap ok at_now,
        subst (λ x. NotBefore time x) at_now timed.1,
      )

  check_history-History :
      (n : ℕ) (previous : String) (time : Option ℕ) (items : Items) (last : String)
      → check_history host n previous time items ≡ ok last
      → History previous time items last
  unfolding check_history Lifecycle.check_transition
  check_history-History n previous time nil last h =
      subst (λ x. History previous time nil x) (ok_injective h) ended
  check_history-History n previous time (cons (obj t) rest) last h =
      let ((next, at), passed, h1) =
        bind-eq-ok (Lifecycle.check_transition host n previous time (obj t)) _ h in
      let (step, start, end, seen, later) =
        check_transition-Move n previous time t next at passed in
      moved t at step start end seen later
        (check_history-History (suc n) next (some at) rest last h1)
  check_history-History n previous time (cons (str s) rest) last h = cc
  check_history-History n previous time (cons (arr items) rest) last h = cc
  check_history-History n previous time (cons Json.null rest) last h = cc
  check_history-History n previous time (cons (Json.bool b) rest) last h = cc
  check_history-History n previous time (cons (Json.num i) rest) last h = cc

  -- The transitions of a record are a history that ends in a state.
  abbrev pub HasHistory : Json → String → Type 0
  HasHistory v terminal =
      (items : Items) × (v ≡ arr items) × History "NOT_APPLICABLE" none items terminal

  pub check_transitions-HasHistory :
      (terminal : String) (v : Json)
      → Lifecycle.check_transitions host terminal v ≡ ok tt
      → HasHistory v terminal
  unfolding Lifecycle.check_transitions Lifecycle.no_items check_history
  check_transitions-HasHistory terminal (arr nil) h =
      elim (string_eq.dec terminal "NOT_APPLICABLE") [
        | yes same ↦ (nil, refl, subst (λ x. History "NOT_APPLICABLE" none nil x) (sym same) ended)
        | no other ↦ absurd (ground arith)
      ]
  check_transitions-HasHistory terminal (arr (cons t rest)) h =
      let (last, passed, h1) =
        bind-eq-ok (check_history host 0 "NOT_APPLICABLE" none (cons t rest)) _ h in
      let (a, h2) =
        raise_if_passed
          (not (terminal == "NOT_APPLICABLE") && Lifecycle.no_items host (cons t rest)) _ _ h1 in
      let same : last ≡ terminal = ground (arith, h2) in
      (
        cons t rest,
        refl,
        subst (λ x. History "NOT_APPLICABLE" none (cons t rest) x) same
            (check_history-History 0 "NOT_APPLICABLE" none (cons t rest) last passed),
      )
  check_transitions-HasHistory terminal (str s) h = cc
  check_transitions-HasHistory terminal (obj t) h = cc
  check_transitions-HasHistory terminal Json.null h = cc
  check_transitions-HasHistory terminal (Json.bool b) h = cc
  check_transitions-HasHistory terminal (Json.num i) h = cc
