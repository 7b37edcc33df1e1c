-- ===== src/Auth/Service/Calls/Denied.antt =====
-- What a call of `evaluate` consumes.
use mathlib.Core.Path.{subst}
use ragsistemi.Prelude.{
  ℕ, String, ◌≡◌, refl, sym, ap, ◌∙◌, ◌⊎◌, inl, inr, if◌then◌else◌, Bool, true, false, not, Option,
  none, some, contains, Result, ok, err, Error, arith, string_eq, is_value_error, Bool-cases,
}
use ragsistemi.Host.{Host}
use ragsistemi.Models.{QueryRequest, normalized, raises-normalized}
use ragsistemi.Canonical.Serial.{Json}
use ragsistemi.Auth.Principal
use ragsistemi.Auth.Principal.{Principal}
use ragsistemi.Auth.Adapters.{
  RegistryAdapter, RateLimiterAdapter, PolicyEpochAdapter, ReplayGuardAdapter,
}
use ragsistemi.Auth.Service.{Binding, Evaluation, deny, now_or, build_binding}
use ragsistemi.Auth.Service.Bound.{raises-build_binding}
use ragsistemi.Auth.Service.Calls
use ragsistemi.Auth.Service.Calls.{Service, Outcome, is_caught, catch, evaluate, current_epoch}
use ragsistemi.Auth.Service.Calls.Granted.{key_of}

value_error-is_caught : (e : Error) → is_value_error e ≡ true → is_caught e ≡ true
value_error-is_caught e h = ground arith

module _ (host : Host) (registry : RegistryAdapter) (limiter : RateLimiterAdapter)
    (epochs : PolicyEpochAdapter) (guard : ReplayGuardAdapter host) where
  abbrev State : Type 0
  State = Calls.State host registry limiter epochs guard

  -- A request may be counted: it is well formed, and its principal is valid and entitled to it.
  pub record IsEntitled (r : QueryRequest) (ref : Option String) (current : String) (s : State)
      (p : Principal) (epoch : ℕ) : Type 0 where
    pub well_formed : (j : Json) × (normalized r ≡ ok j)
    pub resolved : registry.resolve ref s.registry ≡ some p
    pub at_epoch : current_epoch host registry limiter epochs guard s ≡ ok epoch
    pub valid : Principal.is_valid host p current epoch ≡ true
    pub project : contains p.allowed_projects r.project_constraint ≡ true
    pub operation : contains p.allowed_operations s.operation ≡ true
    pub purpose : contains p.allowed_purposes r.purpose ≡ true

  -- what the ports were asked, once the tests of scope had passed
  abbrev pub IsCounted :
      QueryRequest → Principal → String → Bool × limiter.State → State → State → Type 0
  IsCounted r p current answer s s' =
      (s' ≡ record s { limiter = answer.1 })
      ⊎ ((answer.0 ≡ true)
          × (b : Binding) × (build_binding host s.operation r p current ≡ ok b)
          × (s' ≡ record s {
            limiter = answer.1;
            guard = (guard.consume r.request_id b.fingerprint b.valid_until current s.guard).1;
          }))

  -- an outcome that `catch` turns into an evaluation
  abbrev IsCaught : Outcome State → Type 0
  IsCaught out = (e : Error) → out.0 ≡ err e → is_caught e ≡ true

  replayed-IsCaught :
      (b : Binding) (answer : Result Bool) (s : State)
      → ((answer ≡ ok true)
          ⊎ ((answer ≡ ok false) ⊎ ((m : String) × (answer ≡ err (Error.value_error m)))))
      → IsCaught (Calls.replayed host registry limiter epochs guard b answer s)
        × ((Calls.replayed host registry limiter epochs guard b answer s).1 ≡ s)
  unfolding Calls.replayed
  replayed-IsCaught b (ok true) s h = (λ e k. cc, refl)
  replayed-IsCaught b (ok false) s h = (λ e k. cc, refl)
  replayed-IsCaught b (err x) s (inl h) = cc
  replayed-IsCaught b (err x) s (inr (inl h)) = cc
  replayed-IsCaught b (err x) s (inr (inr (m, h))) = (λ e k. ground (arith, h), refl)

  guard_answer :
      (id fp until now : String) (s : guard.State)
      → guard.IsWell s
      → (a : Result Bool) → (guard.consume id fp until now s).0 ≡ a
      → (a ≡ ok true) ⊎ ((a ≡ ok false) ⊎ ((m : String) × (a ≡ err (Error.value_error m))))
  guard_answer id fp until now s w (ok true) h = inl refl
  guard_answer id fp until now s w (ok false) h = inr (inl refl)
  guard_answer id fp until now s w (err e) h =
      let (m, raised) = guard.raises id fp until now s w (λ k. cc) (λ k. cc) in
      inr (inr (m, sym h ∙ raised))

  guarded-IsCounted :
      (r : QueryRequest) (p : Principal) (current : String) (l : limiter.State) (s : State)
      (m : Result Binding)
      → guard.IsWell s.guard
      → build_binding host s.operation r p current ≡ m
      → IsCaught
          (Calls.guarded host registry limiter epochs guard r current m (record s { limiter = l }))
        × IsCounted r p current
            (true, l)
            s
            (Calls.guarded host registry limiter epochs guard r current m
              (record s { limiter = l })).1
  unfolding Calls.guarded
  guarded-IsCounted r p current l s (err x) w k = (
    λ e h. value_error-is_caught e (raises-build_binding host s.operation r p current e (k ∙ cc)),
    inl refl,
  )
  guarded-IsCounted r p current l s (ok b) w k =
      let call = guard.consume r.request_id b.fingerprint b.valid_until current s.guard in
      let next : State = record s { limiter = l; guard = call.1 } in
      let c =
        replayed-IsCaught b call.0 next
          (guard_answer r.request_id b.fingerprint b.valid_until current s.guard w call.0 refl) in
      (c.0, inr (refl, b, k, c.1))

  limited-IsCounted :
      (r : QueryRequest) (p : Principal) (current : String) (answer : Bool × limiter.State)
      (s : State)
      → guard.IsWell s.guard
      → IsCaught (Calls.limited host registry limiter epochs guard r p current answer s)
        × IsCounted r p current answer s
            (Calls.limited host registry limiter epochs guard r p current answer s).1
  unfolding Calls.limited
  limited-IsCounted r p current (false, l) s w = (λ e k. cc, inl refl)
  limited-IsCounted r p current (true, l) s w =
      guarded-IsCounted r p current l s (build_binding host s.operation r p current) w refl

  abbrev pub asked : Principal → ℕ → State → Bool × limiter.State
  asked p clock s = limiter.consume (key_of host registry limiter epochs guard p s) clock s.limiter

  -- Nothing is changed, or the request was entitled to be counted.
  abbrev pub Effect : QueryRequest → Option String → String → ℕ → State → State → Type 0
  Effect r ref current clock s s' =
      (s' ≡ s)
      ⊎ ((p : Principal) × (epoch : ℕ) × IsEntitled r ref current s p epoch
          × IsCounted r p current (asked p clock s) s s')

  abbrev Entitled : QueryRequest → Principal → String → State → Type 0
  Entitled r p current s =
      (contains p.allowed_projects r.project_constraint ≡ true)
      × (contains p.allowed_operations s.operation ≡ true)
      × (contains p.allowed_purposes r.purpose ≡ true)

  -- the tests of `scoped`, by their answers
  abbrev tested : QueryRequest → Principal → String → ℕ → State → (x y z : Bool) → Outcome State
  tested r p current clock s x y z =
      if not x
      then (ok (deny "SCOPE_MISMATCH"), s)
      else if not y
      then (ok (deny "OPERATION_NOT_ALLOWED"), s)
      else if not z
      then (ok (deny "PURPOSE_NOT_ALLOWED"), s)
      else Calls.limited host registry limiter epochs guard r p current (asked p clock s) s

  tested-IsCounted :
      (r : QueryRequest) (p : Principal) (current : String) (clock : ℕ) (s : State)
      → guard.IsWell s.guard
      → (x y z : Bool)
      → IsCaught (tested r p current clock s x y z)
        × (((tested r p current clock s x y z).1 ≡ s)
            ⊎ (((x ≡ true) × (y ≡ true) × (z ≡ true))
                × IsCounted r p current (asked p clock s) s (tested r p current clock s x y z).1))
  tested-IsCounted r p current clock s w false y z = (λ e k. cc, inl refl)
  tested-IsCounted r p current clock s w true false z = (λ e k. cc, inl refl)
  tested-IsCounted r p current clock s w true true false = (λ e k. cc, inl refl)
  tested-IsCounted r p current clock s w true true true =
      let c = limited-IsCounted r p current (asked p clock s) s w in
      (c.0, inr ((refl, refl, refl), c.1))

  scoped-IsCounted :
      (r : QueryRequest) (p : Principal) (current : String) (clock : ℕ) (s : State)
      → guard.IsWell s.guard
      → IsCaught (Calls.scoped host registry limiter epochs guard r p current clock s)
        × (((Calls.scoped host registry limiter epochs guard r p current clock s).1 ≡ s)
            ⊎ (Entitled r p current s
                × IsCounted r p current
                    (asked p clock s)
                    s
                    (Calls.scoped host registry limiter epochs guard r p current clock s).1))
  unfolding Calls.scoped
  scoped-IsCounted r p current clock s w =
      tested-IsCounted r p current clock s w (contains p.allowed_projects r.project_constraint)
        (contains p.allowed_operations s.operation) (contains p.allowed_purposes r.purpose)

  raises-current_epoch :
      (s : State) (e : Error)
      → current_epoch host registry limiter epochs guard s ≡ err e
      → is_caught e ≡ true
  unfolding current_epoch
  raises-current_epoch s e = raised s.epoch_store
    where
      raised :
          (o : Option epochs.State)
          → Calls.epoch_in host registry limiter epochs guard o s.current_policy_epoch ≡ err e
          → is_caught e ≡ true
      raised none h = cc
      raised (some row) h = value_error-is_caught e (epochs.raises row e h)

  authenticated-IsCounted :
      (r : QueryRequest) (p : Principal) (current : String) (clock : ℕ) (at : Result ℕ) (s : State)
      → guard.IsWell s.guard
      → current_epoch host registry limiter epochs guard s ≡ at
      → IsCaught (Calls.authenticated host registry limiter epochs guard r p current clock at s)
        × (((Calls.authenticated host registry limiter epochs guard r p current clock at s).1 ≡ s)
            ⊎ ((epoch : ℕ) × (at ≡ ok epoch)
                × (Principal.is_valid host p current epoch ≡ true)
                × Entitled r p current s
                × IsCounted r p current
                    (asked p clock s)
                    s
                    (Calls.authenticated host registry limiter epochs guard r p current clock at
                      s).1))
  unfolding Calls.authenticated
  authenticated-IsCounted r p current clock (err x) s w at =
      (λ e h. raises-current_epoch s e (at ∙ cc), inl refl)
  authenticated-IsCounted r p current clock (ok epoch) s w at =
      elim (Bool-cases (Principal.is_valid host p current epoch)) [
        | inl valid ↦ rw valid (
            let c = scoped-IsCounted r p current clock s w in
            (c.0, elim c.1 [ inl same ↦ inl same | inr (e, d) ↦ inr (epoch, refl, valid, e, d) ]))
        | inr stale ↦ rw stale (λ e k. cc, inl refl)
      ]

  resolved-Effect :
      (r : QueryRequest) (ref : Option String) (j : Json) (found : Option Principal)
      (current : String) (clock : ℕ) (s : State)
      → guard.IsWell s.guard
      → normalized r ≡ ok j
      → registry.resolve ref s.registry ≡ found
      → IsCaught (Calls.resolved host registry limiter epochs guard r found current clock s)
        × Effect r ref current clock s
            (Calls.resolved host registry limiter epochs guard r found current clock s).1
  unfolding Calls.resolved
  resolved-Effect r ref j none current clock s w n known = (λ e k. cc, inl refl)
  resolved-Effect r ref j (some p) current clock s w n known =
      let (caught, c) =
        authenticated-IsCounted r p current clock
          (current_epoch host registry limiter epochs guard s) s w refl in
      (
        caught,
        elim c [
          | inl same ↦ inl same
          | inr (epoch, at, valid, e, d) ↦ inr (
            p,
            epoch,
            record {
              well_formed = (j, n);
              resolved = known;
              at_epoch = at;
              valid = valid;
              project = e.0;
              operation = e.1;
              purpose = e.2;
            },
            d,
          )
        ],
      )

  attempt-Effect :
      (r : QueryRequest) (ref : Option String) (current : String) (clock : ℕ) (m : Result Json)
      (s : State)
      → guard.IsWell s.guard
      → normalized r ≡ m
      → IsCaught (Calls.attempt host registry limiter epochs guard r ref current clock m s)
        × Effect r ref current clock s
            (Calls.attempt host registry limiter epochs guard r ref current clock m s).1
  unfolding Calls.attempt
  attempt-Effect r ref current clock (err x) s w n =
      (λ e h. value_error-is_caught e (raises-normalized r e (n ∙ cc)), inl refl)
  attempt-Effect r ref current clock (ok j) s w n =
      resolved-Effect r ref j (registry.resolve ref s.registry) current clock s w n refl

  caught_returns :
      (out : Outcome State) → IsCaught out → (e : Evaluation) × (catch out ≡ (ok e, out.1))
  unfolding catch
  caught_returns (ok e, s) c = (e, refl)
  caught_returns (err x, s) c = (deny "AUTHORIZATION_INVALID", rw (c x refl) refl)

  -- What the ports of this model and its timestamps raise are errors that `evaluate` catches: a
  -- timestamp without a moment in UTC, and an error of the database, are not among them.
  evaluate-returns :
      (r : QueryRequest) (ref now : Option String) (wall : String) (clock : ℕ) (s : State)
      → guard.IsWell s.guard
      → (e : Evaluation) × ((evaluate host registry limiter epochs guard r ref now wall clock s).0
          ≡ ok e)
        × Effect r ref
            (now_or now wall)
            clock
            s
            (evaluate host registry limiter epochs guard r ref now wall clock s).1
  unfolding evaluate
  evaluate-returns r ref now wall clock s w =
      let current = now_or now wall in
      let (caught, effect) = attempt-Effect r ref current clock (normalized r) s w refl in
      let (e, says) =
        caught_returns
          (Calls.attempt host registry limiter epochs guard r ref current clock (normalized r) s)
          caught in
      (e, ap (λ (x : Outcome State). x.0) says, rw says effect)

  -- Over a replay guard in a good state, the effect of an `evaluate` that returns is confined,
  -- whatever it returns: either nothing is changed, or the request is well formed and its principal
  -- is valid and entitled to the project, operation and purpose. In that case the budget of the
  -- principal's operation is asked once, and the request's id is offered to the replay guard only
  -- where the budget had room and the binding was derived.
  pub evaluate-confined :
      (r : QueryRequest) (ref now : Option String) (wall : String) (clock : ℕ) (s s' : State)
      (e : Evaluation)
      → guard.IsWell s.guard
      → evaluate host registry limiter epochs guard r ref now wall clock s ≡ (ok e, s')
      → Effect r ref (now_or now wall) clock s s'
  evaluate-confined r ref now wall clock s s' e w h =
      let (x, says, effect) = evaluate-returns r ref now wall clock s w in
      subst (Effect r ref (now_or now wall) clock s) (ap (λ (o : Outcome State). o.1) h) effect
