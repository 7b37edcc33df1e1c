-- ===== src/Auth/Service/Calls/Granted.antt =====
-- What `evaluate` has checked when it allows a request.
use ragsistemi.Prelude.{
  ℕ, String, ◌≡◌, refl, sym, ap, if◌then◌else◌, Bool, true, false, not, [], ◌∷◌, none, some, Option,
  contains, Result, ok, err, arith, concat, string_eq,
}
use mathlib.Core.Path.{subst}
use ragsistemi.Host.{Host}
use ragsistemi.Models.{QueryRequest, normalized}
use ragsistemi.Canonical.Serial.{Json}
use ragsistemi.Auth.Principal
use ragsistemi.Auth.Principal.{Principal}
use ragsistemi.Auth.Adapters.{
  RegistryAdapter, RateLimiterAdapter, PolicyEpochAdapter, ReplayGuardAdapter,
}
use ragsistemi.Auth.Service.{Binding, deny, allow, now_or, build_binding}
use ragsistemi.Auth.Service.Calls
use ragsistemi.Auth.Service.Calls.{Service, Outcome, catch, evaluate, current_epoch}

module _ (host : Host) (registry : RegistryAdapter) (limiter : RateLimiterAdapter)
    (epochs : PolicyEpochAdapter) (guard : ReplayGuardAdapter host) where
  abbrev State : Type 0
  State = Calls.State host registry limiter epochs guard

  abbrev pub key_of : Principal → State → String
  key_of p s = concat (p.principal_ref ∷ ":" ∷ s.operation ∷ [])

  -- A request is granted to a principal with a binding.
  pub record IsGranted (r : QueryRequest) (ref : Option String) (current : String) (clock : ℕ)
      (s : State) (b : Binding) (p : Principal) (epoch : ℕ) : Type 0 where
    pub well_formed : (j : Json) × (normalized r ≡ ok j)
    pub resolved : registry.resolve ref s.registry ≡ some p
    pub at_epoch : current_epoch host registry limiter epochs guard s ≡ ok epoch
    pub valid : Principal.is_valid host p current epoch ≡ true
    pub project : contains p.allowed_projects r.project_constraint ≡ true
    pub operation : contains p.allowed_operations s.operation ≡ true
    pub purpose : contains p.allowed_purposes r.purpose ≡ true
    pub in_budget : (limiter.consume (key_of p s) clock s.limiter).0 ≡ true
    pub bound : build_binding host s.operation r p current ≡ ok b
    pub fresh : (guard.consume r.request_id b.fingerprint b.valid_until current s.guard).0 ≡ ok true

  -- the object after an allowed request: one unit of budget and one request id are consumed
  unfoldable pub after : QueryRequest → String → ℕ → State → Binding → Principal → State
  after r current clock s b p = record s {
    limiter = (limiter.consume (key_of p s) clock s.limiter).1;
    guard = (guard.consume r.request_id b.fingerprint b.valid_until current s.guard).1;
  }

  replayed_allow :
      (b b' : Binding) (answer : Result Bool) (s s' : State)
      → Calls.replayed host registry limiter epochs guard b answer s ≡ (ok (allow b'), s')
      → (b ≡ b') × (answer ≡ ok true) × (s ≡ s')
  unfolding Calls.replayed
  replayed_allow b b' (ok true) s s' h = ground arith
  replayed_allow b b' (ok false) s s' h = ground arith
  replayed_allow b b' (err e) s s' h = ground arith

  -- what the ports must have answered for a binding to come back
  abbrev Consumed :
      QueryRequest → Principal → String → Bool × limiter.State → State → State → Binding → Type 0
  Consumed r p current answer s s' b =
      (answer.0 ≡ true)
      × (build_binding host s.operation r p current ≡ ok b)
      × ((guard.consume r.request_id b.fingerprint b.valid_until current s.guard).0 ≡ ok true)
      × (s' ≡ record s {
        limiter = answer.1;
        guard = (guard.consume r.request_id b.fingerprint b.valid_until current s.guard).1;
      })

  guarded_allow :
      (r : QueryRequest) (current : String) (built : Result Binding) (s s' : State) (b : Binding)
      → Calls.guarded host registry limiter epochs guard r current built s ≡ (ok (allow b), s')
      → (built ≡ ok b)
        × ((guard.consume r.request_id b.fingerprint b.valid_until current s.guard).0 ≡ ok true)
        × (s' ≡ record s {
          guard = (guard.consume r.request_id b.fingerprint b.valid_until current s.guard).1;
        })
  unfolding Calls.guarded
  guarded_allow r current (err e) s s' b h = ground arith
  guarded_allow r current (ok c) s s' b h =
      let call = guard.consume r.request_id c.fingerprint c.valid_until current s.guard in
      let (same, accepted, state) = replayed_allow c b call.0 (record s { guard = call.1 }) s' h in
      (
        ap ok same,
        subst
            (λ (x : Binding).
              (guard.consume r.request_id x.fingerprint x.valid_until current s.guard).0 ≡ ok true)
            same accepted,
        subst
            (λ (x : Binding). s' ≡ record s {
              guard = (guard.consume r.request_id x.fingerprint x.valid_until current s.guard).1;
            })
            same (sym state),
      )

  limited_allow :
      (r : QueryRequest) (p : Principal) (current : String) (answer : Bool × limiter.State)
      (s s' : State) (b : Binding)
      → Calls.limited host registry limiter epochs guard r p current answer s ≡ (ok (allow b), s')
      → Consumed r p current answer s s' b
  unfolding Calls.limited
  limited_allow r p current (false, l) s s' b h = ground arith
  limited_allow r p current (true, l) s s' b h =
      let g =
        guarded_allow r current (build_binding host s.operation r p current)
          (record s { limiter = l }) s' b h in
      (refl, g.0, g.1, g.2)

  scoped_allow :
      (r : QueryRequest) (p : Principal) (current : String) (clock : ℕ) (s s' : State) (b : Binding)
      → Calls.scoped host registry limiter epochs guard r p current clock s ≡ (ok (allow b), s')
      → (contains p.allowed_projects r.project_constraint ≡ true)
        × (contains p.allowed_operations s.operation ≡ true)
        × (contains p.allowed_purposes r.purpose ≡ true)
        × Consumed r p current (limiter.consume (key_of p s) clock s.limiter) s s' b
  unfolding Calls.scoped
  scoped_allow r p current clock s s' b h =
      split (contains p.allowed_projects r.project_constraint)
        (contains p.allowed_operations s.operation) (contains p.allowed_purposes r.purpose) h
    where
      split :
          (x y z : Bool)
          → (if not x
              then (ok (deny "SCOPE_MISMATCH"), s)
              else if not y
              then (ok (deny "OPERATION_NOT_ALLOWED"), s)
              else if not z
              then (ok (deny "PURPOSE_NOT_ALLOWED"), s)
              else Calls.limited host registry limiter epochs guard r p current
                  (limiter.consume (key_of p s) clock s.limiter)
                  s)
            ≡ (ok (allow b), s')
          → (x ≡ true)
            × (y ≡ true)
            × (z ≡ true)
            × Consumed r p current (limiter.consume (key_of p s) clock s.limiter) s s' b
      split false y z e = ground arith
      split true false z e = ground arith
      split true true false e = ground arith
      split true true true e = (
        refl,
        refl,
        refl,
        limited_allow r p current (limiter.consume (key_of p s) clock s.limiter) s s' b e,
      )

  catch_allow :
      (out : Outcome State) (s' : State) (b : Binding)
      → catch out ≡ (ok (allow b), s')
      → out ≡ (ok (allow b), s')
  unfolding catch
  catch_allow (ok e, s) s' b h = h
  catch_allow (err e, s) s' b h = ground arith

  -- what `scoped` and the ports have checked
  abbrev Allowed : QueryRequest → Principal → String → ℕ → State → State → Binding → Type 0
  Allowed r p current clock s s' b =
      (contains p.allowed_projects r.project_constraint ≡ true)
      × (contains p.allowed_operations s.operation ≡ true)
      × (contains p.allowed_purposes r.purpose ≡ true)
      × Consumed r p current (limiter.consume (key_of p s) clock s.limiter) s s' b

  authenticated_allow :
      (r : QueryRequest) (p : Principal) (current : String) (clock : ℕ) (at : Result ℕ)
      (s s' : State) (b : Binding)
      → Calls.authenticated host registry limiter epochs guard r p current clock at s
        ≡ (ok (allow b), s')
      → (epoch : ℕ) × (at ≡ ok epoch)
        × (Principal.is_valid host p current epoch ≡ true)
        × Allowed r p current clock s s' b
  unfolding Calls.authenticated
  authenticated_allow r p current clock (err e) s s' b h = ground arith
  authenticated_allow r p current clock (ok epoch) s s' b h =
      let rest = split (Principal.is_valid host p current epoch) h in (epoch, refl, rest.0, rest.1)
    where
      split :
          (valid : Bool)
          → (if not valid
              then (ok (deny "AUTHORITY_STALE_OR_INVALID"), s)
              else Calls.scoped host registry limiter epochs guard r p current clock s)
            ≡ (ok (allow b), s')
          → (valid ≡ true) × Allowed r p current clock s s' b
      split false e = ground arith
      split true e = (refl, scoped_allow r p current clock s s' b e)

  attempt_allow :
      (r : QueryRequest) (ref : Option String) (current : String) (clock : ℕ) (n : Result Json)
      (s s' : State) (b : Binding)
      → normalized r ≡ n
      → Calls.attempt host registry limiter epochs guard r ref current clock n s
        ≡ (ok (allow b), s')
      → (p : Principal) × (epoch : ℕ) × IsGranted r ref current clock s b p epoch
        × (s' ≡ after r current clock s b p)
  unfolding Calls.attempt after
  attempt_allow r ref current clock (err e) s s' b n h = ground arith
  attempt_allow r ref current clock (ok j) s s' b n h =
      split (registry.resolve ref s.registry) refl h
    where
      split :
          (found : Option Principal)
          → registry.resolve ref s.registry ≡ found
          → Calls.resolved host registry limiter epochs guard r found current clock s
            ≡ (ok (allow b), s')
          → (p : Principal) × (epoch : ℕ) × IsGranted r ref current clock s b p epoch
            × (s' ≡ after r current clock s b p)
      split none known e = ground arith
      split (some p) known e =
          let a =
            authenticated_allow r p current clock
              (current_epoch host registry limiter epochs guard s) s s' b e in
          (
            p,
            a.0,
            record {
              well_formed = (j, n);
              resolved = known;
              at_epoch = a.1;
              valid = a.2;
              project = a.3.0;
              operation = a.3.1;
              purpose = a.3.2;
              in_budget = a.3.3.0;
              bound = a.3.3.1;
              fresh = a.3.3.2;
            },
            a.3.3.3,
          )

  -- Where `evaluate` allows a request, every check of the boundary has passed: the request is well
  -- formed, its reference resolves to a principal that is valid now at the current policy epoch,
  -- project, operation and purpose are the principal's, the budget of the principal's operation had
  -- room, the id was fresh, and the binding is the one that the service derives.  Besides the unit
  -- of budget and the request id nothing is changed.
  pub evaluate-allow :
      (r : QueryRequest) (ref now : Option String) (wall : String) (clock : ℕ) (s s' : State)
      (b : Binding)
      → evaluate host registry limiter epochs guard r ref now wall clock s ≡ (ok (allow b), s')
      → (p : Principal) × (epoch : ℕ) × IsGranted r ref (now_or now wall) clock s b p epoch
        × (s' ≡ after r (now_or now wall) clock s b p)
  unfolding evaluate
  evaluate-allow r ref now wall clock s s' b h =
      let current = now_or now wall in
      attempt_allow r ref current clock (normalized r) s s' b refl (
        catch_allow
          (Calls.attempt host registry limiter epochs guard r ref current clock (normalized r) s) s'
          b h)
