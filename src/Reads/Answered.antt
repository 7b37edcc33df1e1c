-- ===== src/Reads/Answered.antt =====
-- The operations of an authenticated service in pmiri/read_operations.py always get past the fence.
use ragsistemi.Prelude.{
  ℕ, String, Bool, true, false, ◌≡◌, refl, ap, ◌⊎◌, inl, inr, Option, none, some, string_eq,
  contains, Result, ok, err, bind-eq-ok, ok_injective,
}
use mathlib.Core.Path.{subst}
use mathlib.Core.Option.{some-injective}
use ragsistemi.Prelude.Dict.{Dict}
use ragsistemi.Host.{Host}
use ragsistemi.Canonical.Serial.{null, Fields}
use ragsistemi.Canonical.Equality.{json_eq}
use ragsistemi.Decisions.{get}
use ragsistemi.Models.{QueryRequest}
use ragsistemi.Retrieval.{Unicode}
use ragsistemi.Runtime.{LocalRuntime, query}
use ragsistemi.Disclosure.{project_query_result}
use ragsistemi.Auth.Adapters.{
  RegistryAdapter, RateLimiterAdapter, PolicyEpochAdapter, ReplayGuardAdapter,
}
use ragsistemi.Auth.Service.{Evaluation, deny, allow}
use ragsistemi.Auth.Service.Integrity.{public_lineage}
use ragsistemi.Auth.Service.Calls.{State}
use ragsistemi.Reads.Projection
use ragsistemi.Reads.Projection.{
  ProjectionRequest, query_request, from_mapping, server_binding, disclosed, handle_disclosed,
  handle_authenticated, put, merged, fields_of, text_fields, bound_to, continuation, binding_or,
  still_authorized, answer_to,
}
use ragsistemi.Reads.Operations.{
  ReadService, read_operations, strip_transport_operation, operation_cursor, cursor_for, execute,
}
use ragsistemi.Reads.Emitted.{response_to, emit_iff}
use ragsistemi.Reads.Shaped.{
  project_query_result-IsShown, IsEntries, public_lineage-IsEntries, bound_to-IsAnswer,
  binding_or-IsEntries, IsAnswer,
}

module _ (host : Host) where
  module _ (unicode : Unicode) where
    disclosed-IsAnswer :
        (runtime : LocalRuntime) (r : QueryRequest) (authorized : Bool)
        (given : Option (Dict String)) (recheck : Option (QueryRequest → Result Bool)) (a : Fields)
        → ((es : Dict String) → given ≡ some es → IsEntries host es)
        → disclosed host unicode runtime r authorized given recheck ≡ ok a
        → IsAnswer host a
    unfolding disclosed
    disclosed-IsAnswer runtime r authorized given recheck a known h =
        let (es, bound, h1) = bind-eq-ok (binding_or host given r) _ h in
        let (answer, found, h2) = bind-eq-ok (query host unicode runtime r) _ h1 in
        let (shown, checked, h3) = bind-eq-ok (still_authorized host authorized recheck r) _ h2 in
        let (p, made, h4) = bind-eq-ok (project_query_result host answer shown) _ h3 in
        rw (← ok_injective h4) (
          bound_to-IsAnswer host es p (binding_or-IsEntries host given r es known bound)
            (project_query_result-IsShown host answer shown p made))

    handle_disclosed-IsAnswer :
        (runtime : LocalRuntime) (raw : Fields) (authorized : Bool) (given : Option (Dict String))
        (recheck : Option (QueryRequest → Result Bool)) (a : Fields)
        → ((es : Dict String) → given ≡ some es → IsEntries host es)
        → handle_disclosed host unicode runtime raw authorized given recheck ≡ ok a
        → IsAnswer host a
    unfolding handle_disclosed
    handle_disclosed-IsAnswer runtime raw authorized given recheck a known h =
        let (p, parsed, h1) = bind-eq-ok (from_mapping raw) _ h in
        disclosed-IsAnswer runtime (query_request p) authorized given recheck a known h1

    module _ (registry : RegistryAdapter) (limiter : RateLimiterAdapter)
        (epochs : PolicyEpochAdapter) (guard : ReplayGuardAdapter host) where
      answer_to-IsAnswer :
          (runtime : LocalRuntime) (raw : Fields) (now : Option String) (later : String)
          (evaluation : Result Evaluation) (s : State host registry limiter epochs guard)
          (a : Fields)
          → answer_to host unicode registry limiter epochs guard runtime raw now later evaluation s
            ≡ ok a
          → IsAnswer host a
      unfolding answer_to
      answer_to-IsAnswer runtime raw now later (err e) s a h = cc
      answer_to-IsAnswer runtime raw now later (ok (deny reason)) s a h =
          handle_disclosed-IsAnswer runtime raw false none none a (λ es k. cc) h
      answer_to-IsAnswer runtime raw now later (ok (allow b)) s a h =
          handle_disclosed-IsAnswer runtime raw true _ _ a
            (λ es k.
              subst (λ (x : Dict String). IsEntries host x)
                (some-injective (public_lineage host b) es k) (public_lineage-IsEntries host b))
            h

      handle_authenticated-IsAnswer :
          (runtime : LocalRuntime) (raw : Fields) (ref now : Option String) (wall later : String)
          (clock : ℕ) (s t : State host registry limiter epochs guard) (a : Fields)
          → handle_authenticated host unicode registry limiter epochs guard runtime raw ref now wall
              later clock s
            ≡ (ok a, t)
          → IsAnswer host a
      unfolding handle_authenticated
      handle_authenticated-IsAnswer runtime raw ref now wall later clock s t a h =
          of_parsed (from_mapping raw) h
        where
          of_parsed :
              (o : Result ProjectionRequest)
              → Projection.evaluated host unicode registry limiter epochs guard runtime raw ref now
                  wall later clock o s
                ≡ (ok a, t)
              → IsAnswer host a
          of_parsed (err e) k = cc
          of_parsed (ok p) k =
              answer_to-IsAnswer runtime raw now later _ _ a
                (ap (λ (x : Result Fields × State host registry limiter epochs guard). x.0) k)

      operation_cursor-IsAnswer :
          (operation : String) (a : Fields)
          → IsAnswer host a
          → (cursor : String) × (operation_cursor host operation a ≡ ok cursor)
      unfolding operation_cursor
      operation_cursor-IsAnswer operation a w = (
        cursor_for host operation w.shape.lineage w.base,
        rw (w.shape.lineage_is, w.base_is) refl,
      )

      null_eq : json_eq null null ≡ true
      unfolding json_eq
      null_eq = refl

      -- With an authorization service every known operation that the handler answers is emitted, to
      -- either adapter: where the request supplies no cursor, the response is the envelope of that
      -- answer under its fence, and the service is what the authorization left.
      pub execute-returns :
          (v : ReadService host unicode registry limiter epochs guard) (operation adapter : String)
          (raw payload answered : Fields) (ref now : Option String) (wall later : String)
          (clock : ℕ) (s t : State host registry limiter epochs guard)
          → v.authorization ≡ some s
          → contains read_operations operation ≡ true
          → strip_transport_operation operation raw ≡ ok payload
          → (adapter ≡ "api") ⊎ (adapter ≡ "mcp")
          → get "cursor" payload ≡ null
          → handle_authenticated host unicode registry limiter epochs guard v.runtime payload ref
              now wall later clock s
            ≡ (ok answered, t)
          → (cursor : String) × (operation_cursor host operation answered ≡ ok cursor)
            × (execute host unicode registry limiter epochs guard v operation raw adapter none ref
                  now wall later clock
                ≡ (
                  ok (response_to host operation answered cursor),
                  record v { authorization = some t },
                ))
      unfolding execute string_eq
      execute-returns v operation adapter raw payload answered ref now wall later clock s t present
            known clean through free handled =
          let w =
            handle_authenticated-IsAnswer v.runtime payload ref now wall later clock s t answered
              handled in
          let (cursor, derived) = operation_cursor-IsAnswer operation answered w in
          let emitted =
            (emit_iff host operation payload answered cursor w.shape known derived).1
              (inl (rw free null_eq)) in
          (
            cursor,
            derived,
            elim through [
              | inl api ↦ simp (clean, present, api, handled, emitted)
              | inr mcp ↦ simp (clean, present, mcp, handled, emitted)
            ],
          )
