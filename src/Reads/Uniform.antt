-- ===== src/Reads/Uniform.antt =====
-- What a caller cannot tell from an answer of pmiri/read_projection.py.
use ragsistemi.Prelude.{
  ℕ, String, Bool, true, false, ◌≡◌, refl, ◌∙◌, ap, [], Option, none, some, arith, Result, ok,
  bind-eq-ok,
}
use ragsistemi.Prelude.Dict.{Dict}
use ragsistemi.Host.{Host}
use ragsistemi.Canonical.Serial.{Fields}
use ragsistemi.Models.{QueryRequest, normalized, as_dict, normalized-as_dict}
use ragsistemi.Models.Evidence.{EvidenceSet}
use ragsistemi.Context.{Compiler, compile}
use ragsistemi.Retrieval.{Unicode, search_evidence}
use ragsistemi.Runtime.{LocalRuntime, query, result_of}
use ragsistemi.Disclosure.{empty_projection, project_query_result}
use ragsistemi.Auth.Principal.{Principal}
use ragsistemi.Auth.Adapters.{
  RegistryAdapter, RateLimiterAdapter, PolicyEpochAdapter, ReplayGuardAdapter,
}
use ragsistemi.Auth.Service.{Binding, deny, allow, bind, build_binding}
use ragsistemi.Auth.Service.Bound.{build_binding-bind}
use ragsistemi.Auth.Service.Integrity.{public_lineage}
use ragsistemi.Auth.Service.Calls.{State, evaluate, revalidate}
use ragsistemi.Auth.Service.Calls.Granted.{evaluate-allow}
use ragsistemi.Auth.Service.Calls.Answered.{revalidate-returns}
use ragsistemi.Reads.Projection.{
  ProjectionRequest, query_request, from_mapping, server_binding, disclosed, handle_disclosed,
  handle_authenticated,
}

module _ (host : Host) where
  -- the empty projection knows the request and the bound alone
  empty_projection-result_of :
      (c : Compiler) (r : QueryRequest) (e e' : EvidenceSet)
      → empty_projection host (result_of c r e) ≡ empty_projection host (result_of c r e')
  unfolding empty_projection result_of compile
  empty_projection-result_of c r e e' = refl

  denied_shows :
      (c c' : Compiler) (r : QueryRequest) (e e' : EvidenceSet)
      → c ≡ c'
      → project_query_result host (result_of c r e) false
        ≡ empty_projection host (result_of c' r e')
  unfolding project_query_result
  denied_shows c c' r e e' same = rw same (empty_projection-result_of c' r e e')

  nothing_found :
      (c : Compiler) (r : QueryRequest) (e : EvidenceSet) (shown : Bool)
      → e.items ≡ []
      → project_query_result host (result_of c r e) shown ≡ empty_projection host (result_of c r e)
  unfolding project_query_result result_of
  nothing_found c r e shown none_ = ground arith

  lineage-bind :
      (operation : String) (r : QueryRequest) (p : Principal)
      (subject_fp purpose_fp issued_at : String)
      → normalized r ≡ ok (as_dict r)
      → server_binding host r
        ≡ ok (
            public_lineage host
              (bind host (as_dict r) operation r p subject_fp purpose_fp issued_at))
  unfolding server_binding public_lineage bind
  lineage-bind operation r p subject_fp purpose_fp issued_at n = rw n refl

  -- The lineage that an allowed request shows is the one that the server derives for any request.
  pub server_binding-build_binding :
      (operation : String) (r : QueryRequest) (p : Principal) (issued_at : String) (b : Binding)
      → build_binding host operation r p issued_at ≡ ok b
      → server_binding host r ≡ ok (public_lineage host b)
  unfolding build_binding
  server_binding-build_binding operation r p issued_at b h =
      let (subject_fp, purpose_fp, e) = build_binding-bind host operation r p issued_at b h in
      let (j, made, h1) = bind-eq-ok (normalized r) _ h in
      rw e (
        lineage-bind operation r p subject_fp purpose_fp issued_at
          (made ∙ ap ok (normalized-as_dict r j made)))

  module _ (unicode : Unicode) where
    query_of :
        (runtime : LocalRuntime) (r : QueryRequest) (e : EvidenceSet)
        → search_evidence host unicode runtime.list_sources r ≡ ok e
        → query host unicode runtime r ≡ ok (result_of runtime.compiler r e)
    unfolding query
    query_of runtime r e h = rw h refl

    disclosed_empty :
        (runtime runtime' : LocalRuntime) (r : QueryRequest) (e e' : EvidenceSet) (b : Dict String)
        (x : Bool) (recheck : QueryRequest → Result Bool)
        → runtime.compiler ≡ runtime'.compiler
        → search_evidence host unicode runtime.list_sources r ≡ ok e
        → search_evidence host unicode runtime'.list_sources r ≡ ok e'
        → e'.items ≡ []
        → server_binding host r ≡ ok b
        → recheck r ≡ ok x
        → disclosed host unicode runtime r false none none
          ≡ disclosed host unicode runtime' r true (some b) (some recheck)
    unfolding disclosed
    disclosed_empty runtime runtime' r e e' b x recheck same found found' none_ derived checked =
        simp (
          derived,
          checked,
          query_of runtime r e found,
          query_of runtime' r e' found',
          nothing_found runtime'.compiler r e' x none_,
          denied_shows runtime.compiler runtime'.compiler r e e' same,
        )

    module _ (registry : RegistryAdapter) (limiter : RateLimiterAdapter)
        (epochs : PolicyEpochAdapter) (guard : ReplayGuardAdapter host) where
      -- A denied request is answered exactly as one that is allowed and finds nothing, whatever the
      -- two runtimes hold otherwise, whoever asks, and when: over the same context bound, where both
      -- searches return, the second with no item, the two answers are the same value.
      pub handle_authenticated-denied :
          (runtime runtime' : LocalRuntime) (raw : Fields) (p : ProjectionRequest)
          (e e' : EvidenceSet) (b : Binding) (reason : String) (ref ref' now now' : Option String)
          (wall later wall' later' : String) (clock clock' : ℕ)
          (s s' t t' : State host registry limiter epochs guard)
          → from_mapping raw ≡ ok p
          → runtime.compiler ≡ runtime'.compiler
          → search_evidence host unicode runtime.list_sources (query_request p) ≡ ok e
          → search_evidence host unicode runtime'.list_sources (query_request p) ≡ ok e'
          → e'.items ≡ []
          → evaluate host registry limiter epochs guard (query_request p) ref now wall clock s
            ≡ (ok (deny reason), t)
          → evaluate host registry limiter epochs guard (query_request p) ref' now' wall' clock' s'
            ≡ (ok (allow b), t')
          → (handle_authenticated host unicode registry limiter epochs guard runtime raw ref now
              wall later clock s).0
            ≡ (handle_authenticated host unicode registry limiter epochs guard runtime' raw ref'
                now' wall' later' clock' s').0
      unfolding handle_authenticated handle_disclosed
      handle_authenticated-denied runtime runtime' raw p e e' b reason ref ref' now now' wall later
            wall' later' clock clock' s s' t t' parsed same found found' none_ denied allowed =
          let r = query_request p in
          let (who, epoch, granted, after_) =
            evaluate-allow host registry limiter epochs guard r ref' now' wall' clock' s' t' b
              allowed in
          let (x, checked) =
            revalidate-returns host registry limiter epochs guard r b now' later' t' in
          let derived = server_binding-build_binding s'.operation r who _ b granted.bound in
          simp (parsed, denied, allowed)
            (disclosed_empty runtime runtime' r e e' (public_lineage host b) x
              (λ r'. revalidate host registry limiter epochs guard r' b now' later' t') same found
              found' none_ derived checked)
