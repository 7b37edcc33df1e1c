-- ===== src/Reads/Operations.antt =====
-- pmiri/read_operations.py: the seven operations, and the fence of a response.
use ragsistemi.Prelude.{
  ℕ, String, Bool, true, false, not, ◌&&◌, List, [], ◌∷◌, Option, none, some, if◌then◌else◌, ◌==◌,
  string_eq, contains, concat, Result, ok, err, external_read_emission_error, value_error,
  type_error, ◌>>=◌, ◌>>◌, raise_if,
}
use ragsistemi.Host.{Host}
use ragsistemi.Canonical.{sha256_json}
use ragsistemi.Canonical.Serial.{
  Json, null, bool, num, str, arr, obj, Items, nil, cons, Fields, field, object, dict,
}
use ragsistemi.Canonical.Equality.{json_eq}
use ragsistemi.Decisions.{get, names, without}
use ragsistemi.Retrieval.{Unicode}
use ragsistemi.Runtime.{LocalRuntime}
use ragsistemi.Disclosure.{disclosure_fingerprint}
use ragsistemi.Auth.Adapters.{
  RegistryAdapter, RateLimiterAdapter, PolicyEpochAdapter, ReplayGuardAdapter,
}
use ragsistemi.Auth.Service.Calls.{State}
use ragsistemi.Reads.Projection.{
  fields_of, put, merged, handle, handle_disclosed, handle_authenticated,
}

abbrev pub read_operations : List String
read_operations =
    "search" ∷ "fetch_evidence" ∷ "resolve_current_state" ∷ "retrieve_history" ∷ "timeline"
    ∷ "explain" ∷ "status" ∷ []

-- `ExternalReadEmissionFence`
pub record EmissionFence : Type 0 where
  pub operation : String
  pub projection_fingerprint : String
  pub typed_result_fingerprint : String
  pub status : String

-- `raise ExternalReadEmissionError(message)` where the test holds
abbrev pub refuse_if : Bool → String → Result (Unit {0})
refuse_if test message = raise_if test (external_read_emission_error message)

-- `isinstance(value, Mapping)`
abbrev pub is_object : Json → Bool
is_object (obj fields) = true
is_object v = false

-- the characters of a text, and the keys of an object, as `list` makes them
chars : String → Items
chars String.[] = nil
chars (String.◌∷◌ c s) = cons (str (String.◌∷◌ c String.[])) (chars s)

keys_of : Fields → Items
keys_of Fields.end = nil
keys_of (field k v rest) = cons (str k) (keys_of rest)

-- `list(value)`
unfoldable pub list_of : Json → Result Json
unfolding chars keys_of
list_of (arr items) = ok (arr items)
list_of (str s) = ok (arr (chars s))
list_of (obj d) = ok (arr (keys_of d))
list_of null = err (type_error "'NoneType' object is not iterable")
list_of (bool b) = err (type_error "'bool' object is not iterable")
list_of (num i) = err (type_error "'int' object is not iterable")

-- `list(lineage.get("evidence_refs", []))`
unfoldable pub evidence_list : Fields → Result Json
unfolding list_of names
evidence_list lineage =
    if contains (names lineage) "evidence_refs"
    then list_of (get "evidence_refs" lineage)
    else ok (arr nil)

-- the list where `list` made one
unfoldable pub listed_or_null : Result Json → Json
listed_or_null (ok v) = v
listed_or_null (err e) = null

-- `ExternalReadEmissionFence.structured`
unfoldable pub fence_entry : EmissionFence → Json
fence_entry f = object (
    ("record_type", str "PMIRI_EXTERNAL_READ_EMISSION_FENCE")
    ∷ ("schema_version", str "0.1")
    ∷ ("operation", str f.operation)
    ∷ ("projection_fingerprint", str f.projection_fingerprint)
    ∷ ("typed_result_fingerprint", str f.typed_result_fingerprint)
    ∷ ("status", str f.status)
    ∷ [])

-- `_strip_transport_operation`
unfoldable pub strip_transport_operation : String → Fields → Result Fields
strip_transport_operation operation raw = do
  refuse_if (not (contains read_operations operation)) "read_operation_unknown"
  refuse_if
      (not (json_eq (get "operation" raw) null)
        && not (json_eq (get "operation" raw) (str operation)))
      "read_operation_substitution"
  ok (without "operation" raw)

module _ (host : Host) where
  -- `ExternalReadEmissionFence.create`
  unfoldable pub create : String → Fields → Fields → Result EmissionFence
  create operation projection typed_result = do
    refuse_if (not (contains read_operations operation)) "read_operation_unknown"
    ok (record {
      operation = operation;
      projection_fingerprint = disclosure_fingerprint host projection;
      typed_result_fingerprint = sha256_json host (obj typed_result);
      status = "EMIT_VALID";
    })

  -- the last five tests, on the typed result against the result and the lineage of the projection
  unfoldable pub check_authority : EmissionFence → Fields → Fields → Fields → Result (Unit {0})
  check_authority f typed_result result lineage = do
    refuse_if
        (not (json_eq (get "projection_fingerprint" typed_result) (str f.projection_fingerprint)))
        "read_typed_result_projection_binding_mismatch"
    refuse_if (not (json_eq (get "disposition" typed_result) (get "disposition" result)))
        "read_typed_result_not_authoritative"
    refuse_if (not (json_eq (get "coverage" typed_result) (get "coverage" result)))
        "read_typed_result_coverage_mismatch"
    refuse_if
        (not (json_eq (get "authorization_ref" typed_result) (get "authorization_ref" lineage)))
        "read_typed_result_authorization_mismatch"
    refs ← evidence_list lineage
    refuse_if (not (json_eq (get "evidence_refs" typed_result) refs))
        "read_typed_result_evidence_mismatch"

  unfoldable pub check_shape : EmissionFence → Fields → Json → Json → Result (Unit {0})
  unfolding check_authority
  check_shape f typed_result (obj result) (obj lineage) =
      check_authority f typed_result result lineage
  check_shape f typed_result result lineage =
      err (external_read_emission_error "read_projection_authority_shape_invalid")

  unfoldable pub check_bound : EmissionFence → Json → Json → Result (Unit {0})
  unfolding check_shape
  check_bound f (obj projection) (obj typed_result) = do
    refuse_if (not (disclosure_fingerprint host projection == f.projection_fingerprint))
        "read_projection_fingerprint_mismatch"
    refuse_if (not (sha256_json host (obj typed_result) == f.typed_result_fingerprint))
        "read_typed_result_fingerprint_mismatch"
    refuse_if (not (json_eq (get "operation" typed_result) (str f.operation)))
        "read_typed_result_operation_mismatch"
    check_shape f typed_result (get "result" projection) (get "lineage" projection)
  check_bound f projection typed_result =
      err (external_read_emission_error "read_emission_shape_invalid")

  -- `ExternalReadEmissionFence.assert_valid`
  unfoldable pub assert_valid : EmissionFence → Fields → Result (Unit {0})
  unfolding check_bound
  assert_valid f envelope = do
    refuse_if (not (f.status == "EMIT_VALID")) "read_emission_not_valid"
    refuse_if (not (json_eq (get "operation" envelope) (str f.operation)))
        "read_operation_binding_mismatch"
    check_bound f (get "projection" envelope) (get "typed_result" envelope)

  unfoldable pub cursor_for : String → Fields → String → String
  unfolding concat
  cursor_for operation lineage base = concat (
      "cursor_"
      ∷ sha256_json host (
          object (
            ("operation", str operation)
            ∷ ("request_fingerprint", get "request_fingerprint" lineage)
            ∷ ("base_continuation", str base)
            ∷ []))
      ∷ [])

  cursor_of : String → Json → Json → Result String
  cursor_of operation (obj lineage) (str base) = ok (cursor_for operation lineage base)
  cursor_of operation lineage base =
      err (external_read_emission_error "read_continuation_binding_missing")

  -- `_operation_cursor`
  unfoldable pub operation_cursor : String → Fields → Result String
  unfolding cursor_of
  operation_cursor operation projection =
      cursor_of operation (get "lineage" projection) (get "continuation" projection)

  -- the typed result of a projection whose continuation is the operation's
  unfoldable pub typed_result_of : String → Fields → Fields
  typed_result_of operation projection =
      let result = fields_of (get "result" projection) in
      let lineage = fields_of (get "lineage" projection) in
      dict (
        ("record_type", str "PMIRI_EXTERNAL_READ_TYPED_RESULT")
        ∷ ("schema_version", str "0.1")
        ∷ ("operation", str operation)
        ∷ ("disposition", get "disposition" result)
        ∷ ("coverage", get "coverage" result)
        ∷ ("authorization_ref", get "authorization_ref" lineage)
        ∷ ("evidence_refs", listed_or_null (evidence_list lineage))
        ∷ ("projection_fingerprint", str (disclosure_fingerprint host projection))
        ∷ [])

  unfoldable pub envelope_of : String → Fields → Fields → List (String × Json)
  envelope_of operation projection typed_result =
      ("operation", str operation)
      ∷ ("projection", obj projection)
      ∷ ("typed_result", obj typed_result)
      ∷ []

  -- `_execute`, from the projection that the handler has answered on
  unfoldable pub emit : String → Fields → Fields → Result Fields
  unfolding merged
  emit operation payload answered = do
    expected ← operation_cursor operation answered
    refuse_if
        (not (json_eq (get "cursor" payload) null)
          && not (json_eq (get "cursor" payload) (str expected)))
        "read_cursor_binding_mismatch"
    let projection : Fields = put "continuation" (str expected) answered
    refs ← evidence_list (fields_of (get "lineage" projection))
    let typed_result : Fields = typed_result_of operation projection
    let envelope : Fields = dict (envelope_of operation projection typed_result)
    fence ← create operation projection typed_result
    assert_valid fence envelope
    ok (put "emission_fence" (fence_entry fence) envelope)

  module _ (unicode : Unicode) (registry : RegistryAdapter) (limiter : RateLimiterAdapter)
      (epochs : PolicyEpochAdapter) (guard : ReplayGuardAdapter host) where
    -- The projection service: its runtime, and the authorization service where there is one.
    pub record ReadService : Type 0 where
      pub runtime : LocalRuntime
      pub authorization : Option (State host registry limiter epochs guard)

    abbrev Authorization : Type 0
    Authorization = Option (State host registry limiter epochs guard)

    -- `ReadProjectionService.api`
    unfoldable pub api : LocalRuntime → Authorization → Fields → Result Fields
    api runtime none raw = handle host unicode runtime raw
    api runtime (some s) raw = err (value_error "authenticated_adapter_required")

    -- `ReadProjectionService.mcp`
    unfoldable pub mcp : LocalRuntime → Authorization → Fields → Result Fields
    mcp runtime none raw = handle host unicode runtime raw
    mcp runtime (some s) raw = err (value_error "authenticated_adapter_required")

    -- `ReadProjectionService.api_disclosed`
    unfoldable pub api_disclosed : LocalRuntime → Authorization → Fields → Bool → Result Fields
    api_disclosed runtime none raw authorized =
        handle_disclosed host unicode runtime raw authorized none none
    api_disclosed runtime (some s) raw authorized =
        err (value_error "caller_authorization_flag_not_authority")

    -- `ReadProjectionService.mcp_disclosed`
    unfoldable pub mcp_disclosed : LocalRuntime → Authorization → Fields → Bool → Result Fields
    mcp_disclosed runtime none raw authorized =
        handle_disclosed host unicode runtime raw authorized none none
    mcp_disclosed runtime (some s) raw authorized =
        err (value_error "caller_authorization_flag_not_authority")

    -- `ReadProjectionService.api_authenticated`
    unfoldable pub api_authenticated :
        LocalRuntime
        → Fields
        → (authentication_ref now : Option String) (wall later : String) (clock : ℕ) → Authorization
        → Result Fields × Authorization
    api_authenticated runtime raw ref now wall later clock none =
        (err (value_error "authorization_service_required"), none)
    api_authenticated runtime raw ref now wall later clock (some s) =
        let (answered, s') =
          handle_authenticated host unicode registry limiter epochs guard runtime raw ref now wall
            later clock s in
        (answered, some s')

    -- `ReadProjectionService.mcp_authenticated`
    unfoldable pub mcp_authenticated :
        LocalRuntime
        → Fields
        → (authentication_ref now : Option String) (wall later : String) (clock : ℕ) → Authorization
        → Result Fields × Authorization
    mcp_authenticated runtime raw ref now wall later clock none =
        (err (value_error "authorization_service_required"), none)
    mcp_authenticated runtime raw ref now wall later clock (some s) =
        let (answered, s') =
          handle_authenticated host unicode registry limiter epochs guard runtime raw ref now wall
            later clock s in
        (answered, some s')

    -- `projection.api(payload) if authorized is None else projection.api_disclosed(...)`
    open_api : LocalRuntime → Fields → Option Bool → Result Fields
    unfolding api api_disclosed
    open_api runtime raw none = api runtime none raw
    open_api runtime raw (some authorized) = api_disclosed runtime none raw authorized

    open_mcp : LocalRuntime → Fields → Option Bool → Result Fields
    unfolding mcp mcp_disclosed
    open_mcp runtime raw none = mcp runtime none raw
    open_mcp runtime raw (some authorized) = mcp_disclosed runtime none raw authorized

    -- the answer, and the service that it leaves
    kept : ReadService → Result Fields × Authorization → Result Fields × ReadService
    kept v (answered, a) = (answered, record v { authorization = a })

    -- the branches over the authorization service, the flag, the reference and the adapter
    unfoldable pub project :
        ReadService
        → Fields
        → (adapter : String) (authorized : Option Bool) (authentication_ref now : Option String)
          (wall later : String) (clock : ℕ)
        → Authorization
        → Result Fields × ReadService
    unfolding open_api open_mcp kept api_authenticated mcp_authenticated
    project v raw adapter (some flag) ref now wall later clock (some s) =
        (err (external_read_emission_error "caller_authorization_flag_not_authority"), v)
    project v raw adapter none ref now wall later clock (some s) =
        if adapter == "api"
        then kept v (api_authenticated v.runtime raw ref now wall later clock (some s))
        else if adapter == "mcp"
        then kept v (mcp_authenticated v.runtime raw ref now wall later clock (some s))
        else (err (external_read_emission_error "read_adapter_unknown"), v)
    project v raw adapter authorized (some ref) now wall later clock none =
        (err (external_read_emission_error "authorization_service_required"), v)
    project v raw adapter authorized none now wall later clock none =
        if adapter == "api"
        then (open_api v.runtime raw authorized, v)
        else if adapter == "mcp"
        then (open_mcp v.runtime raw authorized, v)
        else (err (external_read_emission_error "read_adapter_unknown"), v)

    emitted : String → Fields → Result Fields × ReadService → Result Fields × ReadService
    unfolding emit
    emitted operation payload (err e, v) = (err e, v)
    emitted operation payload (ok answered, v) = (emit operation payload answered, v)

    unfoldable pub stripped :
        ReadService
        → (operation : String) (adapter : String) (authorized : Option Bool)
          (authentication_ref now : Option String) (wall later : String) (clock : ℕ)
        → Result Fields
        → Result Fields × ReadService
    unfolding project emitted
    stripped v operation adapter authorized ref now wall later clock (err e) = (err e, v)
    stripped v operation adapter authorized ref now wall later clock (ok payload) =
        emitted operation payload
          (project v payload adapter authorized ref now wall later clock v.authorization)

    -- `_execute`
    unfoldable pub execute :
        ReadService
        → (operation : String) → Fields
        → (adapter : String) (authorized : Option Bool) (authentication_ref now : Option String)
          (wall later : String) (clock : ℕ)
        → Result Fields × ReadService
    unfolding stripped
    execute v operation raw adapter authorized ref now wall later clock =
        stripped v operation adapter authorized ref now wall later clock
          (strip_transport_operation operation raw)
