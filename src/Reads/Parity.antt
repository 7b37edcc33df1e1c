-- ===== src/Reads/Parity.antt =====
-- The two adapters of pmiri/read_operations.py, and the comparison of their answers:
-- `semantic_projection` and `parity_fingerprint` of pmiri/read_projection.py, and
-- `operation_parity_fingerprint`.
use ragsistemi.Prelude.{
  ℕ, String, Bool, ◌≡◌, refl, [], ◌∷◌, Option, none, some, ◌==◌, string_eq, contains, Result, ok,
  err, key_error, external_read_emission_error, ◌>>=◌, if◌then◌else◌,
}
use ragsistemi.Host.{Host}
use ragsistemi.Canonical.{sha256_json}
use ragsistemi.Canonical.Serial.{Json, obj, Fields, object}
use ragsistemi.Decisions.{get, names}
use ragsistemi.Retrieval.{Unicode}
use ragsistemi.Auth.Adapters.{
  RegistryAdapter, RateLimiterAdapter, PolicyEpochAdapter, ReplayGuardAdapter,
}
use ragsistemi.Auth.Service.Calls.{State}
use ragsistemi.Reads.Operations.{ReadService, project, stripped, execute, strip_transport_operation}

-- `d[name]`
unfoldable pub item_at : String → Fields → Result Json
unfolding names
item_at name d = if contains (names d) name then ok (get name d) else err (key_error name)

-- `d.get(name, default)`
unfoldable pub get_else : String → Json → Fields → Json
unfolding names
get_else name default d = if contains (names d) name then get name d else default

-- `semantic_projection`
unfoldable pub semantic_projection : Fields → Result Json
unfolding item_at get_else
semantic_projection response = do
  request ← item_at "request" response
  result ← item_at "result" response
  evidence ← item_at "evidence" response
  lineage ← item_at "lineage" response
  context ← item_at "context" response
  continuation ← item_at "continuation" response
  ok (
      object (
        (
          "projection_version",
          get_else "projection_version" (get "disclosure_version" response) response,
        )
        ∷ ("request", request)
        ∷ ("result", result)
        ∷ ("evidence", evidence)
        ∷ ("lineage", lineage)
        ∷ ("context", context)
        ∷ ("continuation", continuation)
        ∷ []))

module _ (host : Host) where
  compared : Json → Json → Bool × String × String
  compared a b = (sha256_json host a == sha256_json host b, sha256_json host a, sha256_json host b)

  -- `parity_fingerprint`
  unfoldable pub parity_fingerprint : Fields → Fields → Result (Bool × String × String)
  unfolding compared
  parity_fingerprint api_response mcp_response = do
    api ← semantic_projection api_response
    mcp ← semantic_projection mcp_response
    ok (compared api mcp)

  -- the value of one response that is compared
  operation_value : Fields → Fields → Result Json
  operation_value response projection = do
    semantic ← semantic_projection projection
    ok (
        object (
          ("operation", get "operation" response)
          ∷ ("projection", semantic)
          ∷ ("typed_result", get "typed_result" response)
          ∷ []))

  of_projections : Fields → Fields → Json → Json → Result (Bool × String × String)
  unfolding operation_value compared
  of_projections api_response mcp_response (obj api_projection) (obj mcp_projection) = do
    api ← operation_value api_response api_projection
    mcp ← operation_value mcp_response mcp_projection
    ok (compared api mcp)
  of_projections api_response mcp_response a b =
      err (external_read_emission_error "read_projection_missing")

  -- `operation_parity_fingerprint`
  unfoldable pub operation_parity_fingerprint : Fields → Fields → Result (Bool × String × String)
  unfolding of_projections
  operation_parity_fingerprint api_response mcp_response =
      of_projections api_response mcp_response (get "projection" api_response)
        (get "projection" mcp_response)

  module _ (unicode : Unicode) (registry : RegistryAdapter) (limiter : RateLimiterAdapter)
      (epochs : PolicyEpochAdapter) (guard : ReplayGuardAdapter host) where
    project_parity :
        (v : ReadService host unicode registry limiter epochs guard) (payload : Fields)
        (authorized : Option Bool) (ref now : Option String) (wall later : String) (clock : ℕ)
        (a : Option (State host registry limiter epochs guard))
        → project host unicode registry limiter epochs guard v payload "api" authorized ref now wall
            later clock a
          ≡ project host unicode registry limiter epochs guard v payload "mcp" authorized ref now
              wall later clock a
    unfolding project string_eq
    project_parity v payload (some flag) ref now wall later clock (some s) = refl
    project_parity v payload none ref now wall later clock (some s) = refl
    project_parity v payload authorized (some ref) now wall later clock none = refl
    project_parity v payload none none now wall later clock none = refl
    project_parity v payload (some flag) none now wall later clock none = refl

    stripped_parity :
        (v : ReadService host unicode registry limiter epochs guard) (operation : String)
        (authorized : Option Bool) (ref now : Option String) (wall later : String) (clock : ℕ)
        (payload : Result Fields)
        → stripped host unicode registry limiter epochs guard v operation "api" authorized ref now
            wall later clock payload
          ≡ stripped host unicode registry limiter epochs guard v operation "mcp" authorized ref now
              wall later clock payload
    unfolding stripped
    stripped_parity v operation authorized ref now wall later clock (err e) = refl
    stripped_parity v operation authorized ref now wall later clock (ok payload) =
        rw (project_parity v payload authorized ref now wall later clock v.authorization) refl

    -- The methods of the API adapter and of the MCP adapter, which are written apart, agree: for
    -- every operation and request, with or without an authorization service, the two adapters give
    -- the same response or the same exception, and leave the service in the same state.
    pub execute-parity :
        (v : ReadService host unicode registry limiter epochs guard) (operation : String)
        (raw : Fields) (authorized : Option Bool) (ref now : Option String) (wall later : String)
        (clock : ℕ)
        → execute host unicode registry limiter epochs guard v operation raw "api" authorized ref
            now wall later clock
          ≡ execute host unicode registry limiter epochs guard v operation raw "mcp" authorized ref
              now wall later clock
    unfolding execute
    execute-parity v operation raw authorized ref now wall later clock =
        stripped_parity v operation authorized ref now wall later clock
          (strip_transport_operation operation raw)
