-- ===== src/Reads/Projection.antt =====
-- `ProjectionRequest` and `ReadProjectionService` of pmiri/read_projection.py.
use Prim.Native.String
use ragsistemi.Prelude.{
  ℕ, zero, suc, String, Bool, true, false, not, ◌||◌, List, [], ◌∷◌, Option, none, some,
  if◌then◌else◌, ◌==◌, string_eq, nat_eq, contains, concat, take_chars, Result, ok, err,
  value_error, ◌>>=◌, ◌>>◌, raise_if,
}
use ragsistemi.Prelude.Dict.{Dict}
use ragsistemi.Prelude.Int.{ℤ, pos}
use ragsistemi.Host.{Host}
use ragsistemi.Canonical.{sha256_json, is_sha256}
use ragsistemi.Canonical.Serial.{Json, null, num, str, obj, Fields, field, object, dict}
use ragsistemi.Decisions.{get, names, missing, is_empty}
use ragsistemi.Models.{QueryRequest, normalized}
use ragsistemi.Models.Artifact.{structured}
use ragsistemi.Retrieval.{Unicode}
use ragsistemi.Runtime.{LocalRuntime, query}
use ragsistemi.Disclosure.{project_query_result}
use ragsistemi.Auth.Adapters.{
  RegistryAdapter, RateLimiterAdapter, PolicyEpochAdapter, ReplayGuardAdapter,
}
use ragsistemi.Auth.Service.{Evaluation, deny, allow}
use ragsistemi.Auth.Service.Integrity.{public_lineage}
use ragsistemi.Auth.Service.Calls.{State, evaluate, revalidate}

pub record ProjectionRequest : Type 0 where
  pub request_id : String
  pub project_constraint : String
  pub query : String
  pub purpose : String
  pub max_results : ℤ
  pub client_authorization_ref : Option String
  pub client_cursor : Option String

-- `ProjectionRequest.query_request`
unfoldable pub query_request : ProjectionRequest → QueryRequest
query_request p = record {
  request_id = p.request_id;
  project_constraint = p.project_constraint;
  query = p.query;
  purpose = p.purpose;
  max_results = p.max_results;
}

-- `raw.get(name, default)`
get_or : Json → String → Fields → Json
unfolding names
get_or default name raw = if contains (names raw) name then get name raw else default

text_value : Json → Result String
text_value (str s) = ok s
text_value v = err (value_error "projection_request_types_invalid")

optional_text : String → Json → Result (Option String)
optional_text message null = ok none
optional_text message (str s) = ok (some s)
optional_text message v = err (value_error message)

int_value : Json → Result ℤ
int_value (num i) = ok i
int_value v = err (value_error "projection_max_results_invalid")

-- `s[n:]`
drop_chars : ℕ → String → String
drop_chars zero s = s
drop_chars (suc n) String.[] = String.[]
drop_chars (suc n) (String.◌∷◌ c s) = drop_chars n s

-- whether a cursor is malformed
bad_cursor : Option String → Bool
unfolding take_chars drop_chars nat_eq
bad_cursor none = false
bad_cursor (some c) =
    not (String.count c == 71)
    || not (take_chars 7 c == "cursor_")
    || not (is_sha256 (drop_chars 7 c))

abbrev allowed_fields : List String
allowed_fields =
    "request_id" ∷ "project_constraint" ∷ "query" ∷ "purpose" ∷ "max_results" ∷ "authorization_ref"
    ∷ "cursor" ∷ []

-- `ProjectionRequest.from_mapping`
unfoldable pub from_mapping : Fields → Result ProjectionRequest
unfolding get_or text_value optional_text int_value bad_cursor
from_mapping raw = do
  raise_if (not (is_empty (missing (names raw) allowed_fields)))
      (value_error "projection_request_field_not_allowed")
  request_id ← text_value (get "request_id" raw)
  project_constraint ← text_value (get "project_constraint" raw)
  query_text ← text_value (get "query" raw)
  purpose ← text_value (get_or (str "local_read") "purpose" raw)
  client_ref ← optional_text "projection_authorization_ref_invalid" (get "authorization_ref" raw)
  cursor ← optional_text "projection_cursor_invalid" (get "cursor" raw)
  max_results ← int_value (get_or (num (pos 20)) "max_results" raw)
  let request : ProjectionRequest = record {
    request_id = request_id;
    project_constraint = project_constraint;
    query = query_text;
    purpose = purpose;
    max_results = max_results;
    client_authorization_ref = client_ref;
    client_cursor = cursor;
  }
  fields ← normalized (query_request request)
  raise_if (bad_cursor cursor) (value_error "projection_cursor_invalid")
  ok request

-- `d[key] = value`
unfoldable pub put : String → Json → Fields → Fields
put key value Fields.end = field key value Fields.end
put key value (field k v rest) =
    let later = put key value rest in if k == key then field k value rest else field k v later

-- `{**d, **e}`
unfoldable pub merged : Fields → Fields → Fields
unfolding put
merged d Fields.end = d
merged d (field k v rest) = merged (put k v d) rest

-- a dictionary of texts
unfoldable pub text_fields : Dict String → Fields
text_fields [] = Fields.end
text_fields ((k, v) ∷ rest) = field k (str v) (text_fields rest)

-- the entries of an object
unfoldable pub fields_of : Json → Fields
fields_of (obj fields) = fields
fields_of v = Fields.end

module _ (host : Host) where
  -- `_server_binding`
  unfoldable pub server_binding : QueryRequest → Result (Dict String)
  unfolding concat take_chars
  server_binding r = do
    request ← normalized r
    let request_fingerprint : String = sha256_json host request
    let digest : String = sha256_json host (
        object (
          ("request_fingerprint", str request_fingerprint)
          ∷ ("scope", str "server-derived-local-read")
          ∷ []))
    ok (
        ("authorization_ref", concat ("auth_" ∷ take_chars 32 digest ∷ []))
        ∷ ("request_fingerprint", request_fingerprint)
        ∷ ("scope", r.project_constraint)
        ∷ [])

  unfoldable pub continuation : Fields → Fields → String
  unfolding concat
  continuation binding result = concat (
      "cursor_"
      ∷ sha256_json host (
          object (
            ("binding", obj binding)
            ∷ ("evidence", get "evidence_refs" (fields_of (get "lineage" result)))
            ∷ []))
      ∷ [])

  -- the lineage and the continuation that are put on a projection
  unfoldable pub bound_to : Dict String → Fields → Fields
  unfolding continuation
  bound_to entries result =
      let binding = text_fields entries in
      put "continuation" (str (continuation binding result))
        (put "lineage" (obj (merged (fields_of (get "lineage" result)) binding)) result)

  unfoldable pub binding_or : Option (Dict String) → QueryRequest → Result (Dict String)
  binding_or none r = server_binding r
  binding_or (some binding) r = ok binding

  -- `authorized and revalidate is not None and not revalidate(request)`
  unfoldable pub still_authorized :
      Bool → Option (QueryRequest → Result Bool) → QueryRequest → Result Bool
  still_authorized true (some revalidate_) r = revalidate_ r
  still_authorized authorized other r = ok authorized

  module _ (unicode : Unicode) where
    -- `_handle`
    unfoldable pub handle : LocalRuntime → Fields → Result Fields
    unfolding continuation
    handle runtime raw = do
      projection ← from_mapping raw
      let request = query_request projection
      entries ← server_binding request
      let binding = text_fields entries
      answer ← query host unicode runtime request
      result ← structured host answer
      ok (
          dict (
            ("projection_version", str "0.1")
            ∷ ("request", get "request" result)
            ∷ ("result", get "result" result)
            ∷ ("evidence", get "evidence" result)
            ∷ ("lineage", obj (merged (fields_of (get "lineage" result)) binding))
            ∷ ("context", get "context" result)
            ∷ ("continuation", str (continuation binding result))
            ∷ []))

    -- `_handle_disclosed`, from the request on
    unfoldable pub disclosed :
        LocalRuntime
        → QueryRequest
        → Bool
        → Option (Dict String)
        → Option (QueryRequest → Result Bool)
        → Result Fields
    unfolding bound_to binding_or still_authorized
    disclosed runtime request authorized given revalidate_ = do
      binding ← binding_or given request
      answer ← query host unicode runtime request
      shown ← still_authorized authorized revalidate_ request
      result ← project_query_result host answer shown
      ok (bound_to binding result)

    -- `_handle_disclosed`
    unfoldable pub handle_disclosed :
        LocalRuntime
        → Fields
        → Bool
        → Option (Dict String)
        → Option (QueryRequest → Result Bool)
        → Result Fields
    handle_disclosed runtime raw authorized given revalidate_ = do
      projection ← from_mapping raw
      disclosed runtime (query_request projection) authorized given revalidate_

    module _ (registry : RegistryAdapter) (limiter : RateLimiterAdapter)
        (epochs : PolicyEpochAdapter) (guard : ReplayGuardAdapter host) where
      -- the call of `_handle_disclosed` after an evaluation; `later` is what `utc_now()` gives there
      unfoldable pub answer_to :
          LocalRuntime
          → Fields
          → (now : Option String) (later : String) → Result Evaluation
          → State host registry limiter epochs guard
          → Result Fields
      answer_to runtime raw now later (err e) s = err e
      answer_to runtime raw now later (ok (deny reason)) s =
          handle_disclosed runtime raw false none none
      answer_to runtime raw now later (ok (allow b)) s =
          handle_disclosed runtime raw true (some (public_lineage host b))
            (some (λ r. revalidate host registry limiter epochs guard r b now later s))

      unfoldable pub evaluated :
          LocalRuntime
          → Fields
          → (authentication_ref now : Option String) (wall later : String) (clock : ℕ)
          → Result ProjectionRequest
          → State host registry limiter epochs guard
          → Result Fields × State host registry limiter epochs guard
      unfolding answer_to
      evaluated runtime raw ref now wall later clock (err e) s = (err e, s)
      evaluated runtime raw ref now wall later clock (ok projection) s =
          let (evaluation, s') =
            evaluate host registry limiter epochs guard (query_request projection) ref now wall
              clock s in
          (answer_to runtime raw now later evaluation s', s')

      -- `_handle_authenticated`, behind `api_authenticated` and `mcp_authenticated`
      unfoldable pub handle_authenticated :
          LocalRuntime
          → Fields
          → (authentication_ref now : Option String) (wall later : String) (clock : ℕ)
          → State host registry limiter epochs guard
          → Result Fields × State host registry limiter epochs guard
      unfolding evaluated
      handle_authenticated runtime raw ref now wall later clock s =
          evaluated runtime raw ref now wall later clock (from_mapping raw) s
