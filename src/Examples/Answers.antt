-- ===== src/Examples/Answers.antt =====
-- An authenticated read, over the service of the inputs and two stores.
use ragsistemi.Disclosure.{disclosure_fingerprint, project_query_result}
use ragsistemi.Canonical.Equality.{json_eq}
use ragsistemi.Canonical.{sha256_json}
use ragsistemi.Decisions.{get, missing, names, without}
use ragsistemi.Prelude.{
  String, true, false, ◌≡◌, refl, ap, [], ◌∷◌, none, some, ok, err, Result, inr, string_eq,
  contains, ◌↔◌, is_blank,
}
use ragsistemi.Prelude.Int.{pos}
use ragsistemi.Canonical.Serial.{null, str, num, Fields, dict, object, string_list}
use ragsistemi.Models.Evidence.{EvidenceSet, unknown}
use ragsistemi.Models.{normalized}
use ragsistemi.Retrieval.{search_evidence, group_names}
use ragsistemi.Runtime.{LocalRuntime, query, result_of}
use ragsistemi.Auth.InMemory
use ragsistemi.ControlPlane.Epoch
use ragsistemi.Auth.Service.Calls.Inputs.{
  State, service, request, binding, used, evaluated, unknown_denied,
}
use ragsistemi.Reads.Projection.{
  ProjectionRequest, from_mapping, query_request, handle_disclosed, handle_authenticated, fields_of,
  disclosed, server_binding,
}
use ragsistemi.Reads.Uniform.{handle_authenticated-denied}
use ragsistemi.Reads.Operations.{
  read_operations, EmissionFence, operation_cursor, assert_valid, emit, envelope_of,
  typed_result_of, ReadService, execute, strip_transport_operation, evidence_list, list_of,
  listed_or_null, cursor_for,
}
use ragsistemi.Reads.Emitted.{HasShape, Fits, response_to, emit_iff}
use ragsistemi.Reads.Fenced.{IsFenced, assert_valid-IsFenced}
use ragsistemi.Reads.Answered.{execute-returns}
use ragsistemi.Reads.Parity.{execute-parity}
use ragsistemi.Examples.Hosts.{host}
use ragsistemi.Examples.Reads.{letters, list_sources, found, searched}

abbrev raw : Fields
raw = dict (
    ("request_id", str "r1")
    ∷ ("project_constraint", str "p1")
    ∷ ("query", str "what")
    ∷ ("max_results", num (pos 5))
    ∷ [])

abbrev projection : ProjectionRequest
projection = record {
  request_id = "r1";
  project_constraint = "p1";
  query = "what";
  purpose = "local_read";
  max_results = pos 5;
  client_authorization_ref = none;
  client_cursor = none;
}

parsed : from_mapping raw ≡ ok projection
unfolding from_mapping string_eq missing dict get normalized query_request is_blank
parsed = refl

abbrev full : LocalRuntime
full = record { list_sources = list_sources; compiler = record { max_chars = 4000 } }

abbrev empty : LocalRuntime
empty = record { list_sources = λ p. ok []; compiler = record { max_chars = 4000 } }

abbrev nothing : EvidenceSet
nothing = record {
  request = request;
  items = [];
  coverage = unknown;
  authorization_lineage = "auth_digest";
  conflict_groups = [];
}

searched_nothing : search_evidence host letters empty.list_sources request ≡ ok nothing
unfolding search_evidence string_eq normalized is_blank sha256_json group_names
searched_nothing = refl

-- denied over the store with two matches, as allowed over the empty one
handle_authenticated-denied_example :
    (handle_authenticated host letters InMemory.registry InMemory.limiter Epoch.epochs
      (InMemory.guard host)
      full
      raw
      none
      (some "2026-01-01T00:00:05Z")
      ""
      ""
      7000000
      service).0
    ≡ (handle_authenticated host letters InMemory.registry InMemory.limiter Epoch.epochs
        (InMemory.guard host)
        empty
        raw
        (some "auth/a")
        (some "2026-01-01T00:00:05Z")
        ""
        ""
        7000000
        service).0
unfolding query_request
handle_authenticated-denied_example =
    handle_authenticated-denied host letters InMemory.registry InMemory.limiter Epoch.epochs
      (InMemory.guard host) full empty raw projection found nothing binding "AUTHENTICATION_UNKNOWN"
      none (some "auth/a") (some "2026-01-01T00:00:05Z") (some "2026-01-01T00:00:05Z") "" "" "" ""
      7000000 7000000 service service service used parsed refl searched searched_nothing refl
      unknown_denied evaluated

abbrev small : Fields
small = dict (
    ("result", object (("disposition", str "SUPPORTED") ∷ ("coverage", str "complete") ∷ []))
    ∷ (
      "lineage",
      object (
          ("authorization_ref", str "auth_digest")
          ∷ ("evidence_refs", string_list ("e1" ∷ []))
          ∷ ("request_fingerprint", str "digest")
          ∷ []),
    )
    ∷ ("continuation", str "cursor_digest")
    ∷ [])

small-HasShape : HasShape small
unfolding get string_eq dict object
small-HasShape = record {
  result = _;
  lineage = _;
  result_is = refl;
  lineage_is = refl;
  disposition = "SUPPORTED";
  disposition_is = refl;
  coverage = "complete";
  coverage_is = refl;
  ref = "auth_digest";
  ref_is = refl;
  refs = "e1" ∷ [];
  refs_are = refl;
}

small_cursor : operation_cursor host "timeline" small ≡ ok "cursor_digest"
unfolding operation_cursor string_eq get dict object cursor_for sha256_json
small_cursor = refl

known : contains read_operations "timeline" ≡ true
unfolding string_eq
known = refl

emit_iff_example :
    (emit host "timeline" raw small ≡ ok (response_to host "timeline" small "cursor_digest"))
    ↔ Fits host "timeline" raw "cursor_digest"
emit_iff_example =
    emit_iff host "timeline" raw small "cursor_digest" small-HasShape known small_cursor

abbrev fence : EmissionFence
fence = record {
  operation = "timeline";
  projection_fingerprint = "digest";
  typed_result_fingerprint = "digest";
  status = "EMIT_VALID";
}

abbrev envelope : Fields
envelope = dict (envelope_of host "timeline" small (typed_result_of host "timeline" small))

fence_passed : assert_valid host fence envelope ≡ ok tt
unfolding assert_valid string_eq json_eq get dict envelope_of disclosure_fingerprint sha256_json
    typed_result_of object fields_of list_of evidence_list listed_or_null names string_list
fence_passed = refl

assert_valid-IsFenced_example : IsFenced host fence envelope
assert_valid-IsFenced_example = assert_valid-IsFenced host fence envelope fence_passed

abbrev value_of : Result Fields → Fields
value_of (ok a) = a
value_of (err e) = Fields.end

abbrev answered : Fields
answered = value_of (handle_disclosed host letters full raw false none none)

disclosed_answered : handle_disclosed host letters full raw false none none ≡ ok answered
unfolding handle_disclosed string_eq from_mapping missing dict get normalized query_request is_blank
    disclosed server_binding query search_evidence project_query_result result_of
disclosed_answered = refl

abbrev with_service : Result Fields → Result Fields × State
with_service x = (x, service)

handled :
    handle_authenticated host letters InMemory.registry InMemory.limiter Epoch.epochs
      (InMemory.guard host)
      full
      raw
      none
      (some "2026-01-01T00:00:05Z")
      ""
      ""
      7000000
      service
    ≡ (ok answered, service)
unfolding handle_authenticated query_request
handled =
    simp (parsed, unknown_denied) (ap (λ (x : Result Fields). with_service x) disclosed_answered)

abbrev reads :
    ReadService host letters InMemory.registry InMemory.limiter Epoch.epochs (InMemory.guard host)
reads = record { runtime = full; authorization = some service }

stripped_raw : strip_transport_operation "timeline" raw ≡ ok raw
unfolding strip_transport_operation string_eq json_eq get dict without
stripped_raw = refl

no_cursor : get "cursor" raw ≡ null
unfolding get string_eq dict
no_cursor = refl

execute-returns_example :
    (cursor : String) × (operation_cursor host "timeline" answered ≡ ok cursor)
    × (execute host letters InMemory.registry InMemory.limiter Epoch.epochs
          (InMemory.guard host)
          reads
          "timeline"
          raw
          "mcp"
          none
          none
          (some "2026-01-01T00:00:05Z")
          ""
          ""
          7000000
        ≡ (
          ok (response_to host "timeline" answered cursor),
          record reads { authorization = some service },
        ))
execute-returns_example =
    execute-returns host letters InMemory.registry InMemory.limiter Epoch.epochs
      (InMemory.guard host) reads "timeline" "mcp" raw raw answered none
      (some "2026-01-01T00:00:05Z") "" "" 7000000 service service refl known stripped_raw (inr refl)
      no_cursor handled

execute-parity_example :
    execute host letters InMemory.registry InMemory.limiter Epoch.epochs
      (InMemory.guard host)
      reads
      "timeline"
      raw
      "api"
      none
      (some "auth/a")
      (some "2026-01-01T00:00:05Z")
      ""
      ""
      7000000
    ≡ execute host letters InMemory.registry InMemory.limiter Epoch.epochs
        (InMemory.guard host)
        reads
        "timeline"
        raw
        "mcp"
        none
        (some "auth/a")
        (some "2026-01-01T00:00:05Z")
        ""
        ""
        7000000
execute-parity_example =
    execute-parity host letters InMemory.registry InMemory.limiter Epoch.epochs
      (InMemory.guard host) reads "timeline" raw none (some "auth/a") (some "2026-01-01T00:00:05Z")
      "" "" 7000000
