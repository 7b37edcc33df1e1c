-- ===== src/Auth/Service/Calls/Inputs.antt =====
-- A service over the in-memory ports, one request that it allows, and one that it denies.
use ragsistemi.Prelude.{
  ◌≡◌, refl, [], ◌∷◌, ok, none, some, string_eq, concat, take_chars, nat_eq, is_space, is_blank,
}
use ragsistemi.Prelude.Int.{pos}
use ragsistemi.Prelude.Dict.{lookup, insert, keys}
use ragsistemi.Canonical.{sha256_json}
use ragsistemi.Canonical.Time.{valid_interval, parse_time, normalize_zone}
use ragsistemi.Models.{QueryRequest, normalized}
use ragsistemi.Auth.Principal
use ragsistemi.Auth.InMemory
use ragsistemi.Auth.Rate
use ragsistemi.Auth.Replay
use ragsistemi.Auth.Registry
use ragsistemi.Auth.Service.{Binding, Evaluation, allow, deny, build_binding, now_or}
use ragsistemi.Auth.Service
use ragsistemi.Security.Subject
use ragsistemi.Security.Scope
use ragsistemi.Canonical
use ragsistemi.Prelude.Order.{sorted_set, lt_text}
use ragsistemi.Auth.Service.Calls
use ragsistemi.Auth.Service.Calls.{
  Service, evaluate, revalidate, advance_policy_epoch, current_epoch,
}
use ragsistemi.ControlPlane.Epoch
use ragsistemi.Examples.Hosts.{host}
use ragsistemi.Examples.Principals.{principal, end}

abbrev pub State : Type 0
State = Calls.State host InMemory.registry InMemory.limiter Epoch.epochs (InMemory.guard host)

abbrev pub service : State
service = record {
  registry = ("auth/a", principal) ∷ [];
  current_policy_epoch = 0;
  limiter = record { max_requests = 2; window_seconds = 60; windows = [] };
  guard = record { max_entries = 2; seen = []; order = [] };
  operation = "read";
  epoch_store = some (some 3);
}

abbrev pub request : QueryRequest
request = record {
  request_id = "r1";
  project_constraint = "p1";
  query = "what";
  purpose = "local_read";
  max_results = pos 5;
}

abbrev pub binding : Binding
binding = record {
  binding_id = "request-auth://digest";
  request_id = "r1";
  request_fingerprint = "digest";
  authentication_ref = "auth/a";
  principal_ref = "principal/a";
  subject_chain_fingerprint = "digest";
  trust_zone_attestation_fingerprint = "digest";
  trust_zone = "zone/local";
  purpose_binding_fingerprint = "digest";
  operation = "read";
  purpose = "local_read";
  project_constraint = "p1";
  policy_bundle_ref = "bundle/1";
  policy_version = "v1";
  policy_epoch = pos 3;
  issued_at = "2026-01-01T00:00:05Z";
  valid_until = end;
  fingerprint = "digest";
}

pub binding_built : build_binding host "read" request principal "2026-01-01T00:00:05Z" ≡ ok binding
unfolding build_binding normalized is_blank Service.bind_request Subject.create_purpose concat
    Service.bind_purpose Subject.verify_requested_purpose string_eq Subject.derive Canonical.ref
    Scope.intersect_authority Service.scopes_of Scope.normalized_scope Scope.meet sorted_set keys
    insert Service.bind lookup lt_text nat_eq is_space take_chars Scope.common Scope.values_of
    Subject.any_value Subject.fingerprint sha256_json
binding_built = refl

abbrev pub used : State
used = record service {
  limiter = record {
    max_requests = 2;
    window_seconds = 60;
    windows = ("principal/a:read", (7000000, 1)) ∷ [];
  };
  guard = record { max_entries = 2; seen = ("r1", ("digest", 61000000)) ∷ []; order = "r1" ∷ [] };
}

pub evaluated :
    evaluate host InMemory.registry InMemory.limiter Epoch.epochs
      (InMemory.guard host)
      request
      (some "auth/a")
      (some "2026-01-01T00:00:05Z")
      ""
      7000000
      service
    ≡ (ok (allow binding), used)
unfolding evaluate Calls.attempt Calls.resolved Calls.authenticated Calls.scoped Calls.limited
    Calls.guarded Calls.replayed Calls.catch Calls.epoch_in normalized is_blank Registry.resolve
    lookup string_eq Calls.current_epoch Epoch.get Principal.is_valid Principal.same_epoch nat_eq
    valid_interval parse_time normalize_zone now_or Principal.attestation_is_valid Rate.consume
    Rate.window_of Rate.roll Rate.spend insert Replay.consume Replay.consume_parsed
    Replay.consume_at Replay.drop_expired Replay.consume_pruned Replay.admit_into Replay.evict
    Replay.remember concat is_space
evaluated = rw binding_built refl

-- without a reference to a principal
pub unknown_denied :
    evaluate host InMemory.registry InMemory.limiter Epoch.epochs
      (InMemory.guard host)
      request
      none
      (some "2026-01-01T00:00:05Z")
      ""
      7000000
      service
    ≡ (ok (deny "AUTHENTICATION_UNKNOWN"), service)
unfolding evaluate Calls.attempt Calls.resolved Calls.catch normalized is_blank Registry.resolve
    lookup string_eq nat_eq now_or is_space
unknown_denied = refl
