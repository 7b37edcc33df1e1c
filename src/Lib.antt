-- ===== src/Lib.antt =====
-- PMIRI: request authorization, egress and their durable control plane.
--
-- The program serves local read requests. A request comes in with a reference to an authenticated
-- principal; the authorization service resolves the principal, tests it and its trust-zone
-- attestation against the current time and policy epoch, tests project, operation and purpose, spends
-- one unit of the principal's rate budget, derives a binding of everything that the decision rests
-- on, and gives the request's id to the replay guard. The binding is checked again before
-- disclosure. An allowed request is searched in the sources of its project, the matching spans are
-- compiled into a context under a bound, the result is projected for the caller, with one neutral
-- answer for every denial, and the response leaves under an emission fence and an audit event. What
-- would leave for an external provider passes the egress decision and the send
-- fence. The registry, the replay guard, the rate limiter and the policy epoch have an in-memory form
-- and one in SQLite, which the service sees through the same ports. Records of Gate D, which are JSON
-- objects, are validated for their shape, their state machine and their fingerprints, decisions are
-- cached under a policy epoch, and connectors get credentials within a boundary.
--
-- Files and what they model:
--   Prelude, Prelude/*        tests, lists, texts, results, orders, integers and dictionaries of Python
--   Host                      the parameters: SHA-256 and datetime.fromisoformat
--   Canonical, Canonical/*    pmiri/canonical.py, and the timestamps of the modules that read them
--   Models                    pmiri/models.py: QueryRequest
--   Models/Evidence, Models/Artifact   pmiri/models.py: sources, evidence, artifacts and results
--   Retrieval                 pmiri/retrieval.py: tokens, matching_spans, Retriever.search
--   Store                     pmiri/store.py: LocalStore, and normalize_text of pmiri/canonical.py
--   Context                   pmiri/context.py: ContextCompiler
--   Runtime                   pmiri/runtime.py: LocalEvidenceRuntime
--   Disclosure                pmiri/disclosure.py: project_query_result
--   Reads/Projection          pmiri/read_projection.py: ProjectionRequest, ReadProjectionService
--   Reads/Operations          pmiri/read_operations.py: ReadOperationService and its emission fence
--   Reads/Parity              the same two files: the comparison of the two adapters
--   Egress                    pmiri/egress.py: ProviderEnvelope, ExternalEmissionFence
--   Audit                     pmiri/audit.py: ReadAuditEvent, its validation, the lines of the log
--   Security/Scope            pmiri/security.py: _normalized_scope, intersect_authority
--   Security/Subject          pmiri/security.py: AuthorizationSubjectChain, PurposeBinding
--   Security/Classification   pmiri/security.py: SecurityClassificationBinding, its changes
--   Security/Egress           pmiri/security.py: manifests, EgressDecision, ProviderSendFence
--   Auth/Principal            pmiri/request_auth.py: TrustZoneAttestation, AuthenticatedPrincipal
--   Auth/Registry             pmiri/request_auth.py: AuthenticationRegistry
--   Auth/Replay               pmiri/request_auth.py: ReplayGuard
--   Auth/Rate                 pmiri/request_auth.py: FixedWindowRateLimiter
--   Auth/Adapters             the four ports as records of operations and laws
--   Auth/InMemory             the in-memory classes as ports
--   Auth/Service              pmiri/request_auth.py: RequestAuthorizationBinding and _build_binding
--   Auth/Service/Calls        pmiri/request_auth.py: evaluate, revalidate, advance_policy_epoch
--   ControlPlane/*            pmiri/control_plane.py: the four SQLite classes
--   Cache                     pmiri/cache.py: DecisionCache
--   Credentials               pmiri/credentials.py: the boundary of a credential, and its binding
--   Decisions                 pmiri/decisions.py: the vocabulary, and tests on the values of a record
--   Decisions/Trust           pmiri/decisions.py: validate_trust_decision and
--                             validate_capability_decision
--   Decisions/Lifecycle       pmiri/decisions.py: validate_lifecycle
--   Decisions/Outbound        pmiri/decisions.py: validate_outbound_decision, decision_fingerprint
--   Examples, Auth/Service/Calls/Run and Inputs   runs on small inputs
-- A module below one of these holds what is proved about it.
--
-- How the code is read. A Python object is a record that is passed along, and an exception is a value
-- of Result; a method that mutates before it raises returns the mutated object beside the exception.
-- Texts are typed, so that isinstance tests on them are the types. A frozen dataclass is compared
-- field by field. A Python set that is sorted is sorted_set, and dictionaries keep insertion order.
-- Times are microseconds in ℕ: an instant of UTC from the parser, or the reading of the clock that
-- the rate limiter gets. The wall clock and the monotonic clock are arguments of the calls that read
-- them. Locks and SQL transactions make each call one step, and interleavings are sequences of calls.
-- Every loop of the source runs over a list or a dictionary and is structural recursion. The one
-- fuel is in Prelude/Int, where the digits of a number take no more steps than the number.
--
-- Three parameters stand for what the language and a store give: Unicode in Retrieval has the
-- characters of a word and casefold, Audit takes json.loads, and a LocalRuntime holds the store's
-- list_sources, which Store/Searched gives for a LocalStore.
--
-- Not modelled: the files that the ports, the store and the audit log are kept in, the connections
-- and the pragmas of SQLite, the JSON text of a stored principal (the dictionary that it
-- spells is kept), floats among JSON values, and the parts of the repository that are not named
-- above: the cross-record checks of decisions, policy bundles, the SQLite store, transports, and the
-- tooling of releases. They are I/O and glue over third-party libraries, or lie beside the path of a
-- read request. Two kinds of exceptions are left out as well, which evaluate and revalidate let
-- escape: the errors of SQLite, so that the registry and the rate limiter always answer, and the
-- OverflowError of astimezone for a timestamp at either end of the calendar that has no instant in
-- UTC.
pub mod Prelude
pub mod Host
pub mod Canonical
pub mod Models
pub mod Context
pub mod Store
pub mod Retrieval
pub mod Egress
pub mod Disclosure
pub mod Runtime
pub mod Reads
pub mod Audit
pub mod Security
pub mod Auth
pub mod Cache
pub mod ControlPlane
pub mod Credentials
pub mod Decisions
pub mod Examples
