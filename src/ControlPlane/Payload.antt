-- ===== src/ControlPlane/Payload.antt =====
-- `_principal_payload` of pmiri/control_plane.py, and how `_principal_from_payload` reads a payload.
-- `json.loads` gives back the dictionary that `json.dumps` wrote. The rows are those that `register`
-- writes: a value of a type that it never writes is refused where it is read.
use ragsistemi.Prelude.{
  String, ◌≡◌, refl, Bool, true, not, ◌&&◌, List, [], ◌∷◌, none, some, Option, if◌then◌else◌,
  string_eq, contains, Result, ok, err, type_error, key_error, request_authorization_error, ◌>>=◌,
  ◌>>◌, raise_if,
}
use ragsistemi.Prelude.Int.{ℤ}
use ragsistemi.Canonical.Serial.{
  Json, null, num, str, arr, obj, Items, nil, cons, Fields, dict, object, strings, string_list,
  optional,
}
use ragsistemi.Decisions.{get, names}
use ragsistemi.Auth.Principal.{Attestation, Principal, PrincipalArgs, active, args_of}

unfoldable pub attestation_payload : Attestation → Json
unfolding object dict string_list
attestation_payload a = object (
    ("attestation_id", str a.attestation_id)
    ∷ ("principal_ref", str a.principal_ref)
    ∷ ("zone_id", str a.zone_id)
    ∷ ("issuer_ref", str a.issuer_ref)
    ∷ ("evidence_refs", string_list a.evidence_refs)
    ∷ ("issued_at", str a.issued_at)
    ∷ ("valid_until", str a.valid_until)
    ∷ ("status", str a.status)
    ∷ ("fingerprint", str a.fingerprint)
    ∷ [])

-- `_principal_payload`
unfoldable pub principal_payload : Principal → Fields
unfolding dict string_list
principal_payload p = dict (
    ("authentication_ref", str p.authentication_ref)
    ∷ ("principal_ref", str p.principal_ref)
    ∷ ("principal_type", str p.principal_type)
    ∷ ("service_principal_ref", str p.service_principal_ref)
    ∷ ("workload_principal_ref", optional p.workload_principal_ref)
    ∷ ("human_principal_ref", optional p.human_principal_ref)
    ∷ ("trust_zone_attestation", attestation_payload p.attestation)
    ∷ ("allowed_projects", string_list p.allowed_projects)
    ∷ ("allowed_operations", string_list p.allowed_operations)
    ∷ ("allowed_purposes", string_list p.allowed_purposes)
    ∷ ("delegation_grant_refs", string_list p.delegation_grant_refs)
    ∷ ("policy_bundle_ref", str p.policy_bundle_ref)
    ∷ ("policy_version", str p.policy_version)
    ∷ ("policy_epoch", num p.policy_epoch)
    ∷ ("issued_at", str p.issued_at)
    ∷ ("valid_until", str p.valid_until)
    ∷ ("status", str p.status)
    ∷ ("fingerprint", str p.fingerprint)
    ∷ [])

-- `payload[name]`
item_at : String → Fields → Result Json
item_at name d = if contains (names d) name then ok (get name d) else err (key_error name)

-- `payload.get(name, default)`
item_or : String → Json → Fields → Json
item_or name other d = if contains (names d) name then get name d else other

-- a keyword argument that the dataclass requires
argument_at : String → Fields → Result Json
argument_at name d = if contains (names d) name then ok (get name d) else err (type_error name)

as_text : Json → Result String
as_text (str s) = ok s
as_text v = err (type_error "str")

as_optional : Json → Result (Option String)
as_optional null = ok none
as_optional (str s) = ok (some s)
as_optional v = err (type_error "str | None")

as_epoch : Json → Result ℤ
as_epoch (num i) = ok i
as_epoch v = err (type_error "int")

texts : Items → Result (List String)
texts nil = ok []
texts (cons (str s) rest) = do others ← texts rest; ok (s ∷ others)
texts (cons v rest) = err (type_error "str")

as_texts : Json → Result (List String)
unfolding texts
as_texts (arr items) = texts items
as_texts v = err (type_error "list")

-- Every key of the dictionary names a field of the dataclass.
are_known : List String → Bool
are_known [] = true
are_known (k ∷ ks) =
    contains
      ("attestation_id" ∷ "principal_ref" ∷ "zone_id" ∷ "issuer_ref" ∷ "evidence_refs" ∷ "issued_at"
        ∷ "valid_until" ∷ "status" ∷ "fingerprint" ∷ [])
      k
    && are_known ks

-- `TrustZoneAttestation(**normalized_attestation)`
unfoldable pub attestation_of : Json → Result Attestation
unfolding item_or argument_at as_text as_texts are_known
attestation_of (obj d) = do
  evidence ← as_texts (item_or "evidence_refs" (arr nil) d)
  raise_if (not (are_known (names d))) (type_error "unexpected keyword argument")
  attestation_id ← argument_at "attestation_id" d >>= as_text
  principal ← argument_at "principal_ref" d >>= as_text
  zone ← argument_at "zone_id" d >>= as_text
  issuer ← argument_at "issuer_ref" d >>= as_text
  issued ← argument_at "issued_at" d >>= as_text
  until ← argument_at "valid_until" d >>= as_text
  status ← argument_at "status" d >>= as_text
  fingerprint ← argument_at "fingerprint" d >>= as_text
  ok (record {
    attestation_id = attestation_id;
    principal_ref = principal;
    zone_id = zone;
    issuer_ref = issuer;
    evidence_refs = evidence;
    issued_at = issued;
    valid_until = until;
    status = status;
    fingerprint = fingerprint;
  })
attestation_of v = err (request_authorization_error "stored_attestation_invalid")

-- The keyword arguments that `_principal_from_payload` passes to `verified`.
unfoldable pub arguments : Attestation → Fields → Result PrincipalArgs
unfolding item_at item_or as_text as_texts as_optional as_epoch
arguments attestation d = do
  authentication ← item_at "authentication_ref" d >>= as_text
  principal ← item_at "principal_ref" d >>= as_text
  kind ← item_at "principal_type" d >>= as_text
  service ← item_at "service_principal_ref" d >>= as_text
  workload ← as_optional (get "workload_principal_ref" d)
  human ← as_optional (get "human_principal_ref" d)
  projects ← item_at "allowed_projects" d >>= as_texts
  operations ← item_at "allowed_operations" d >>= as_texts
  purposes ← item_at "allowed_purposes" d >>= as_texts
  grants ← as_texts (item_or "delegation_grant_refs" (arr nil) d)
  bundle ← item_at "policy_bundle_ref" d >>= as_text
  version ← item_at "policy_version" d >>= as_text
  epoch ← item_at "policy_epoch" d >>= as_epoch
  issued ← item_at "issued_at" d >>= as_text
  until ← item_at "valid_until" d >>= as_text
  status ← as_text (item_or "status" (str active) d)
  ok (record {
    authentication_ref = authentication;
    principal_ref = principal;
    principal_type = kind;
    service_principal_ref = service;
    attestation = attestation;
    allowed_projects = projects;
    allowed_operations = operations;
    allowed_purposes = purposes;
    policy_bundle_ref = bundle;
    policy_version = version;
    policy_epoch = epoch;
    issued_at = issued;
    valid_until = until;
    workload_principal_ref = workload;
    human_principal_ref = human;
    delegation_grant_refs = grants;
    status = status;
  })

texts-strings : (xs : List String) → texts (strings xs) ≡ ok xs
unfolding texts strings
texts-strings [] = refl
texts-strings (x ∷ xs) = rw (texts-strings xs) refl

as_optional-optional : (o : Option String) → as_optional (optional o) ≡ ok o
unfolding as_optional optional
as_optional-optional none = refl
as_optional-optional (some s) = refl

-- An attestation is read back from its payload.
pub attestation_of-payload : (a : Attestation) → attestation_of (attestation_payload a) ≡ ok a
unfolding attestation_of attestation_payload object dict string_list get names as_texts as_text
    item_or argument_at are_known string_eq
attestation_of-payload a = rw (texts-strings a.evidence_refs) refl

-- The fields of a principal are read back from its payload.
pub arguments-payload :
    (p : Principal) → arguments p.attestation (principal_payload p) ≡ ok (args_of p)
unfolding arguments principal_payload args_of dict string_list get names as_texts as_text as_epoch
    item_at item_or string_eq
arguments-payload p =
    rw
      (
        as_optional-optional p.workload_principal_ref,
        as_optional-optional p.human_principal_ref,
        texts-strings p.allowed_projects,
        texts-strings p.allowed_operations,
        texts-strings p.allowed_purposes,
        texts-strings p.delegation_grant_refs,
      )
      refl
