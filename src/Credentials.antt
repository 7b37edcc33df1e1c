-- ===== src/Credentials.antt =====
-- `ConnectorCredentialBoundary`, `OpaqueCredential` and `CredentialManager` of pmiri/credentials.py.
-- A secret is a list of bytes; what a sink does with it is the caller's.
pub mod Bound
use ragsistemi.Prelude.{
  ℕ, String, Bool, true, false, not, ◌&&◌, ◌||◌, List, [], ◌∷◌, ◌++◌, Option, none, some,
  if◌then◌else◌, ◌==◌, string_eq, contains, Result, ok, err, credential_boundary_violation, ◌>>=◌,
  ◌>>◌, raise_if,
}
use ragsistemi.Prelude.Int.{ℤ, int_eq, is_below}
use ragsistemi.Host.{Host}
use ragsistemi.Canonical.{sha256_json, is_sha256}
use ragsistemi.Canonical.Serial.{Json, str, num, object, string_list}
use ragsistemi.Canonical.Time.{valid_interval}
use ragsistemi.Decisions.{operations}

abbrev pub injection_channels : List String
injection_channels =
    "PROCESS_MEMORY_HANDLE" ∷ "SIDECAR_SECRET_MOUNT" ∷ "DELEGATED_TOKEN_EXCHANGE"
    ∷ "EXPLICIT_PROXY_CREDENTIAL" ∷ []

abbrev pub visibility_prohibitions : List String
visibility_prohibitions =
    "SECRET_VALUE_TO_PROVIDER_MODEL" ∷ "SECRET_VALUE_TO_FETCHED_CONTENT"
    ∷ "SECRET_VALUE_TO_CALLER_CONTENT" ∷ "SECRET_VALUE_TO_LOGS" ∷ "SECRET_VALUE_TO_ERROR_PAYLOAD"
    ∷ "SECRET_VALUE_TO_CANONICAL_ARTIFACT" ∷ []

pub record Boundary : Type 0 where
  pub boundary_id : String
  pub connector_subject_ref : String
  pub operation : String
  pub connector_process_ref : String
  pub destination_ref : String
  pub operation_scope : List String
  pub injection_channel : String
  pub prohibitions : List String
  pub valid_from : String
  pub valid_until : String
  pub credential_epoch : ℤ
  pub rotation_ref : String
  pub revocation_ref : String
  pub source_ref : String
  pub authority_manifest_fingerprint : String
  pub status : String

-- `set(xs) <= set(ys)`
unfoldable pub is_subset : List String → List String → Bool
is_subset [] ys = true
is_subset (x ∷ xs) ys = contains ys x && is_subset xs ys

-- `__post_init__`: the boundary, once its fields have passed
unfoldable pub post_init : Boundary → Result Boundary
post_init b = do
  raise_if (not (contains operations b.operation) || not (is_subset b.operation_scope operations))
      (credential_boundary_violation "operation_scope_invalid")
  raise_if (not (contains b.operation_scope b.operation))
      (credential_boundary_violation "boundary_operation_not_in_scope")
  raise_if (not (contains injection_channels b.injection_channel))
      (credential_boundary_violation "injection_channel_invalid")
  raise_if
      (not (
        is_subset b.prohibitions visibility_prohibitions
        && is_subset visibility_prohibitions b.prohibitions))
      (credential_boundary_violation "visibility_prohibitions_incomplete")
  raise_if
      (is_below b.credential_epoch 0
        || not (contains ("ACTIVE" ∷ "EXPIRED" ∷ "REVOKED" ∷ "INVALID" ∷ []) b.status))
      (credential_boundary_violation "credential_lifecycle_invalid")
  raise_if (not (is_sha256 b.authority_manifest_fingerprint))
      (credential_boundary_violation "authority_manifest_fingerprint_invalid")
  ok b

-- the record without its fingerprint
unfoldable pub record_entries : Boundary → List (String × Json)
record_entries b =
    ("record_type", str "PMIRI_D2_CONNECTOR_CREDENTIAL_BOUNDARY")
    ∷ ("schema_version", str "0.2")
    ∷ ("boundary_id", str b.boundary_id)
    ∷ ("connector_subject_ref", str b.connector_subject_ref)
    ∷ ("operation", str b.operation)
    ∷ (
      "audience",
      object (
          ("connector_process_ref", str b.connector_process_ref)
          ∷ ("destination_ref", str b.destination_ref)
          ∷ []),
    )
    ∷ ("operation_scope", string_list b.operation_scope)
    ∷ ("injection_channel", str b.injection_channel)
    ∷ ("visibility_prohibitions", string_list b.prohibitions)
    ∷ ("valid_from", str b.valid_from)
    ∷ ("valid_until", str b.valid_until)
    ∷ ("credential_epoch", num b.credential_epoch)
    ∷ ("rotation_ref", str b.rotation_ref)
    ∷ ("revocation_ref", str b.revocation_ref)
    ∷ ("source_ref", str b.source_ref)
    ∷ ("authority_manifest_fingerprint", str b.authority_manifest_fingerprint)
    ∷ ("status", str b.status)
    ∷ []

-- `OpaqueCredential`
pub record Credential : Type 0 where
  pub secret : List ℕ
  pub boundary_fingerprint : String

unfoldable pub new_credential : List ℕ → String → Result Credential
new_credential [] fingerprint = err (credential_boundary_violation "secret_missing")
new_credential (byte ∷ secret) fingerprint =
    ok (record { secret = byte ∷ secret; boundary_fingerprint = fingerprint })

-- `CredentialBindingResult`
pub record BindingResult : Type 0 where
  pub action_result : String
  pub reason_class : String
  pub handle : Option Credential
  pub boundary_fingerprint : String

module _ (host : Host) where
  unfoldable pub fingerprint : Boundary → String
  fingerprint b = sha256_json host (object (record_entries b))

  unfoldable pub public_record : Boundary → Json
  public_record b = object (record_entries b ++ ("boundary_fingerprint", str (fingerprint b)) ∷ [])

  -- `valid_interval` is false where a time does not parse, as `except ValueError` is.
  unfoldable pub authorize :
      Boundary
      → (operation connector_process_ref destination_ref : String) → (current_epoch : ℤ)
      → (now : String) → Bool × String
  authorize b operation process destination epoch now =
      if not (b.status == "ACTIVE")
      then (false, "CREDENTIAL_SCOPE_INVALID")
      else if not (operation == b.operation) || not (contains b.operation_scope operation)
      then (false, "CREDENTIAL_SCOPE_INVALID")
      else if not (process == b.connector_process_ref) || not (destination == b.destination_ref)
      then (false, "CREDENTIAL_SCOPE_INVALID")
      else if not (epoch == b.credential_epoch)
      then (false, "POLICY_EPOCH_CHANGED")
      else if not (valid_interval host b.valid_from b.valid_until now)
      then (false, "CREDENTIAL_SCOPE_INVALID")
      else (true, "NONE")

  bound : Boundary → List ℕ → Bool × String → Result BindingResult
  bound b secret (false, reason) = ok (record {
    action_result = "DENY";
    reason_class = reason;
    handle = none;
    boundary_fingerprint = fingerprint b;
  })
  bound b secret (true, reason) = do
    credential ← new_credential secret (fingerprint b)
    ok (record {
      action_result = "ALLOW";
      reason_class = "NONE";
      handle = some credential;
      boundary_fingerprint = fingerprint b;
    })

  -- `CredentialManager.bind`
  unfoldable pub bind :
      Boundary
      → List ℕ
      → (operation connector_process_ref destination_ref : String) → (current_epoch : ℤ)
      → (now : String) → Result BindingResult
  unfolding bound
  bind b secret operation process destination epoch now =
      bound b secret (authorize b operation process destination epoch now)
