-- ===== src/Examples/Principals.antt =====
-- An attested principal.
use ragsistemi.Prelude.{
  String, List, ◌≡◌, refl, [], ◌∷◌, ok, none, some, string_eq, concat, take_chars,
}
use ragsistemi.Prelude.Int.{pos}
use ragsistemi.Prelude.Order.{sorted_set, lt_text}
use ragsistemi.Canonical.{sha256_json}
use ragsistemi.Canonical.Time.{valid_interval, parse_time, normalize_zone}
use ragsistemi.Auth.Principal.{
  Attestation, Principal, PrincipalArgs, issue, verified, build, active, required,
  authority_is_empty,
}
use ragsistemi.Auth.Principal.Verified.{verified-IsVerified, IsVerified}
use ragsistemi.Examples.Hosts.{host}

abbrev pub start : String
start = "2026-01-01T00:00:00Z"

abbrev pub end : String
end = "2026-01-01T00:01:00Z"

abbrev pub evidence : List String
evidence = "e2" ∷ "e1" ∷ "e2" ∷ []

abbrev pub attestation : Attestation
attestation = record {
  attestation_id = "trust-attestation://digest";
  principal_ref = "principal/a";
  zone_id = "zone/local";
  issuer_ref = "issuer/1";
  evidence_refs = "e1" ∷ "e2" ∷ [];
  issued_at = start;
  valid_until = end;
  status = active;
  fingerprint = "digest";
}

pub attestation_issued :
    issue host "principal/a" "zone/local" "issuer/1" evidence start end active ≡ ok attestation
unfolding issue sorted_set valid_interval parse_time normalize_zone string_eq lt_text concat
    sha256_json take_chars
attestation_issued = refl

abbrev pub args : PrincipalArgs
args = record {
  authentication_ref = "auth/a";
  principal_ref = "principal/a";
  principal_type = "service";
  service_principal_ref = "service/a";
  attestation = attestation;
  allowed_projects = "p2" ∷ "p1" ∷ [];
  allowed_operations = "read" ∷ [];
  allowed_purposes = "local_read" ∷ [];
  policy_bundle_ref = "bundle/1";
  policy_version = "v1";
  policy_epoch = pos 3;
  issued_at = start;
  valid_until = end;
  workload_principal_ref = none;
  human_principal_ref = some "human/h";
  delegation_grant_refs = [];
  status = active;
}

abbrev pub principal : Principal
principal = record {
  authentication_ref = "auth/a";
  principal_ref = "principal/a";
  principal_type = "service";
  service_principal_ref = "service/a";
  workload_principal_ref = none;
  human_principal_ref = some "human/h";
  attestation = attestation;
  allowed_projects = "p1" ∷ "p2" ∷ [];
  allowed_operations = "read" ∷ [];
  allowed_purposes = "local_read" ∷ [];
  delegation_grant_refs = [];
  policy_bundle_ref = "bundle/1";
  policy_version = "v1";
  policy_epoch = pos 3;
  issued_at = start;
  valid_until = end;
  status = active;
  fingerprint = "digest";
}

pub principal-verified : verified host args ≡ ok principal
unfolding verified build required authority_is_empty sorted_set valid_interval parse_time
    normalize_zone string_eq lt_text sha256_json
principal-verified = refl

verified-IsVerified_example : IsVerified host args principal
verified-IsVerified_example = verified-IsVerified host args principal principal-verified
