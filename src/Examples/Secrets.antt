-- ===== src/Examples/Secrets.antt =====
-- A connector credential on a small input.
use ragsistemi.Prelude.{◌≡◌, ◌↔◌, [], ◌∷◌, some, ok}
use ragsistemi.Prelude.Int.{pos}
use ragsistemi.Credentials
use ragsistemi.Credentials.{Boundary, BindingResult, visibility_prohibitions}
use ragsistemi.Credentials.Bound.{Covers, bind-handle_iff}
use ragsistemi.Examples.Hosts.{host, digest}
use ragsistemi.Examples.Principals.{start, end}

abbrev boundary : Boundary
boundary = record {
  boundary_id = "b";
  connector_subject_ref = "s";
  operation = "external_fetch";
  connector_process_ref = "p";
  destination_ref = "d";
  operation_scope = "external_fetch" ∷ [];
  injection_channel = "PROCESS_MEMORY_HANDLE";
  prohibitions = visibility_prohibitions;
  valid_from = start;
  valid_until = end;
  credential_epoch = pos 3;
  rotation_ref = "r";
  revocation_ref = "v";
  source_ref = "o";
  authority_manifest_fingerprint = digest;
  status = "ACTIVE";
}

bind-handle_iff_example :
    ((r : BindingResult) × (Credentials.bind host boundary
          (7 ∷ [])
          "external_fetch"
          "p"
          "d"
          (pos 3)
          "2026-01-01T00:00:05Z"
        ≡ ok r)
      × (r.handle
          ≡ some (record {
            secret = 7 ∷ [];
            boundary_fingerprint = Credentials.fingerprint host boundary;
          })))
    ↔ Covers host boundary "external_fetch" "p" "d" (pos 3) "2026-01-01T00:00:05Z"
bind-handle_iff_example =
    bind-handle_iff host boundary 7 [] "external_fetch" "p" "d" (pos 3) "2026-01-01T00:00:05Z"
