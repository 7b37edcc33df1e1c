-- ===== src/Audit/Passed.antt =====
-- The tests of pmiri/audit.py on an event that `emitted` or `rejected` makes.
use ragsistemi.Prelude.{
  String, true, ◌≡◌, refl, [], ◌∷◌, none, some, string_eq, truthy, All, arith, concat, take_chars,
}
use ragsistemi.Host.{Host}
use ragsistemi.Canonical.{sha256_json, is_sha256}
use ragsistemi.Canonical.Serial.{str, num, object}
use ragsistemi.Decisions.{is_text}
use ragsistemi.Audit.Entries.{
  event_fields-exact, picked-event_fields, artifact_type_is, artifact_version_is, captured_at_is,
  operation_is, outcome_is, status_code_is, projection_fingerprint_is, typed_result_fingerprint_is,
  error_code_is, event_id_is, event_fingerprint_is,
}
use ragsistemi.Audit.Valid.{Off}
use ragsistemi.Audit.{AuditEvent, payload, is_operation, is_status, tests, event_fields}
use ragsistemi.Audit.Single.{
  filled_of, digest_of, none_of, text_of, error_of, rejected_of, signed_of, event_id_of, same_id_of,
}

-- an event that `create` can make of what it is given
pub record IsSound (e : AuditEvent) : Type 0 where
  pub time : truthy e.captured_at ≡ true
  pub operation : is_operation (str e.operation) ≡ true
  pub status : is_status (num e.status_code) ≡ true

module _ (host : Host) where
  -- the tests of an emission
  pub emission-Off :
      (e : AuditEvent) (projection typed : String)
      → IsSound e
      → e.outcome ≡ "EMITTED"
      → e.projection_fingerprint ≡ some projection
      → e.typed_result_fingerprint ≡ some typed
      → e.error_code ≡ none
      → is_sha256 projection ≡ true
      → is_sha256 typed ≡ true
      → is_sha256 e.event_fingerprint ≡ true
      → e.event_fingerprint ≡ sha256_json host (object (payload e))
      → e.event_id ≡ concat ("audit_" ∷ take_chars 32 e.event_fingerprint ∷ [])
      → All Off (tests host (event_fields e) true true)
  unfolding tests is_text string_eq
  emission-Off e projection typed s o p t x p' t' f signed id =
      let pd = digest_of e.projection_fingerprint projection p p' in
      let td = digest_of e.typed_result_fingerprint typed t t' in
      let no_error = none_of e.error_code x in
      (
        rw (event_fields-exact e) refl,
        (
          rw (artifact_type_is e, artifact_version_is e) refl,
          (
            rw (captured_at_is e) (filled_of e.captured_at s.time),
            (
              refl,
              (
                rw (operation_is e, s.operation) refl,
                (
                  refl,
                  (
                    rw (status_code_is e, s.status) refl,
                    (
                      rw (projection_fingerprint_is e) (ground (arith, pd)),
                      (
                        rw (typed_result_fingerprint_is e) (ground (arith, td)),
                        (
                          rw (projection_fingerprint_is e, typed_result_fingerprint_is e)
                              (ground (arith, pd, td)),
                          (
                            rw (error_code_is e) (ground (arith, no_error)),
                            (
                              rw (outcome_is e, text_of e.outcome "EMITTED" o) refl,
                              (
                                rw (outcome_is e, text_of e.outcome "EMITTED" o) refl,
                                (
                                  rw (event_id_is e) (event_id_of e id),
                                  (
                                    rw (event_fingerprint_is e, picked-event_fields e)
                                        (ground (
                                          arith,
                                          signed_of e.event_fingerprint
                                              (sha256_json host (object (payload e))) f signed,
                                        )),
                                    (
                                      rw (event_id_is e, event_fingerprint_is e) (same_id_of e id),
                                      tt,
                                    ),
                                  ),
                                ),
                              ),
                            ),
                          ),
                        ),
                      ),
                    ),
                  ),
                ),
              ),
            ),
          ),
        ),
      )

  -- the tests of a rejection
  pub rejection-Off :
      (e : AuditEvent)
      → IsSound e
      → e.outcome ≡ "REJECTED"
      → e.projection_fingerprint ≡ none
      → e.typed_result_fingerprint ≡ none
      → e.error_code ≡ some "REQUEST_REJECTED"
      → is_sha256 e.event_fingerprint ≡ true
      → e.event_fingerprint ≡ sha256_json host (object (payload e))
      → e.event_id ≡ concat ("audit_" ∷ take_chars 32 e.event_fingerprint ∷ [])
      → All Off (tests host (event_fields e) true true)
  unfolding tests is_text string_eq
  rejection-Off e s o p t x f signed id =
      let pn = none_of e.projection_fingerprint p in
      let tn = none_of e.typed_result_fingerprint t in
      let xe = error_of e.error_code "REQUEST_REJECTED" x in
      (
        rw (event_fields-exact e) refl,
        (
          rw (artifact_type_is e, artifact_version_is e) refl,
          (
            rw (captured_at_is e) (filled_of e.captured_at s.time),
            (
              refl,
              (
                rw (operation_is e, s.operation) refl,
                (
                  refl,
                  (
                    rw (status_code_is e, s.status) refl,
                    (
                      rw (projection_fingerprint_is e, pn) refl,
                      (
                        rw (typed_result_fingerprint_is e, tn) refl,
                        (
                          rw (outcome_is e, o) refl,
                          (
                            rw (outcome_is e, o) refl,
                            (
                              rw
                                  (
                                    projection_fingerprint_is e,
                                    typed_result_fingerprint_is e,
                                    pn,
                                    tn,
                                    outcome_is e,
                                    o,
                                  )
                                  refl,
                              (
                                rw (error_code_is e, xe) (rejected_of _),
                                (
                                  rw (event_id_is e) (event_id_of e id),
                                  (
                                    rw (event_fingerprint_is e, picked-event_fields e)
                                        (ground (
                                          arith,
                                          signed_of e.event_fingerprint
                                              (sha256_json host (object (payload e))) f signed,
                                        )),
                                    (
                                      rw (event_id_is e, event_fingerprint_is e) (same_id_of e id),
                                      tt,
                                    ),
                                  ),
                                ),
                              ),
                            ),
                          ),
                        ),
                      ),
                    ),
                  ),
                ),
              ),
            ),
          ),
        ),
      )
