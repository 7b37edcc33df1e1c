-- ===== src/Credentials/Bound.antt =====
-- When a connector gets a credential.
use ragsistemi.Prelude.{
  ℕ, String, ◌≡◌, ◌↔◌, refl, Bool, true, false, List, ◌∷◌, some, string_eq, contains, ok, arith,
}
use ragsistemi.Prelude.Int.{ℤ, int_eq}
use ragsistemi.Host.{Host}
use ragsistemi.Canonical.Time.{valid_interval}
use ragsistemi.Credentials
use ragsistemi.Credentials.{
  Boundary, Credential, BindingResult, fingerprint, authorize, bind, new_credential,
}

module _ (host : Host) where
  -- A boundary covers a use of its credential.
  pub record Covers (b : Boundary) (operation process destination : String) (epoch : ℤ)
      (now : String) : Type 0 where
    pub active : b.status ≡ "ACTIVE"
    pub same_operation : operation ≡ b.operation
    pub in_scope : contains b.operation_scope operation ≡ true
    pub same_process : process ≡ b.connector_process_ref
    pub same_destination : destination ≡ b.destination_ref
    pub same_epoch : epoch ≡ b.credential_epoch
    pub in_time : valid_interval host b.valid_from b.valid_until now ≡ true

  authorize-Covers :
      (b : Boundary) (operation process destination : String) (epoch : ℤ) (now : String)
      → (authorize host b operation process destination epoch now).0 ≡ true
      → Covers b operation process destination epoch now
  unfolding authorize
  authorize-Covers b operation process destination epoch now h = record {
    active = ground arith;
    same_operation = ground arith;
    in_scope = ground arith;
    same_process = ground arith;
    same_destination = ground arith;
    same_epoch = ground arith;
    in_time = ground arith;
  }

  Covers-authorize :
      (b : Boundary) (operation process destination : String) (epoch : ℤ) (now : String)
      → Covers b operation process destination epoch now
      → (authorize host b operation process destination epoch now).0 ≡ true
  unfolding authorize
  Covers-authorize b operation process destination epoch now c = ground (
    arith, c.active, c.same_operation, c.in_scope, c.same_process, c.same_destination, c.same_epoch,
    c.in_time,
  )

  bound_handle :
      (b : Boundary) (byte : ℕ) (secret : List ℕ) (answer : Bool × String)
      → (answer.0 ≡ true) ↔ (
          (r : BindingResult) × (Credentials.bound host b (byte ∷ secret) answer ≡ ok r)
          × (r.handle
              ≡ some
                  (record { secret = byte ∷ secret; boundary_fingerprint = fingerprint host b })))
  unfolding Credentials.bound new_credential
  bound_handle b byte secret (true, reason) = (λ h. (_, refl, refl), λ k. refl)
  bound_handle b byte secret (false, reason) =
      (λ h. cc, λ k. absurd (let e = k.1 in let f = k.2 in cc))

  -- A connector gets a handle on a secret that is not empty, under the fingerprint of the boundary,
  -- exactly when the boundary is active, is for that operation, process and destination, has the
  -- operation in its scope, has the current epoch, and is valid now.
  pub bind-handle_iff :
      (b : Boundary) (byte : ℕ) (secret : List ℕ) (operation process destination : String)
      (epoch : ℤ) (now : String)
      → ((r : BindingResult) × (bind host b (byte ∷ secret) operation process destination epoch now
            ≡ ok r)
          × (r.handle
              ≡ some
                  (record { secret = byte ∷ secret; boundary_fingerprint = fingerprint host b })))
        ↔ Covers b operation process destination epoch now
  unfolding bind
  bind-handle_iff b byte secret operation process destination epoch now =
      let answer = authorize host b operation process destination epoch now in
      let e = bound_handle b byte secret answer in
      (
        λ k. authorize-Covers b operation process destination epoch now (e.1 k),
        λ c. e.0 (Covers-authorize b operation process destination epoch now c),
      )
