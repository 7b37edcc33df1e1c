-- ===== src/Prelude/Results.antt =====
-- Python's exceptions as values. A constructor is a class of the source with its message.
use Prim.Native.String.{String}
use mathlib.Core.Bool.{Bool, true, false}
use mathlib.Core.Logic.{◌⊎◌, inl, inr}
use mathlib.Core.Path.{◌≡◌, refl}

pub data Error : Type 0 where
  value_error request_authorization_error security_contract_violation : String → Error
  contract_violation credential_boundary_violation : String → Error
  external_read_emission_error audit_error network_boundary_error : String → Error
  permission_error index_error type_error key_error : String → Error

-- What a call came to: it returned or it raised.
pub data Result {ℓ} (V : Type ℓ) : Type ℓ where
  err : Error → Result V
  ok : V → Result V

-- `except ValueError`, the subclasses of the source included
abbrev pub is_value_error : Error → Bool
is_value_error (value_error _) = true
is_value_error (request_authorization_error _) = true
is_value_error (security_contract_violation _) = true
is_value_error (contract_violation _) = true
is_value_error (credential_boundary_violation _) = true
is_value_error (external_read_emission_error _) = true
is_value_error (audit_error _) = true
is_value_error (network_boundary_error _) = true
is_value_error _ = false

infixl 5 ◌>>=◌ ◌>>◌
abbrev pub ◌>>=◌ {ℓ κ} : {V : Type ℓ} {W : Type κ} → Result V → (V → Result W) → Result W
err raised >>= next = err raised
ok value >>= next = next value

-- statements in a row, the first without a value
abbrev pub ◌>>◌ {κ} : {W : Type κ} → Result (Unit {0}) → Result W → Result W
first >> then_ = first >>= λ _. then_

-- `if test: raise e`
abbrev pub raise_if : Bool → Error → Result (Unit {0})
raise_if true e = err e
raise_if false e = ok tt

-- what follows a `raise` that was passed
pub raise_if_passed {ℓ} :
    {A : Type ℓ} (b : Bool) (e : Error) (k : Result A) {x : A}
    → (raise_if b e >> k) ≡ ok x
    → (b ≡ false) × (k ≡ ok x)
raise_if_passed true e k h = cc
raise_if_passed false e k h = (refl, h)

pub raise_if_last : (b : Bool) (e : Error) → raise_if b e ≡ ok tt → b ≡ false
raise_if_last true e h = cc
raise_if_last false e h = refl

-- A call that raised did so before the next step, or in it.
pub bind-eq-err {ℓ κ} :
    {V : Type ℓ} {W : Type κ} (call : Result V) (next : V → Result W) {raised : Error}
    → (call >>= next) ≡ err raised
    → (call ≡ err raised) ⊎ ((value : V) × (call ≡ ok value) × (next value ≡ err raised))
bind-eq-err (err r) next came = inl (cc)
bind-eq-err (ok v) next came = inr (v, refl, came)

-- A call that returned went through the next step.
pub bind-eq-ok {ℓ κ} :
    {V : Type ℓ} {W : Type κ} (call : Result V) (next : V → Result W) {result : W}
    → (call >>= next) ≡ ok result
    → (value : V) × (call ≡ ok value) × (next value ≡ ok result)
bind-eq-ok (err r) next came = cc
bind-eq-ok (ok v) next came = (v, refl, came)

pub ok_injective {ℓ} : {A : Type ℓ} {a b : A} → ok a ≡ ok b → a ≡ b
ok_injective h = cc
