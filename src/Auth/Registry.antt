-- ===== src/Auth/Registry.antt =====
-- `AuthenticationRegistry` of pmiri/request_auth.py.
use ragsistemi.Prelude.{
  String, ◌≡◌, Bool, true, false, not, none, some, Option, if◌then◌else◌, ◌==◌, string_eq, Result,
  ok, err, request_authorization_error, truthy, arith,
}
use ragsistemi.Prelude.Dict.{Dict, lookup, insert, lookup-insert}
use ragsistemi.Auth.Principal.{Principal}

abbrev pub Registry : Type 0
Registry = Dict Principal

-- `existing is not None and existing.fingerprint != principal.fingerprint`
is_rebound : Option Principal → Principal → Bool
is_rebound none p = false
is_rebound (some existing) p = not (existing.fingerprint == p.fingerprint)

unfoldable pub register : Principal → Registry → Result Registry
unfolding is_rebound
register p r =
    if is_rebound (lookup p.authentication_ref r) p
    then err (request_authorization_error "authentication_reference_rebound")
    else ok (insert p.authentication_ref p r)

unfoldable pub resolve : Option String → Registry → Option Principal
resolve none r = none
resolve (some ref) r = if truthy ref then lookup ref r else none

-- The fingerprint that a reference stands for.
abbrev pub fingerprint_at : Option Principal → Option String
fingerprint_at none = none
fingerprint_at (some p) = some p.fingerprint

-- A registration that is accepted never changes the fingerprint that a reference resolves to.
pub register_keeps :
    (p : Principal) (r r' : Registry) (ref fp : String)
    → register p r ≡ ok r'
    → fingerprint_at (resolve (some ref) r) ≡ some fp
    → fingerprint_at (resolve (some ref) r') ≡ some fp
unfolding register resolve
register_keeps p r r' ref fp h k = ground (arith, lookup-insert ref p.authentication_ref p r)

-- What was accepted under a reference that is not empty is what the reference resolves to.
pub resolve-register :
    (p : Principal) (r r' : Registry)
    → truthy p.authentication_ref ≡ true
    → register p r ≡ ok r'
    → resolve (some p.authentication_ref) r' ≡ some p
unfolding register resolve
resolve-register p r r' t h =
    ground (arith, lookup-insert p.authentication_ref p.authentication_ref p r)
