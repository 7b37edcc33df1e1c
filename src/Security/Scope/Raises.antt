-- ===== src/Security/Scope/Raises.antt =====
-- The exceptions of the records of pmiri/security.py are ValueErrors (`SecurityContractViolation`
-- is one).
use ragsistemi.Prelude.{◌≡◌, true, [], ◌∷◌, List, err, Error, arith, is_value_error}
use ragsistemi.Prelude.Dict.{Dict, insert}
use ragsistemi.Prelude.Order.{sorted_set}
use ragsistemi.Security.Scope.{
  ScopeValue, text, array, Authority, normalize_from, normalize_all, normalized_scope,
  intersect_authority,
}

raises-normalize_from :
    (result : Authority) (scope : Dict ScopeValue) (e : Error)
    → normalize_from result scope ≡ err e
    → is_value_error e ≡ true
unfolding normalize_from
raises-normalize_from result [] e h = cc
raises-normalize_from result ((key, text t) ∷ scope) e h = ground arith
raises-normalize_from result ((key, array values) ∷ scope) e h =
    raises-normalize_from (insert key (sorted_set values) result) scope e h

raises-normalize_all :
    (scopes : List (Dict ScopeValue)) (e : Error)
    → normalize_all scopes ≡ err e
    → is_value_error e ≡ true
unfolding normalize_all normalized_scope
raises-normalize_all [] e h = cc
raises-normalize_all (scope ∷ scopes) e h =
    ground (arith, raises-normalize_from [] scope e, raises-normalize_all scopes e)

pub raises-intersect_authority :
    (scopes : List (Dict ScopeValue)) (e : Error)
    → intersect_authority scopes ≡ err e
    → is_value_error e ≡ true
unfolding intersect_authority
raises-intersect_authority scopes e h = ground (arith, raises-normalize_all scopes e)
