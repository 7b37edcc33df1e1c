-- ===== src/Security/Scope.antt =====
-- `_normalized_scope` and `intersect_authority` of pmiri/security.py.
pub mod Meet
pub mod Raises
use ragsistemi.Prelude.{
  String, Bool, true, false, ◌&&◌, List, [], ◌∷◌, map, none, some, if◌then◌else◌, contains,
  string_eq, Result, ok, err, security_contract_violation, ◌>>=◌, Option,
}
use ragsistemi.Prelude.Order.{sorted_set}
use ragsistemi.Prelude.Dict.{Dict, lookup, insert, keys}

-- The value of a scope: the array that is meant, or a bare string, which is refused.
pub data ScopeValue : Type 0 where
  text : String → ScopeValue
  array : List String → ScopeValue

-- One array of strings for each dimension: project, operation, purpose.
abbrev pub Authority : Type 0
Authority = Dict (List String)

normalize_value : ScopeValue → Result (List String)
normalize_value (text s) = err (security_contract_violation "authority_scope_must_be_array")
normalize_value (array values) = ok (sorted_set values)

normalize_from : Authority → Dict ScopeValue → Result Authority
unfolding normalize_value
normalize_from result [] = ok result
normalize_from result ((key, value) ∷ scope) = do
  values ← normalize_value value
  normalize_from (insert key values result) scope

unfoldable pub normalized_scope : Dict ScopeValue → Result Authority
unfolding normalize_from
normalized_scope scope = normalize_from [] scope

normalize_all : List (Dict ScopeValue) → Result (List Authority)
normalize_all [] = ok []
normalize_all (scope ∷ scopes) = do
  first ← normalized_scope scope
  rest ← normalize_all scopes
  ok (first ∷ rest)

-- `set(xs) & set(ys)`
unfoldable pub common : List String → List String → List String
common [] ys = []
common (x ∷ xs) ys = let rest = common xs ys in if contains ys x then x ∷ rest else rest

-- `scope[key]`; a key that is not there has no value
unfoldable pub values_of : String → Authority → List String
values_of key scope = elim (lookup key scope) [ none ↦ [] | some values ↦ values ]

common_keys : List String → List Authority → List String
unfolding common
common_keys names [] = names
common_keys names (scope ∷ scopes) = common_keys (common names (keys scope)) scopes

common_values : String → List String → List Authority → List String
unfolding common values_of
common_values key values [] = values
common_values key values (scope ∷ scopes) =
    common_values key (common values (values_of key scope)) scopes

meet_at : Authority → List Authority → List String → Authority
unfolding common_values
meet_at first rest [] = []
meet_at first rest (key ∷ names) =
    (key, sorted_set (common_values key (values_of key first) rest)) ∷ meet_at first rest names

-- The comprehension over the normalized scopes.
unfoldable pub meet : List Authority → Authority
unfolding common_keys meet_at
meet [] = []
meet (first ∷ rest) = meet_at first rest (sorted_set (common_keys (keys first) rest))

unfoldable pub intersect_authority : List (Dict ScopeValue) → Result Authority
unfolding normalize_all
intersect_authority scopes = do normalized ← normalize_all scopes; ok (meet normalized)
