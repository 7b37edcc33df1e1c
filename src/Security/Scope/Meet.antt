-- ===== src/Security/Scope/Meet.antt =====
-- The intersection of scopes permits exactly what every scope permits: privileges are never joined.
use ragsistemi.Prelude.{
  String, ◌≡◌, refl, Bool, true, ◌&&◌, List, [], ◌∷◌, contains, arith, string_eq,
}
use ragsistemi.Prelude.Order.{sorted_set, contains-sorted_set}
use ragsistemi.Prelude.Dict.{lookup, keys}
use ragsistemi.Security.Scope.{
  Authority, common, values_of, common_keys, common_values, meet_at, meet,
}

-- `value in authority[key]`, false where the key is not there
unfoldable pub permits : Authority → String → String → Bool
permits authority key value = contains (values_of key authority) value

unfoldable pub all_permit : List Authority → String → String → Bool
unfolding permits
all_permit [] key value = true
all_permit (a ∷ rest) key value = permits a key value && all_permit rest key value

contains-common :
    (v : String) (xs ys : List String)
    → contains (common xs ys) v ≡ (contains xs v && contains ys v)
unfolding common
contains-common v [] ys = refl
contains-common v (x ∷ xs) ys = ground (arith, contains-common v xs ys)

contains-common_values :
    (key v : String) (values : List String) (scopes : List Authority)
    → contains (common_values key values scopes) v ≡ (contains values v && all_permit scopes key v)
unfolding common_values all_permit
contains-common_values key v values [] = ground arith
contains-common_values key v values (scope ∷ scopes) = ground (
  arith,
  contains-common v values (values_of key scope),
  contains-common_values key v (common values (values_of key scope)) scopes,
)

-- a key with a value stands among the keys
contains-keys :
    (key v : String) (a : Authority) → permits a key v ≡ true → contains (keys a) key ≡ true
unfolding permits values_of keys lookup
contains-keys key v [] h = h
contains-keys key v ((k, values) ∷ a) h = ground (arith, contains-keys key v a)

contains-common_keys :
    (key v : String) (names : List String) (scopes : List Authority)
    → contains names key ≡ true
    → all_permit scopes key v ≡ true
    → contains (common_keys names scopes) key ≡ true
unfolding common_keys all_permit
contains-common_keys key v names [] h k = h
contains-common_keys key v names (scope ∷ scopes) h k =
    contains-common_keys key v (common names (keys scope)) scopes
      (ground (arith, contains-common key names (keys scope), contains-keys key v scope))
      (ground arith)

permits-meet_at :
    (first : Authority) (rest : List Authority) (names : List String) (key v : String)
    → permits (meet_at first rest names) key v
      ≡ (contains names key && (permits first key v && all_permit rest key v))
unfolding meet_at permits values_of lookup
permits-meet_at first rest [] key v = refl
permits-meet_at first rest (n ∷ names) key v = ground (
  arith,
  contains-sorted_set v (common_values n (values_of n first) rest),
  contains-common_values n v (values_of n first) rest,
  permits-meet_at first rest names key v,
)

-- The intersection of one scope or more permits a value in a dimension exactly when every scope
-- does.
pub permits-meet :
    (first : Authority) (rest : List Authority) (key v : String)
    → permits (meet (first ∷ rest)) key v ≡ all_permit (first ∷ rest) key v
unfolding meet all_permit
permits-meet first rest key v = ground (
  arith,
  permits-meet_at first rest (sorted_set (common_keys (keys first) rest)) key v,
  contains-sorted_set key (common_keys (keys first) rest),
  contains-keys key v first,
  contains-common_keys key v (keys first) rest,
)
