-- ===== src/Canonical/Equality.antt =====
-- Python's `==` on the values of a JSON document: True is 1 and False is 0, and dictionaries are
-- compared by their keys, in whatever order these stand. No key stands twice.
use ragsistemi.Prelude.{
  ℕ, suc, String, Bool, true, false, ◌&&◌, ◌||◌, ◌≡◌, refl, ◌==◌, string_eq, nat_eq, if◌then◌else◌,
  arith, List, [], ◌∷◌,
}
use ragsistemi.Prelude.Int.{ℤ, pos, int_eq}
use ragsistemi.Canonical.Serial.{
  Json, null, bool, num, str, arr, obj, Items, nil, cons, Fields, field, string_list,
}

same_number : ℤ → Json → Bool
same_number i (num j) = i == j
same_number i (bool b) = i == (if b then pos 1 else pos 0)
same_number i v = false

-- `d[name]` where the name is there, and None
value_at : String → Fields → Json
value_at name Fields.end = null
value_at name (field k v rest) = if k == name then v else value_at name rest

has_name : String → Fields → Bool
has_name name Fields.end = false
has_name name (field k v rest) = k == name || has_name name rest

size : Fields → ℕ
size Fields.end = 0
size (field k v rest) = suc (size rest)

unfoldable mutual
  unfolding same_number value_at has_name size nat_eq int_eq

  pub json_eq : Json → Json → Bool
  json_eq null null = true
  json_eq (bool a) v = same_number (if a then pos 1 else pos 0) v
  json_eq (num i) v = same_number i v
  json_eq (str s) (str t) = s == t
  json_eq (arr xs) (arr ys) = items_eq xs ys
  json_eq (obj d) (obj e) = size d == size e && fields_within d e
  json_eq u v = false

  pub items_eq : Items → Items → Bool
  items_eq nil nil = true
  items_eq (cons x xs) (cons y ys) = json_eq x y && items_eq xs ys
  items_eq xs ys = false

  pub fields_within : Fields → Fields → Bool
  fields_within Fields.end e = true
  fields_within (field k v rest) e =
      has_name k e && json_eq v (value_at k e) && fields_within rest e

-- A list of texts equals itself.
pub json_eq-string_list : (xs : List String) → json_eq (string_list xs) (string_list xs) ≡ true
unfolding json_eq string_list
json_eq-string_list [] = refl
json_eq-string_list (x ∷ xs) = ground (arith, json_eq-string_list xs)

pub json_eq-str : (s : String) → json_eq (str s) (str s) ≡ true
unfolding json_eq
json_eq-str s = ground arith
