-- ===== src/Canonical/Serial.antt =====
-- JSON values, and `canonical_json` of pmiri/canonical.py: sorted keys, compact separators, and no
-- escapes but those that JSON demands. Python's `dict` is a value with distinct keys.
use Prim.Native.Nat.{◌/◌, ◌%◌}
use Prim.Native.Char.{Char, code}
use Prim.Native.String
use ragsistemi.Prelude.{
  ℕ, String, Bool, true, false, List, [], ◌∷◌, Option, none, some, ltb, ◌==◌, nat_eq, if◌then◌else◌,
  concat,
}
use ragsistemi.Prelude.Order.{lt_text}
use ragsistemi.Prelude.Int.{ℤ, pos, decimal}

mutual
  pub data Json : Type 0 where
    null : Json
    bool : Bool → Json
    num : ℤ → Json
    str : String → Json
    arr : Items → Json
    obj : Fields → Json

  pub data Items : Type 0 where
    nil : Items
    cons : Json → Items → Items

  pub data Fields : Type 0 where
    end : Fields
    field : String → Json → Fields → Fields

-- `{key: value, ...}`
unfoldable pub dict : List (String × Json) → Fields
dict [] = Fields.end
dict ((k, v) ∷ rest) = field k v (dict rest)

unfoldable pub object : List (String × Json) → Json
unfolding dict
object entries = obj (dict entries)

-- `list(values)` of strings
unfoldable pub strings : List String → Items
strings [] = nil
strings (s ∷ rest) = cons (str s) (strings rest)

unfoldable pub string_list : List String → Json
unfolding strings
string_list values = arr (strings values)

-- a `str | None`
unfoldable pub optional : Option String → Json
optional none = null
optional (some s) = str s

hex_digit : ℕ → String
unfolding decimal
hex_digit n =
    if n == 10
    then "a"
    else if n == 11
    then "b"
    else if n == 12
    then "c"
    else if n == 13
    then "d"
    else if n == 14
    then "e"
    else if n == 15
    then "f"
    else decimal (pos n)

escape_char : Char → String
unfolding hex_digit concat nat_eq
escape_char c =
    let n = code c in
    if n == b'"'
    then "\\\""
    else if n == b'\\'
    then "\\\\"
    else if n == 10
    then "\\n"
    else if n == 13
    then "\\r"
    else if n == 9
    then "\\t"
    else if n == 8
    then "\\b"
    else if n == 12
    then "\\f"
    else if ltb n 32
    then concat ("\\u00" ∷ hex_digit (n / 16) ∷ hex_digit (n % 16) ∷ [])
    else String.◌∷◌ c String.[]

escape : String → String
unfolding escape_char
escape String.[] = ""
escape (String.◌∷◌ c s) = String.◌++◌ (escape_char c) (escape s)

quote : String → String
unfolding escape concat
quote s = concat ("\"" ∷ escape s ∷ "\"" ∷ [])

-- `sort_keys=True`: by key, each behind the equal ones before it
insert_field : String × String → List (String × String) → List (String × String)
insert_field (k, v) [] = (k, v) ∷ []
insert_field (k, v) ((j, w) ∷ rest) =
    let later = insert_field (k, v) rest in
    if lt_text j k then (j, w) ∷ later else (k, v) ∷ (j, w) ∷ rest

sort_fields : List (String × String) → List (String × String)
unfolding insert_field lt_text
sort_fields [] = []
sort_fields (f ∷ rest) = insert_field f (sort_fields rest)

join_items : List String → String
unfolding concat
join_items [] = ""
join_items (s ∷ []) = s
join_items (s ∷ t ∷ rest) = concat (s ∷ "," ∷ join_items (t ∷ rest) ∷ [])

print_fields : List (String × String) → List String
unfolding quote
print_fields [] = []
print_fields ((k, v) ∷ rest) = concat (quote k ∷ ":" ∷ v ∷ []) ∷ print_fields rest

print_object : List (String × String) → String
unfolding sort_fields join_items print_fields
print_object entries = concat ("{" ∷ join_items (print_fields (sort_fields entries)) ∷ "}" ∷ [])

print_array : List String → String
unfolding join_items
print_array items = concat ("[" ∷ join_items items ∷ "]" ∷ [])

unfoldable mutual
  unfolding quote decimal print_object print_array

  pub canonical_json : Json → String
  canonical_json null = "null"
  canonical_json (bool true) = "true"
  canonical_json (bool false) = "false"
  canonical_json (num i) = decimal i
  canonical_json (str s) = quote s
  canonical_json (arr items) = print_array (item_texts items)
  canonical_json (obj fields) = print_object (field_texts fields)

  pub item_texts : Items → List String
  item_texts nil = []
  item_texts (cons j rest) = canonical_json j ∷ item_texts rest

  pub field_texts : Fields → List (String × String)
  field_texts Fields.end = []
  field_texts (field k j rest) = (k, canonical_json j) ∷ field_texts rest
