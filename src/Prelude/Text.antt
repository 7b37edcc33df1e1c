-- ===== src/Prelude/Text.antt =====
-- What the source uses of Python's `str`: truth value, `strip`, slices, `join`.
use Prim.Native.Nat.{ℕ, zero, suc}
use Prim.Native.Char.{Char, code}
use Prim.Native.String
use Prim.Native.String.{String}
use mathlib.Core.Bool.{Bool, true, false, ◌&&◌, ◌||◌}
use mathlib.Core.Path.{◌≡◌}
use mathlib.Core.Logic.{◌≢◌}
use text.Mathlib.Text
use text.Mathlib.TextEquality.{eq_iff}
use mathlib.Core.List.{List, [], ◌∷◌}
use mathlib.Core.Option.{Option, none, some}
use ragsistemi.Prelude.Tests.{leb, ◌==◌, nat_eq, if◌then◌else◌}

-- `bool(s)`
abbrev pub truthy : String → Bool
truthy String.[] = false
truthy (String.◌∷◌ c s) = true

-- `c.isspace()`
unfoldable pub is_space : Char → Bool
is_space c =
    let n = code c in
    between 9 13 n
    || between 28 32 n
    || between 133 133 n
    || between 160 160 n
    || between 5760 5760 n
    || between 8192 8202 n
    || between 8232 8233 n
    || between 8239 8239 n
    || between 8287 8287 n
    || between 12288 12288 n
  where
    between : ℕ → ℕ → ℕ → Bool
    between lo hi n = leb lo n && leb n hi

-- `not s.strip()`
unfoldable pub is_blank : String → Bool
unfolding is_space
is_blank String.[] = true
is_blank (String.◌∷◌ c s) = is_space c && is_blank s

-- `s[:n]`
unfoldable pub take_chars : ℕ → String → String
take_chars zero s = String.[]
take_chars (suc n) String.[] = String.[]
take_chars (suc n) (String.◌∷◌ c s) = String.◌∷◌ c (take_chars n s)

-- `"".join(parts)`, and an f-string by its parts
unfoldable pub concat : List String → String
concat [] = ""
concat (s ∷ ss) = String.◌++◌ s (concat ss)

-- `sep.join(parts)`
unfoldable pub join_with : String → List String → String
unfolding concat
join_with sep [] = ""
join_with sep (s ∷ []) = s
join_with sep (s ∷ t ∷ ss) = concat (s ∷ sep ∷ join_with sep (t ∷ ss) ∷ [])

-- `all(parts)` of strings
abbrev pub all_truthy : List String → Bool
all_truthy [] = true
all_truthy (s ∷ ss) = truthy s && all_truthy ss

-- two literals that differ: `text_ne "a" "b" refl`
pub text_ne : (s t : String) → Text.◌==◌ s t ≡ false → s ≢ t
text_ne s t h = λ p. cc (h, (eq_iff s t).1 p)

-- `s.lstrip(chars)` and `s.rstrip(chars)`, for the characters that `p` tells
unfoldable pub lstrip : (Char → Bool) → String → String
lstrip p String.[] = String.[]
lstrip p (String.◌∷◌ c s) = let rest = lstrip p s in if p c then rest else String.◌∷◌ c s

attach : (Char → Bool) → Char → String → String
attach p c String.[] = if p c then String.[] else String.◌∷◌ c String.[]
attach p c (String.◌∷◌ d s) = String.◌∷◌ c (String.◌∷◌ d s)

unfoldable pub rstrip : (Char → Bool) → String → String
unfolding attach
rstrip p String.[] = String.[]
rstrip p (String.◌∷◌ c s) = attach p c (rstrip p s)

-- `s.strip()`
unfoldable pub strip : String → String
unfolding lstrip rstrip is_space
strip s = lstrip is_space (rstrip is_space s)

-- the parts of a text before and after its first `c`, where it has one
unfoldable pub partition : ℕ → String → Option (String × String)
unfolding nat_eq
partition c String.[] = none
partition c (String.◌∷◌ d s) =
    let rest = partition c s in
    if code d == c
    then some (String.[], s)
    else elim rest [ none ↦ none | some (a, b) ↦ some (String.◌∷◌ d a, b) ]

-- the first line put before the others
push_char : Char → List String → List String
push_char c [] = String.◌∷◌ c String.[] ∷ []
push_char c (l ∷ ls) = String.◌∷◌ c l ∷ ls

-- `s.split(sep)` at a single character
unfoldable pub split_at : ℕ → String → List String
unfolding push_char nat_eq
split_at c String.[] = "" ∷ []
split_at c (String.◌∷◌ d s) =
    let rest = split_at c s in if code d == c then "" ∷ rest else push_char d rest

-- the characters at which `str.splitlines` ends a line
unfoldable pub ends_line : ℕ → Bool
unfolding nat_eq
ends_line n = leb 10 n && leb n 13 || leb 28 n && leb n 30 || n == 133 || n == 8232 || n == 8233

-- `s.splitlines()`: a carriage return and a line feed end one line, and no empty line follows the last
unfoldable pub split_lines : String → List String
unfolding push_char ends_line nat_eq
split_lines String.[] = []
split_lines (String.◌∷◌ c String.[]) =
    if ends_line (code c) then "" ∷ [] else String.◌∷◌ c String.[] ∷ []
split_lines (String.◌∷◌ c (String.◌∷◌ d s)) =
    let rest = split_lines (String.◌∷◌ d s) in
    if code c == 13 && code d == 10
    then rest
    else if ends_line (code c)
    then "" ∷ rest
    else push_char c rest
