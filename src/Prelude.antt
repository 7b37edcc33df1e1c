-- ===== src/Prelude.antt =====
-- The names that the modules share: the libraries', passed on, and those of the children.
mod Tests
mod Lists
mod Text
mod Results
pub mod Order
pub mod Int
pub mod Dict
pub use Tests.{ltb, leb, if◌then◌else◌, Bool-cases, Option-cases, Eq, ◌==◌, ==_iff, contains}
unfoldable pub use Tests.{string_eq, nat_eq, option_eq}
pub use Lists.*
pub use Text.{truthy, all_truthy, text_ne}
unfoldable pub use Text.{
  is_space, is_blank, take_chars, concat, join_with, strip, lstrip, rstrip, partition, split_at,
  split_lines,
}
pub use Results.*
pub use Prim.Native.Nat.{ℕ, zero, suc, ◌+◌, ◌-◌, ◌*◌, ◌≤◌, ◌<◌}
pub use Prim.Native.String.{String}
pub use mathlib.Core.Path.{◌≡◌, refl, sym, ap, ◌∙◌}
pub use mathlib.Core.Logic.{◌≢◌, ◌↔◌, ◌⊎◌, inl, inr, ite}
pub use mathlib.Core.Bool.{Bool, true, false, not, ◌&&◌, ◌||◌}
pub use mathlib.Core.Option.{Option, none, some}
pub use mathlib.Core.List.{List, [], ◌∷◌, ◌++◌, map}
pub use native.Mathlib.Omega.{arith}
unfoldable pub use native.Mathlib.Decide.{ℕ_discrete}
