-- ===== src/Base.antt =====
-- The names that the other modules share: the libraries', passed on, and those of the children.
mod Tests
mod Lists
pub mod Int
mod Keys
mod Mapping
mod Outcome
pub mod Host
mod Time
mod Sort
pub mod Method
mod Predicates
mod Counts
pub use Tests.*
pub use Lists.*
pub use Keys.{Eq, ◌=?◌, nat_eq, Text, codes, text_beq_iff, text_eq}
unfoldable pub use Keys.{text_beq, text_ltb, starts_with, decimal_text}
pub use Mapping.*
pub use Outcome.*
unfoldable pub use Sort.{sort, distinct}
pub use Sort.{insert_sorted, member}
pub use Predicates.*
pub use Counts.*
pub use Time.*
pub use Prim.Native.Nat.{ℕ, zero, suc, ◌+◌, ◌-◌, ◌*◌, ◌/◌, ◌%◌, ◌^◌, ◌≤◌, ◌<◌, min}
pub use mathlib.Core.Path.{◌≡◌, refl, sym, ap, ap₂, ◌∙◌, subst}
pub use mathlib.Core.Logic.{◌≢◌, ◌↔◌, ◌⊎◌, inl, inr}
pub use mathlib.Core.Bool.{Bool, true, false, not, ◌&&◌, ◌||◌}
pub use mathlib.Core.Option.{Option, none, some}
pub use mathlib.Core.List.{List, [], ◌∷◌, ◌++◌, map, foldl}
pub use native.Mathlib.Omega.{arith}
