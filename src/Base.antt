-- ===== src/Base.antt =====
-- The names that the other modules share: the libraries', passed on, and those of the children.
mod Tests
mod Lists
mod Strings
mod Search
mod Decimal
mod Sets
mod Split
pub use Tests.*
pub use Lists.*
pub use Strings.*
pub use Search.*
pub use Decimal.*
pub use Sets.*
pub use Split.*
unfoldable pub use Decimal.{decimal, read_decimal}
unfoldable pub use Search.{index_of, index_of_from, last_index_of}
unfoldable pub use Strings.{text_eq, is_space, trim_start, trim_end, trim}
unfoldable pub use Lists.{take_last}
unfoldable pub use Sets.{to_set}
unfoldable pub use Split.{split, join, IsPiece}
pub use Prim.Native.Nat.{ℕ, zero, suc, ◌+◌, ◌-◌, ◌*◌, ◌≤◌, ◌<◌, min, max}
pub use mathlib.Core.Path.{◌≡◌, refl, sym, ap, ◌∙◌, subst}
pub use mathlib.Core.Logic.{◌≢◌, ◌↔◌, ◌⊎◌, inl, inr}
pub use mathlib.Core.Bool.{Bool, true, false, not, ◌&&◌, ◌||◌}
pub use mathlib.Core.Option.{Option, none, some}
pub use mathlib.Core.List.{List, [], ◌∷◌, ◌++◌, map}
pub use native.Mathlib.Omega.{arith}
