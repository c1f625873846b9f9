-- ===== src/Common.antt =====
-- The names that the other modules share: the libraries', passed on, and those of the children.
mod Tests
mod Lists
mod Words
mod Results
mod Bytes
mod Decimal
pub use Tests.*
pub use Lists.*
pub use Words.{usize_mod, u128_mod, add_usize-eq-add, sub_usize-eq-sub}
pub use Results.*
pub use Bytes.{codes, bytes_eq, bytes_eq→eq, bytes_eq_refl, starts_with, holds_below-at}
unfoldable pub use Decimal.{show_u64, parse_u64}
unfoldable pub use Bytes.{holds_below}
unfoldable pub use Words.{add_u64, sub_u64, add_usize, sub_usize}
pub use Prim.Native.Nat.{ℕ, zero, suc, ◌+◌, ◌-◌, ◌*◌, ◌/◌, ◌%◌, ◌^◌, ◌≤◌, ◌<◌, min, max}
pub use mathlib.Core.Path.{◌≡◌, refl, sym, ap, ap₂, ◌∙◌}
pub use mathlib.Core.Logic.{◌≢◌, ◌↔◌, ◌⊎◌, inl, inr}
pub use mathlib.Core.Bool.{Bool, true, false, not, ◌&&◌, ◌||◌}
pub use mathlib.Core.Option.{Option, none, some}
pub use mathlib.Core.List.{List, [], ◌∷◌, ◌++◌, map}
pub use native.Mathlib.Omega.{arith}
