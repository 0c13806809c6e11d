-- ===== src/Common.antt =====
-- The names that the other modules share: the libraries' names, passed on, and those of the
-- children. Compare: Boolean tests on numbers. Lists: C arrays. Maybe: faults. Bytes: C strings and <ctype.h>.
-- Int: signed numbers. Search: the binary search over an ordered table.
mod Compare
mod Lists
mod Maybe
pub mod Int
pub mod Bytes
pub mod Search
pub mod Check
pub mod Number
pub mod Every
pub use Compare.*
unfoldable pub use Lists.*
pub use Maybe.*
pub use Prim.Native.Nat.{ℕ, zero, suc, ◌+◌, ◌-◌, ◌*◌, ◌/◌, ◌%◌, ◌^◌, ◌≤◌, ◌<◌}
pub use mathlib.Core.Path.{◌≡◌, refl, sym, ap, ◌∙◌}
pub use mathlib.Core.Logic.{◌≢◌, ◌↔◌, ◌⊎◌, inl, inr}
pub use mathlib.Core.Bool.{Bool, true, false, not, ◌&&◌, ◌||◌}
pub use mathlib.Core.Option.{Option, none, some}
pub use mathlib.Core.List.{List, [], ◌∷◌, ◌++◌, map}
pub use native.Mathlib.Omega.{arith}
