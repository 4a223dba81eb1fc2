-- ===== src/Prelude.antt =====
-- The names that the other modules share: the libraries', passed on, and those of the children,
-- which model what the program uses of Rust's standard library (chars, strings, slices).
mod Tests
mod Lists
mod Chars
mod Texts
mod TextLaws
mod Lines
mod LineLaws
mod Order
mod OrderLaws
mod Numbers
mod Utf8
mod NumberLaws
unfoldable pub use Tests.*
unfoldable pub use Lists.*
unfoldable pub use Chars.*
unfoldable pub use Texts.*
unfoldable pub use Lines.*
unfoldable pub use Numbers.*
unfoldable pub use Utf8.*
unfoldable pub use Order.*
pub use OrderLaws.*
pub use LineLaws.*
pub use TextLaws.*
pub use NumberLaws.*
pub use Prim.Native.Nat.{ℕ, zero, suc, ◌+◌, ◌-◌, ◌*◌, ◌/◌, ◌%◌, ◌^◌, ◌≤◌, ◌<◌, bit_and, bit_or}
pub use Prim.Native.Nat.{Ordering}
pub use Prim.Native.String.{String}
pub use mathlib.Core.Path.{◌≡◌, refl, sym, ap, ◌∙◌}
pub use mathlib.Core.Logic.{◌≢◌, ◌↔◌, ◌⊎◌, inl, inr}
pub use mathlib.Core.Bool.{Bool, true, false, not, ◌&&◌, ◌||◌}
pub use mathlib.Core.Option.{Option, none, some}
pub use mathlib.Core.List.{List, [], ◌∷◌, ◌++◌, map}
pub use native.Mathlib.Omega.{arith}
