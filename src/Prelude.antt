-- ===== src/Prelude.antt =====
-- The names that the other modules share: the library's, passed on, and those of the children.
mod Branch
mod Lists
mod Equality
mod Words
mod Bits
mod Order
mod Maps
mod Repeats
mod Rings
unfoldable pub use Branch.*
unfoldable pub use Lists.*
unfoldable pub use Equality.*
unfoldable pub use Words.*
unfoldable pub use Bits.*
unfoldable pub use Order.*
unfoldable pub use Maps.*
unfoldable pub use Repeats.*
unfoldable pub use Rings.*
pub use Prim.Native.Nat.{
  ℕ, zero, suc, bit_or, bit_xor, ◌+◌, ◌-◌, ◌*◌, ◌/◌, ◌%◌, ◌^◌, ◌≤◌, ◌<◌, min, max,
}
pub use Prim.Native.Nat.{compare, Ordering}
pub use Prim.Native.String.{String}
pub use mathlib.Core.Path.{◌≡◌, refl, sym, ap, ◌∙◌}
pub use mathlib.Core.Logic.{◌≢◌, ◌↔◌, ◌⊎◌, inl, inr}
pub use mathlib.Core.Bool.{Bool, true, false, not, ◌&&◌, ◌||◌}
pub use mathlib.Core.Option.{Option, none, some}
pub use mathlib.Core.List.{List, [], ◌∷◌, ◌++◌, map}
pub use native.Mathlib.Omega.{arith}
