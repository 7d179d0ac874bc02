-- ===== src/Prelude.antt =====
-- Names that the other modules share: the libraries', passed on, and those of the children: Boolean
-- tests and lists over the native numbers, outcomes of C++ calls that may throw.
mod Tests
mod Names
mod Lists
mod Throws
unfoldable pub use Tests.*
pub use Names.*
pub use Lists.*
unfoldable pub use Throws.*
pub use Prim.Native.Nat.{ℕ, zero, suc, ◌+◌, ◌-◌, ◌*◌, ◌/◌, ◌%◌, ◌^◌, ◌≤◌, ◌<◌, min, bit_and}
pub use Prim.Native.String.{String}
pub use mathlib.Core.Path.{◌≡◌, refl, sym, ap, ◌∙◌, subst}
pub use mathlib.Core.Logic.{◌≢◌, ◌↔◌, ◌⊎◌, inl, inr}
pub use mathlib.Core.Bool.{Bool, true, false, ◌&&◌, ◌||◌, not}
pub use mathlib.Core.Option.{Option, none, some}
pub use mathlib.Core.List.{List, [], ◌∷◌, ◌++◌, map, append-nil, append_assoc}
pub use native.Mathlib.Omega.{arith}
