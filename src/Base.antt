-- ===== src/Base.antt =====
-- The names that the other modules share: the libraries', passed on, and those of the children.
mod Tests
mod Lists
mod Pow
mod BitStep
mod BitField
mod Table
mod Picks
unfoldable pub use Picks.{sum}
pub use Picks.{
  All, all_nil, all_cons, Pick, pick_here, pick_there, remove_at, sum-Pick, length-Pick, All-Pick,
}
pub use Picks.{remove_at-Pick, sum-set, All-set, remove_at-set}
pub use Tests.*
pub use Lists.*
pub use Pow.*
pub use BitStep.*
pub use BitField.*
unfoldable pub use Table.{all_below}
pub use Table.{all_below_sound}
pub use Prim.Native.Nat.{ℕ, zero, suc, ◌+◌, ◌-◌, ◌*◌, ◌/◌, ◌%◌, ◌^◌, ◌≤◌, ◌<◌}
pub use Prim.Native.Nat.{bit_and, bit_or, bit_xor}
pub use mathlib.Core.Path.{◌≡◌, refl, sym, ap, ◌∙◌}
pub use mathlib.Core.Logic.{◌≢◌, ◌↔◌, ◌⊎◌, inl, inr}
pub use mathlib.Core.Bool.{Bool, true, false, ◌&&◌, ◌||◌, not}
pub use mathlib.Core.Option.{Option, none, some}
pub use mathlib.Core.List.{List, [], ◌∷◌, ◌++◌, map}
pub use native.Mathlib.Omega.{arith}
