-- ===== src/Prelude.antt =====
-- The names that the other modules share: the libraries', passed on, and those of the children.
mod Tests
mod Lists
mod Words
mod Elems
pub mod Text
pub mod Bits
pub use Tests.*
pub use Lists.*
pub use Words.*
unfoldable pub use Elems.{elem, remove}
pub use Elems.{times, IsNodup, elem-remove, remove-IsNodup, length-remove, All-remove, elem-lt}
pub use Prim.Native.Nat.{ℕ, zero, suc, ◌+◌, ◌-◌, ◌*◌, ◌/◌, ◌%◌, ◌^◌, ◌≤◌, ◌<◌}
pub use Prim.Native.Nat.{bit_and, bit_or, bit_xor, min}
pub use mathlib.Core.Path.{◌≡◌, refl, sym, ap, ap₂, subst, subst₂, ◌∙◌, fun_ext}
pub use mathlib.Core.Logic.{◌↔◌, ◌≢◌, ◌⊎◌, inl, inr}
pub use mathlib.Core.Bool.{Bool, true, false, not, ◌&&◌, ◌||◌}
pub use mathlib.Core.Option.{Option, none, some}
pub use mathlib.Core.List.{List, [], ◌∷◌, ◌++◌, map, append-nil, append_assoc}
pub use native.Mathlib.Omega.{arith}
