-- ===== src/Base.antt =====
-- The names that the other modules share: the libraries', passed on, and those of the children.
mod Tests
mod Lists
mod Memory
mod Orders
mod Arrays
pub mod Bits
pub mod Words
mod Codes
mod Prefixes
pub use Codes.{
  Errno, unset, einval, enospc, eagain, enomem, Status, ok, error, Element, flip_sign, cmp_le,
  cmp_gt, cmp_lt, cmp_eq, IsOrder, ◌≼◌,
}
unfoldable pub use Codes.{alloc}
pub use Arrays.*
pub use Prefixes.*
pub use Orders.*
pub use Tests.*
pub use Lists.*
pub use Memory.{
  Exec, done, fault, out_of_fuel, ◌>>=◌, load-done, store-done, store-fault, load-fault, Ends, ends,
  Ends-bind, Ends-map, Ends-if, Ends-if_and, Ends-inv, Ends-assoc,
}
unfoldable pub use Memory.{load, store}
pub use Prim.Native.Nat.{ℕ, zero, suc, ◌+◌, ◌-◌, ◌*◌, ◌/◌, ◌%◌, ◌^◌, ◌≤◌, ◌<◌, min, max, Ordering}
pub use mathlib.Core.Path.{◌≡◌, refl, sym, ap, ap₂, ◌∙◌}
pub use mathlib.Core.Logic.{◌≢◌, ◌↔◌, ◌⊎◌, inl, inr}
pub use mathlib.Core.Bool.{Bool, true, false, not, ◌&&◌, ◌||◌}
pub use mathlib.Core.Option.{Option, none, some}
pub use mathlib.Core.List.{List, [], ◌∷◌, ◌++◌, map, Perm}
pub use native.Mathlib.Omega.{arith}
