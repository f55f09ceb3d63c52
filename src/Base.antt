-- ===== src/Base.antt =====
-- Names that every component shares: the numbers, lists and options of the libraries, Boolean
-- tests, lists with native indices, C strings and the integers of strtol.
mod Tests
mod Lists
pub mod Int
pub mod Bytes
pub mod Strtol
pub mod Lines
pub mod Sort
pub use Tests.*
unfoldable pub use Lists.{erase_at}
pub use Lists.*
pub use Prim.Native.Nat.{ℕ, zero, suc, ◌+◌, ◌-◌, ◌*◌, ◌/◌, ◌%◌, ◌^◌, ◌≤◌, ◌<◌, min}
pub use mathlib.Core.Path.{◌≡◌, refl, sym, ap, ap₂, ◌∙◌}
pub use mathlib.Core.Logic.{◌≢◌, ◌↔◌, ◌⊎◌, inl, inr}
pub use mathlib.Core.Bool.{Bool, true, false, ◌&&◌, ◌||◌, not}
pub use mathlib.Core.Option.{Option, none, some}
pub use mathlib.Core.List.{List, [], ◌∷◌, ◌++◌, map, append-nil, append_assoc}
pub use native.Mathlib.Omega.{arith}
