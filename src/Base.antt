-- ===== src/Base.antt =====
-- Names that every part shares: the libraries', passed on, and those of the children. Bools and
-- numeric tests are Python's `bool`, `<`, `<=` and `==`; `Result` is a call that may raise.
mod Basics
mod Lists
pub mod Int
pub mod Dict
pub mod Set
unfoldable pub use Basics.*
unfoldable pub use Lists.*
pub use Prim.Native.Nat.{ℕ, zero, suc, ◌+◌, ◌-◌, ◌*◌, ◌/◌, ◌%◌, ◌^◌, ◌≤◌, ◌<◌}
pub use mathlib.Core.Path.{◌≡◌, refl, sym, ap, ◌∙◌}
pub use mathlib.Core.Logic.{◌≢◌, ◌↔◌, ◌⊎◌, inl, inr}
pub use mathlib.Core.Bool.{Bool, true, false, ◌&&◌, ◌||◌, not}
pub use mathlib.Core.Option.{Option, none, some}
pub use mathlib.Core.List.{List, [], ◌∷◌, ◌++◌, map}
pub use native.Mathlib.Omega.{arith}
