-- ===== src/MiniVm.antt =====
-- `class MiniVM` of execution/vm.py: a gas-metered stack machine over Python's integers.
-- The stack is kept top first. An exception carries no state: the caller sees only that it was
-- raised. The `while` loop takes fuel; `MiniVm.Termination` gives a fuel that always suffices.
mod Defs
mod Gas
pub mod Termination
mod Tests
unfoldable pub use Defs.*
