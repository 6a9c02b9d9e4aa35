-- ===== src/StateEngine.antt =====
-- `class StateEngine` of execution/state_engine.py: the state transition of a block.
mod Defs
pub mod Supply
pub mod Accounts
pub mod Blocks
mod Tests
unfoldable pub use Defs.*
