-- ===== src/Consensus/Slashing.antt =====
-- `class SlashingEngine` of consensus/slashing.py.
mod Defs
pub mod Equivocation
pub mod Accounting
pub mod Events
unfoldable pub use Defs.*
