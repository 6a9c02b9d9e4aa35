-- ===== src/Node/Mempool.antt =====
-- blockchain/mempool.py.
mod Defs
mod Size
pub mod Within
pub mod Best
mod Tests
unfoldable pub use Defs.*
