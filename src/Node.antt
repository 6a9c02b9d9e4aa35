-- ===== src/Node.antt =====
-- The node's own chain: core/blockchain.py over the tables of storage/database.py.
pub mod Strings
pub mod Tables
pub mod Db
pub mod Tokenomics
pub mod Pools
pub mod Chain
pub mod Tests
pub mod Mempool
