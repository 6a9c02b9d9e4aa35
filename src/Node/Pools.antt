-- ===== src/Node/Pools.antt =====
-- runtime/pool_locks.py.
pub mod Locks
pub mod Votes
pub mod Release
