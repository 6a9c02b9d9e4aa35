-- ===== src/Consensus/Engine.antt =====
-- The three engines of consensus/ that join the latest-message table, a finality gadget and, in
-- one of them, slashing.
pub mod Casper
pub mod Replay
pub mod Beacon
pub mod Slashing
