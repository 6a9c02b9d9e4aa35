-- ===== src/Consensus.antt =====
-- The parts of consensus/: epochs, the latest-message table, slashing, the two finality gadgets,
-- the fork choice and the engines that join them.
pub mod Epoch
pub mod Lmd
pub mod Slashing
pub mod Casper
pub mod Beacon
pub mod Tree
pub mod Reorg
pub mod Reports
pub mod Engine
mod Tests
mod EngineTests
mod ReorgTests
