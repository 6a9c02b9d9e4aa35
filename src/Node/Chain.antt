-- ===== src/Node/Chain.antt =====
-- core/blockchain.py.
pub mod State
pub mod Checks
pub mod Apply
pub mod BlockChecks
pub mod Add
pub mod Dicts
pub mod Make
pub mod Rollback
pub mod Supply
pub mod Transfer
pub mod Minting
pub mod Accepted
pub mod Proposals
pub mod Refused
pub mod Links
pub mod Floor
pub mod Nonces
pub mod Select
pub mod Imports
