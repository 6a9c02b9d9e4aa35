-- ===== src/Features.antt =====
-- The features beside the chain (features/).
pub mod Multisig
pub mod Authority
mod Tests
