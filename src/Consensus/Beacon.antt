-- ===== src/Consensus/Beacon.antt =====
-- `class BeaconFinality` of consensus/finality_beacon.py. Slots, weights and stakes are never below
-- 0. `int(self.total_stake * self.threshold_ratio)` is floating-point arithmetic: the function of
-- the stake that it computes is the parameter `threshold`.
mod Defs
pub mod Finality
unfoldable pub use Defs.*
