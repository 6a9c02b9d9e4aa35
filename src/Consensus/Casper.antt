-- ===== src/Consensus/Casper.antt =====
-- `class CasperFinality` of consensus/finality_casper.py. Epochs, weights and stakes are never
-- below 0. `int(self.total_stake * self.threshold_ratio)` is floating-point arithmetic: the
-- function of the stake that it computes is the parameter `threshold`.
mod Defs
unfoldable pub use Defs.*
pub mod Finality
