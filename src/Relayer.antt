-- ===== src/Relayer.antt =====
-- The VAA relayer, agents/relayer.
pub mod Revert
pub mod Queue
pub mod Ntt
pub mod SourceTx
pub mod Fees
pub mod PsmRoutes
pub mod Intent
