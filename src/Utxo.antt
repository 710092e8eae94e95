-- ===== src/Utxo.antt =====
-- The withdrawal relayer of the UTXO chains, agents/utxo.
pub mod Base58
pub mod Zcash
pub mod Coins
pub mod Watcher
pub mod Delegate
pub mod Worker
pub mod Store
mod Example
