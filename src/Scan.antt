-- ===== src/Scan.antt =====
-- The indexer, agents/scan.
pub mod ZcashAddress
pub mod ZcashTx
pub mod EvmWatcher
pub mod NearWatcher
pub mod BoundedQueue
pub mod Payload
pub mod Upsert
pub mod Route
pub mod Drain
pub mod Store
mod Example
