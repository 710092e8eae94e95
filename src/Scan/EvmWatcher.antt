-- ===== src/Scan/EvmWatcher.antt =====
-- agents/scan/src/chains/evm/watcher.ts: `EvmWatcher`, from the head that a sweep takes to the rows and the cursors that it
-- leaves.
mod Fetcher
mod Ranges
mod Lookups
mod Sweep
mod Stamps
mod Written
mod Covered
mod Indexed
mod Example
