-- ===== src/Scan/ZcashTx.antt =====
-- agents/scan/src/chains/zcash/tx.ts: the transparent part of a raw transaction.
mod Reader
mod Script
mod Parse
mod Pushes
mod Owners
mod RoundTrip
mod Example
