-- ===== src/Utxo/Store.antt =====
-- agents/utxo/src/apps/relayer/store.ts: the withdrawal records in Redis, and `onWithdrawal` of app.ts, which adds them.
-- Redis is an interface with the laws that the store relies on; a record that expires is out of the
-- model, whose time ends before the 30 days do. JSON is a pair of functions.
mod Redis
mod Records
mod View
mod Consistent
mod Listed
mod Events
mod Example
