-- ===== src/Lib.antt =====
-- Verification of the off-chain part of WHM (Wormhole Messaging): the agents under agents/ and the
-- migration runner of common/migration, both in TypeScript.
--
-- The program. Contracts on EVM chains, NEAR and Solana send and receive Wormhole messages, and the agents
-- move them: the broadcaster publishes prices, the relayer submits signed messages (VAAs) to their
-- destination, the utxo agent withdraws coins that have arrived on NEAR, the intent agent quotes and
-- settles orders, and the indexer (scan) reads the events of all chains into one store, out of which its
-- readers build the records of the features. The migration runner deploys all of it, step by step.
--
-- Which file models what. The modules are named for the parts; a module's children are named for what they
-- prove, and concrete runs stand in the modules called Example.
--   Migration.State, Migration.Runner    common/migration/types.ts and runner.ts: Migration, StepState,
--       createState, buildStepContext, loadMigration's checks (check_steps), and runMigration from the guard
--       on the stored state (prepare), --from (reset_from) and --pause-at (check_pause) to the loop over
--       the steps. The state file is the list of the writes to it.
--   Broadcaster.Staleness    agents/broadcaster/src/evm/staleness.ts.
--   Broadcaster.Loop    agents/broadcaster/src/loop.ts, big.ts and state.ts: broadcastAll, checkAndBroadcast and tick.
--   Relayer.Revert, Relayer.Queue    agents/relayer/src/engine/revert.ts and queue.ts: the queue is a state
--       between two points at which the process waits, and what it waits for comes as an event.
--   Relayer.Ntt    agents/relayer/src/engine/ntt.ts.
--   Relayer.Intent    agents/relayer/src/apps/intent/app.ts and instruction.ts, with engine/vaa.ts: handle
--       reads a settlement by Relayer.Ntt, judges a revert by Relayer.Revert, and ends at the queue.
--   Relayer.PsmRoutes    agents/relayer/src/apps/psm/routes.ts: servedRoutes.
--   Relayer.SourceTx    agents/relayer/src/engine/source-tx.ts: sourceTx with its ramp and its cache.
--   Relayer.Fees    agents/relayer/src/utils/fees.ts.
--   Scan.Payload    agents/scan/src/ingest/payload.ts. Scan.Payload.Wire writes the wire format out as an
--       encoder, against which both readers of it are proved, the relayer's and the indexer's.
--   Scan.ZcashAddress    agents/scan/src/chains/zcash/address.ts, which prints what Utxo.Zcash reads.
--   Scan.ZcashTx    agents/scan/src/chains/zcash/tx.ts: Reader, Script (pushes, signer and payee) and Parse.
--   Scan.EvmWatcher    agents/scan/src/chains/evm/watcher.ts: Fetcher and Sweep (tick and ingest), Lookups
--       (blockTimes and senders). A sweep applies the rewinds and inserts the events of Scan.Store.
--   Scan.NearWatcher    agents/scan/src/chains/near/watcher.ts: tick, from Sources and Gathered (the
--       histories) over Sorted and Follows (the loop) to the cursors; finished of fastnear.ts.
--   Scan.BoundedQueue    agents/scan/src/utils/queue.ts.
--   Scan.Upsert    agents/scan/src/flow/upsert.ts and schema.ts: reconcile on a table as a list of rows.
--   Scan.Route, Scan.Drain    agents/scan/src/flow/drain.ts with types.ts and the reader's side of db.ts. The
--       drain applies an event by reconcile of Scan.Upsert on the routes of Scan.Route.
--   Scan.Store    agents/scan/src/db.ts: insertEvents, which gives the drain's events their order, and applyRewinds.
--   Utxo.Base58, Utxo.Zcash    agents/utxo/src/chains/base58.ts and zcash.ts.
--   Utxo.Coins    agents/utxo/src/near/coins.ts.
--   Utxo.Watcher    agents/utxo/src/apps/relayer/watcher.ts: read, with the fetches it keeps in flight.
--   Utxo.Worker    agents/utxo/src/apps/relayer/worker.ts: passChain and withdraw, which picks its coin by
--       pickCoin of Utxo.Coins.
--   Utxo.Delegate    agents/utxo/src/near/delegate.ts.
--   Utxo.Store    agents/utxo/src/apps/relayer/store.ts and onWithdrawal of app.ts: Records, over the interface
--       Redis; View reads the database as a map from ids to records.
--   Prelude    shared names; lists, Boolean tests, positional numerals (Radix), texts as lists of codes
--       (Text), Node's buffers (Buffer), little-endian numbers (LittleEndian), Map and Set (Assoc).
--
-- How code is modelled. A number is a natural number, and what the source does below zero or past the end of
-- a buffer is written out. A throw is the value none, or a constructor of the model's own. Where a result
-- may also be null, the outer option is the throw. Code that waits is a function from a state and an event
-- to a state, or the list of what it does, in order. SQL is read as what it does to the rows. Hashes,
-- decoders of viem, views of contracts, localeCompare, actions of migration steps and the database's
-- refusals are parameters, and what a theorem needs of them is a hypothesis of it.
--
-- Bounds and fuel. Loops that end by a structure recurse on it. emit_digits has the number itself as its fuel,
-- since each division makes it smaller; walk has the source's own bound of 720 hours. The loop of the
-- watcher has two passes more than the distance to the safe block, the drain and the paging of coins have
-- a number of passes as an argument, and Sequential, Complete and Pages prove how many are enough.
--
-- What is not modelled. The contracts (Solidity and Rust) are other languages. Of the agents: the clients of
-- chains, databases and HTTP services, the servers, pages and command lines, which do input and output; the
-- watchers of the indexer but those of EVM chains and of NEAR, the feature flows and the intent agent
-- (agents/intent). In the parts modelled, logging, alerts, timers and configuration are left out.
pub mod Prelude
pub mod Broadcaster
pub mod Migration
pub mod Relayer
pub mod Utxo
pub mod Scan
