-- ===== src/Scan/EvmWatcher/Sweep.antt =====
-- agents/scan/src/chains/evm/watcher.ts: the writer, `tick` and `ingest`. Of a sweep the model keeps what it leaves in the
-- database and in the cache; nudges to readers and log lines are left out. A cursor is the first
-- block that it has not covered.
use whm.Prelude.{ℕ, ◌+◌, ◌-◌}
use whm.Prelude.{Bool, true, false, not, ◌&&◌, Option, none, some}
use whm.Prelude.{List, [], ◌∷◌, map}
use whm.Prelude.{ltb, if◌then◌else◌}
use whm.Prelude.Text.{number_key, text_key, bytes_eq, to_string}
use whm.Prelude.Assoc.{get}
use whm.Scan.Route.{Text}
use whm.Scan.Store.{RawEvent, Store, insert_event, Cursor, Rewind, apply_rewinds}
use whm.Scan.EvmWatcher.Fetcher.{Chunk, Pushed, fetcher}
use whm.Scan.EvmWatcher.Lookups.{Answer, Times, block_times, senders}

-- `RawLog`, with the numbers read.
pub record RawLog : Type 0 where
  pub address : Text
  pub topics : List Text
  pub payload : Text
  pub block_number : ℕ
  pub transaction_hash : Text
  pub log_index : ℕ

pub record Watch : Type 0 where
  pub role : Text
  pub id : Option Text
  pub from : ℕ
  pub at_addresses : List Text
  pub topics : List (List Text)
  pub sender : Bool

-- The node behind the client, as it answers in a sweep.
pub record Node : Type 0 where
  pub get_logs : List Text → List (List Text) → ℕ → ℕ → Option (List RawLog)
  pub get_block : ℕ → Answer ℕ
  pub get_transaction : Text → Answer Text

-- `EvmChain`
pub record Config : Type 0 where
  pub name : Text
  pub chunk_size : ℕ
  pub concurrency : ℕ
  pub confirmations : ℕ
  pub subscribed : Bool

pub record State : Type 0 where
  pub store : Store
  pub cursors : List Cursor
  pub times : Times

or_role : Option Text → Text → Text
or_role none role = role
or_role (some id) role = id

unfoldable pub cursor_id : Watch → Text
unfolding or_role
cursor_id w = or_role w.id w.role

unfoldable pub load_cursor : Text → List Cursor → Option ℕ
load_cursor role [] = none
load_cursor role (c ∷ cursors) =
    if bytes_eq c.role role then some c.next_block else load_cursor role cursors

-- `ON CONFLICT (chain, role) DO UPDATE`
unfoldable pub save_cursor : Text → ℕ → List Cursor → List Cursor
save_cursor role next [] = record { role = role; next_block = next } ∷ []
save_cursor role next (c ∷ cursors) =
    if bytes_eq c.role role
    then record { role = c.role; next_block = next } ∷ cursors
    else c ∷ save_cursor role next cursors

unfoldable pub or_zero : Option ℕ → ℕ
or_zero none = 0
or_zero (some t) = t

-- `times.get(BigInt(l.blockNumber)) ?? 0`
unfoldable pub stamp : Times → ℕ → ℕ
unfolding or_zero
stamp times block = or_zero (get block times)

unfoldable pub raw_event : Times → List (Text × Text) → RawLog → RawEvent
raw_event times from l = record {
  tx_hash = l.transaction_hash;
  log_index = l.log_index;
  address = l.address;
  block_number = to_string l.block_number;
  block_timestamp = stamp times l.block_number;
  topics = l.topics;
  payload = l.payload;
  sender = get l.transaction_hash from;
  extrinsic = none;
}

-- `insertEvents`, where the database may refuse a row: what came before it stays.
unfoldable pub insert_until : (RawEvent → Bool) → Text → List RawEvent → Store → Store × Bool
insert_until accepts chain [] store = (store, true)
insert_until accepts chain (e ∷ es) store =
    let rest = insert_until accepts chain es (insert_event chain e store) in
    if accepts e then rest else (store, false)

unfoldable pub or_from : Option ℕ → ℕ → ℕ
or_from none from = from
or_from (some next) from = next

-- `loadCursor(…) ?? w.from - 1n`
unfoldable pub first_block : Watch → List Cursor → ℕ
unfolding or_from
first_block w cursors = or_from (load_cursor (cursor_id w) cursors) w.from

-- `HEAD_STALE_MS`
abbrev pub head_stale_ms : ℕ
head_stale_ms = 60_000

module _ (cfg : Config) where
  unfoldable pub confirmed : ℕ → ℕ
  confirmed tip = if ltb cfg.confirmations tip then tip - cfg.confirmations else 0

  -- `latestSafe`
  unfoldable pub latest_safe : Option ℕ → Option ℕ
  latest_safe none = none
  latest_safe (some tip) = some (confirmed tip)

  unfoldable pub from_tip : Option ℕ → Option ℕ → Option ℕ
  from_tip none asked = latest_safe asked
  from_tip (some tip) asked =
      if ltb cfg.confirmations tip then some (tip - cfg.confirmations) else latest_safe asked

  unfoldable pub is_stale : ℕ → ℕ → Bool
  is_stale now last_head_at = cfg.subscribed && ltb head_stale_ms (now - last_head_at)

  -- The head that the sweep runs to; `asked` is the node's answer, should it be asked.
  unfoldable pub safe_head : ℕ → ℕ → Option ℕ → Option ℕ → Option ℕ
  safe_head now last_head_at tip asked =
      if cfg.subscribed && not (is_stale now last_head_at)
      then from_tip tip asked
      else latest_safe asked

module _ (cfg : Config) (node : Node) (accepts : RawEvent → Bool) where
  unfoldable pub ask_senders : Watch → List RawLog → List (Text × Text) × Bool
  ask_senders w logs =
      if w.sender
      then senders node.get_transaction cfg.concurrency (map (λ l. l.transaction_hash) logs)
      else ([], true)

  unfoldable pub put_store : State → Store × Bool → State × Bool
  put_store st (store, done) = (record st { store = store }, done)

  -- Behind the `Promise.all`, which throws if one of the two lookups does.
  unfoldable pub insert_logs :
      List RawLog → State → Times × Bool → List (Text × Text) × Bool → State × Bool
  unfolding put_store
  insert_logs logs st (times, false) (from, told) = (record st { times = times }, false)
  insert_logs logs st (times, true) (from, false) = (record st { times = times }, false)
  insert_logs logs st (times, true) (from, true) =
      put_store (record st { times = times })
        (insert_until accepts cfg.name (map (raw_event times from) logs) st.store)

  unfoldable pub write : Watch → List RawLog → State → State × Bool
  write w [] st = (st, true)
  write w (l ∷ logs) st =
      insert_logs (l ∷ logs) st
        (block_times node.get_block cfg.concurrency (map (λ k. k.block_number) (l ∷ logs)) st.times)
        (ask_senders w (l ∷ logs))

  -- The chunk's cursor, and the chunks that follow, unless the write threw.
  unfoldable pub checkpoint : Watch → ℕ → (State → State × Bool) → State × Bool → State × Bool
  checkpoint w next more (st, false) = (st, false)
  checkpoint w next more (st, true) =
      more (record st { cursors = save_cursor (cursor_id w) next st.cursors })

  unfoldable pub writer : Watch → List (Chunk RawLog) → State → State × Bool
  writer w [] st = (st, true)
  writer w (chunk ∷ chunks) st =
      checkpoint w (chunk.end_block + 1) (writer w chunks) (write w chunk.logs st)

  -- `if (fetchErr.e) throw fetchErr.e`
  unfoldable pub rethrow : Bool → State × Bool → State × Bool
  rethrow fetched (st, written) = (st, written && fetched)

  unfoldable pub pipelines : Watch → Pushed RawLog → State → State × Bool
  pipelines w (chunks, fetched) st = rethrow fetched (writer w chunks st)

  unfoldable pub tick : Watch → ℕ → State → State × Bool
  tick w safe st =
      let next = first_block w st.cursors in
      if ltb safe next
      then (st, true)
      else pipelines w
          (fetcher (node.get_logs w.at_addresses w.topics) cfg.chunk_size safe cfg.concurrency next)
          st

  -- One watch after the other; a throw leaves the others out.
  unfoldable pub tick_all : List Watch → ℕ → State × Bool → State × Bool
  tick_all ws safe (st, false) = (st, false)
  tick_all [] safe (st, true) = (st, true)
  tick_all (w ∷ ws) safe (st, true) = tick_all ws safe (tick w safe st)

  unfoldable pub sweep_to : List Watch → List Rewind → State → Option ℕ → State × Bool
  sweep_to ws rewinds st none = (st, false)
  sweep_to ws rewinds st (some safe) =
      tick_all ws safe
        (record st { cursors = apply_rewinds (map cursor_id ws) rewinds st.cursors }, true)

  -- A sweep that is not turned away by one under way.
  unfoldable pub ingest :
      List Watch → List Rewind → ℕ → ℕ → Option ℕ → Option ℕ → State → State × Bool
  ingest ws rewinds now last_head_at tip asked st =
      sweep_to ws rewinds st (safe_head cfg now last_head_at tip asked)
