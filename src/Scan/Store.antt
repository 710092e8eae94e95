-- ===== src/Scan/Store.antt =====
-- agents/scan/src/db.ts, the writer's side: storing one chain's events, and the rewinds of its cursors. The
-- events stand in the order of their sequences. A cursor is kept as the first block it has not
-- covered, one above the source's block number.
pub mod Growth
pub mod Stored
pub mod Rewinds
mod Example
use whm.Prelude.{ℕ, zero, suc, ◌+◌, ◌-◌, ◌*◌, ◌/◌, ◌%◌, ◌^◌, ◌≤◌, ◌<◌, min, String}
use whm.Prelude.{◌≡◌, refl, sym, ap, ◌∙◌, ◌≢◌, ◌↔◌, ◌⊎◌, inl, inr, arith}
use whm.Prelude.{Bool, true, false, not, ◌&&◌, ◌||◌, Option, none, some}
use whm.Prelude.{List, [], ◌∷◌, ◌++◌, map, append-nil, append_assoc}
use whm.Prelude.{ltb, leb, ◌==◌, if◌then◌else◌, ltb→lt, lt→ltb, ==_iff, Bool-cases, Option-cases}
use whm.Prelude.{length, get_elem?, take, drop, replicate, All, All-append}
use whm.Prelude.{length-append, take-append-drop, length-take, length-drop, length-replicate}
use whm.Prelude.{take-append, drop-append}
use whm.Prelude.{str_eq, eq_iff, eq_refl}
use whm.Prelude.Text.{bytes_eq, to_lower_case, codes}
use whm.Scan.Route.{Text, EventRow, includes}

-- `RawEvent`, as ingest hands it over.
pub record RawEvent : Type 0 where
  pub tx_hash : Text
  pub log_index : ℕ
  pub address : Text
  pub block_number : Text
  pub block_timestamp : ℕ
  pub topics : List Text
  pub payload : Text
  pub sender : Option Text
  pub extrinsic : Option Text

unfoldable pub lower_sender : Option Text → Option Text
lower_sender none = none
lower_sender (some s) = some (to_lower_case s)

-- The row that is inserted, under the next sequence.
unfoldable pub row_of : Text → ℕ → RawEvent → EventRow
row_of chain seq e = record {
  seq = seq;
  chain = chain;
  tx_hash = e.tx_hash;
  log_index = e.log_index;
  address = to_lower_case e.address;
  block_number = e.block_number;
  block_timestamp = e.block_timestamp;
  topics = e.topics;
  payload = e.payload;
  sender = lower_sender e.sender;
  extrinsic = e.extrinsic;
}

-- `ON CONFLICT (chain, tx_hash, log_index)`
unfoldable pub is_same : RawEvent → EventRow → Bool
is_same e row = bytes_eq row.tx_hash e.tx_hash && (row.log_index == e.log_index)

unfoldable pub is_stored : List EventRow → RawEvent → Bool
is_stored [] e = false
is_stored (row ∷ rows) e = is_same e row || is_stored rows e

-- `DO UPDATE SET extrinsic` where the stored one is null and the new one is not.
unfoldable pub filled : Option Text → Option Text → Option Text
filled none new = new
filled (some old) new = some old

unfoldable pub fill_extrinsic : RawEvent → List EventRow → List EventRow
fill_extrinsic e [] = []
fill_extrinsic e (row ∷ rows) =
    (if is_same e row then record row { extrinsic = filled row.extrinsic e.extrinsic } else row)
    ∷ fill_extrinsic e rows

-- The events and the value of the sequence, which a conflict uses up too.
abbrev pub Store : Type 0
Store = List EventRow × ℕ

unfoldable pub insert_event : Text → RawEvent → Store → Store
insert_event chain e (rows, next) =
    (if is_stored rows e then fill_extrinsic e rows else rows ++ row_of chain next e ∷ [], next + 1)

unfoldable pub insert_events : Text → List RawEvent → Store → Store
insert_events chain [] store = store
insert_events chain (e ∷ es) store = insert_events chain es (insert_event chain e store)

pub record Cursor : Type 0 where
  pub role : Text
  pub next_block : ℕ

pub record Rewind : Type 0 where
  pub cursor : Text
  pub block_number : ℕ

-- `cursor === "*" ? ids : [cursor]`
unfoldable pub targets : List Text → Rewind → List Text
targets ids r = if bytes_eq r.cursor (codes "*") then ids else r.cursor ∷ []

-- `LEAST(block_number, $3::bigint - 1)`
unfoldable pub lower : List Text → ℕ → List Cursor → List Cursor
lower roles block [] = []
lower roles block (c ∷ cursors) =
    (if includes roles c.role then record c { next_block = min c.next_block block } else c)
    ∷ lower roles block cursors

-- The rewinds asked for on the chain, in the order in which they are deleted.
unfoldable pub apply_rewinds : List Text → List Rewind → List Cursor → List Cursor
apply_rewinds ids [] cursors = cursors
apply_rewinds ids (r ∷ rs) cursors =
    apply_rewinds ids rs (lower (targets ids r) r.block_number cursors)
