-- ===== src/Scan/Drain.antt =====
-- agents/scan/src/flow/drain.ts, with the reader's side of db.ts: reading the event store and merging each event
-- into the flows that claim it. A transaction gives the new database or `none`, and then nothing of it stays.
-- `moment` counts the transactions, since one that failed may pass when it is tried again.
pub mod Done
pub mod Progress
pub mod Complete
mod Example
use whm.Prelude.{ℕ, zero, suc, ◌+◌, ◌-◌, ◌*◌, ◌/◌, ◌%◌, ◌^◌, ◌≤◌, ◌<◌, min, String}
use whm.Prelude.{◌≡◌, refl, sym, ap, ◌∙◌, ◌≢◌, ◌↔◌, ◌⊎◌, inl, inr, arith}
use whm.Prelude.{Bool, true, false, not, ◌&&◌, ◌||◌, Option, none, some}
use whm.Prelude.{List, [], ◌∷◌, ◌++◌, map, append-nil, append_assoc}
use whm.Prelude.{ltb, leb, ◌==◌, if◌then◌else◌, ltb→lt, lt→ltb, ==_iff, Bool-cases, Option-cases}
use whm.Prelude.{length, get_elem?, take, drop, replicate, All, All-append}
use whm.Prelude.{length-append, take-append-drop, length-take, length-drop, length-replicate}
use whm.Prelude.{take-append, drop-append}
use whm.Prelude.{str_eq, eq_iff, eq_refl}
use whm.Prelude.Text.{bytes_eq}
use whm.Scan.Upsert.{Cell, Row, Table, Claim, Applied, reconcile, state_rank}
use whm.Scan.Route.{
  Text, Tables, EventRow, LogEvent, Leg, Flow, Route, RouteTable, log_event, get, route_key,
  or_empty,
}

abbrev pub batch_size : ℕ
batch_size = 500

unfoldable pub set_table : Tables → String → Table → Tables
set_table tables name rows = λ other. if str_eq name other then rows else tables other

pub record Change : Type 0 where
  pub flow : String
  pub applied : Applied

-- What one chain's drain reads and writes: the flows' tables, the reader's sequence on the chain, and the
-- sequences it has parked.
pub record Db : Type 0 where
  pub tables : Tables
  pub reader : ℕ
  pub dead : List ℕ

-- `INSERT INTO dead_events ... ON CONFLICT DO NOTHING`
unfoldable pub has_seq : List ℕ → ℕ → Bool
has_seq [] n = false
has_seq (x ∷ xs) n = (x == n) || has_seq xs n

unfoldable pub dead_letter : List ℕ → ℕ → List ℕ
dead_letter dead n = if has_seq dead n then dead else dead ++ n ∷ []

-- `SELECT * FROM events WHERE chain = $1 AND seq > $2 ORDER BY seq ASC LIMIT $3`, of one chain's events in
-- the order of their sequences.
unfoldable pub after : ℕ → List EventRow → List EventRow
after from [] = []
after from (row ∷ rows) =
    let rest = after from rows in if ltb from row.seq then row ∷ rest else rest

abbrev pub take_events : ℕ → List EventRow → List EventRow
take_events from events = take batch_size (after from events)

unfoldable pub noted : String → Option Applied → List Change
noted flow none = []
noted flow (some a) = record { flow = flow; applied = a } ∷ []

unfoldable pub stored : String → Table × Option Applied → Tables → Tables × List Change
stored name (rows, a) tables = (set_table tables name rows, noted name a)

unfoldable pub and_more :
    List Change → Option (Tables × List Change) → Option (Tables × List Change)
and_more out none = none
and_more out (some (tables, more)) = some (tables, out ++ more)

-- `await` of one application, and then of the next.
unfoldable pub chain :
    Option (Tables × List Change)
    → (Tables → Option (Tables × List Change))
    → Option (Tables × List Change)
unfolding and_more
chain none next = none
chain (some (tables, out)) next = and_more out (next tables)

unfoldable pub last_seq : ℕ → List EventRow → ℕ
last_seq n [] = n
last_seq n (row ∷ rows) = last_seq row.seq rows

unfoldable pub commit :
    Db → List EventRow → Option (Tables × List Change) → Option (Db × List Change)
unfolding last_seq
commit db rows none = none
commit db rows (some (tables, out)) =
    some (record db { tables = tables; reader = last_seq db.reader rows }, out)

-- What a row by row retry has done: the database, the changes that are to be announced, the next
-- moment, and whether it went on to the end.
abbrev pub Retry : Type 0
Retry = Db × List Change × ℕ × Bool

unfoldable pub announced : List Change → Retry → Retry
announced out (db, more, moment, alive) = (db, out ++ more, moment, alive)

-- A batch that came through, or what is done about one that did not.
unfoldable pub attempt : Option (Db × List Change) → (Db → Retry) → Retry → Retry
unfolding announced
attempt none next otherwise = otherwise
attempt (some (db, out)) next otherwise = announced out (next db)

unfoldable pub step_over : Db × Bool → ℕ → (Db → Retry) → Retry
step_over (db, true) moment next = next db
step_over (db, false) moment next = (db, [], moment, false)

-- The loop goes on after a retry that came through; a throw leaves its changes unannounced.
unfoldable pub go_on : Retry → (ℕ → Db → Retry) → Retry
unfolding announced
go_on (db, out, moment, alive) next =
    let rest = next moment db in if alive then announced out rest else (db, [], moment, false)

-- `decodeEventLog` or `JSON.parse`, which may throw, is a parameter.
module _ {A : Type 0} (decode : Leg A → EventRow → Option (String × A)) where
  -- One leg of an event, once it is decoded and its key is known.
  unfoldable pub apply_leg :
      Flow A
      → Leg A
      → EventRow
      → Option (Option String)
      → List Cell
      → Tables
      → Option (Tables × List Change)
  unfolding stored noted
  apply_leg flow leg row none patch tables = none
  apply_leg flow leg row (some none) patch tables = some (tables, [])
  apply_leg flow leg row (some (some key)) patch tables =
      let c : Claim = record { state = leg.state; values = patch } in
      some (
        stored flow.name (reconcile (state_rank flow.states) leg.key_by key c (tables flow.name))
          tables)

  unfoldable pub apply_decoded :
      Flow A → Leg A → EventRow → Option (String × A) → Tables → Option (Tables × List Change)
  apply_decoded flow leg row none tables = none
  apply_decoded flow leg row (some (event_name, args)) tables =
      let ev = log_event leg row event_name in
      apply_leg flow leg row (leg.key args ev tables) (leg.patch args ev) tables

  -- Every leg that claims an event, in turn.
  unfoldable pub apply_routes : List (Route A) → EventRow → Tables → Option (Tables × List Change)
  unfolding chain
  apply_routes [] row tables = some (tables, [])
  apply_routes ((flow, leg) ∷ routes) row tables =
      chain (apply_decoded flow leg row (decode leg row) tables) (λ t. apply_routes routes row t)

  module _ (routes : RouteTable A) where
    -- `apply`: one event.
    unfoldable pub apply : EventRow → Tables → Option (Tables × List Change)
    apply row tables = elim row.topics [
      | [] ↦ some (tables, [])
      | topic0 ∷ more ↦
          apply_routes (or_empty (get routes (route_key row.chain row.address topic0))) row tables
    ]

    unfoldable pub apply_rows : List EventRow → Tables → Option (Tables × List Change)
    unfolding chain
    apply_rows [] tables = some (tables, [])
    apply_rows (row ∷ rows) tables = chain (apply row tables) (λ t. apply_rows rows t)

    module _ (fails : ℕ → Bool) where
      -- The rows and the reader's place, or nothing.
      unfoldable pub apply_batch : ℕ → Db → List EventRow → Option (Db × List Change)
      unfolding commit
      apply_batch moment db rows =
          if fails moment then none else commit db rows (apply_rows rows db.tables)

      -- The dead letter, then the reader's step: two writes outside a transaction, and each may throw.
      unfoldable pub park : ℕ → Db → EventRow → Db × Bool
      park moment db row =
          let parked = record db { dead = dead_letter db.dead row.seq } in
          if fails moment
          then (db, false)
          else if fails (moment + 1)
          then (parked, false)
          else (record parked { reader = row.seq }, true)

      -- Two attempts for each row.
      unfoldable pub apply_each_row : ℕ → Db → List EventRow → Retry
      unfolding attempt step_over
      apply_each_row moment db [] = (db, [], moment, true)
      apply_each_row moment db (row ∷ rows) =
          attempt (apply_batch moment db (row ∷ [])) (λ d. apply_each_row (moment + 1) d rows)
            (attempt (apply_batch (moment + 1) db (row ∷ []))
              (λ d. apply_each_row (moment + 2) d rows)
              (step_over (park (moment + 2) db row) (moment + 4)
                (λ d. apply_each_row (moment + 4) d rows)))

      module _ (events : List EventRow) where
        -- `drainChain`; `passes` bounds the batches.
        unfoldable pub drain_chain : ℕ → ℕ → Db → Retry
        unfolding attempt go_on
        drain_chain zero moment db = (db, [], moment, false)
        drain_chain (suc passes) moment db =
            let rows = take_events db.reader events in
            let rest =
              attempt (apply_batch moment db rows) (λ d. drain_chain passes (moment + 1) d)
                (go_on (apply_each_row (moment + 1) db rows) (λ m d. drain_chain passes m d)) in
            if length rows == 0 then (db, [], moment, true) else rest
