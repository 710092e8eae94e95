-- ===== src/Scan/Store/Example.antt =====
-- An event stored twice, two cursors, and instances of the theorems at them.
use whm.Prelude.{arith}
use whm.Prelude.{none}
use whm.Prelude.{List, [], ◌∷◌}
use whm.Prelude.{All}
use whm.Prelude.Text.{codes}
use whm.Scan.Drain.Progress.{Rising}
use whm.Scan.Store.{RawEvent, insert_events, Cursor, Rewind, targets, apply_rewinds}
use whm.Scan.Store.Growth.{IsOrdered, insert_events-IsOrdered}
use whm.Scan.Store.Rewinds.{Lowered, Reached, apply_rewinds-Back}

abbrev event : RawEvent
event = record {
  tx_hash = codes "0x07";
  log_index = 3;
  address = codes "0xAA";
  block_number = codes "9";
  block_timestamp = 0;
  topics = [];
  payload = [];
  sender = none;
  extrinsic = none;
}

empty-IsOrdered : IsOrdered ([], 1)
unfolding Rising
empty-IsOrdered = (tt, tt, omega arith)

insert_events-IsOrdered_example :
    IsOrdered (insert_events (codes "base") (event ∷ event ∷ []) ([], 1))
insert_events-IsOrdered_example =
    insert_events-IsOrdered (codes "base") (event ∷ event ∷ []) ([], 1) empty-IsOrdered

abbrev cursors : List Cursor
cursors =
    record { role = codes "gate"; next_block = 90 }
    ∷ record { role = codes "core"; next_block = 40 }
    ∷ []

abbrev rewinds : List Rewind
rewinds = record { cursor = codes "*"; block_number = 60 } ∷ []

apply_rewinds-Back_example :
    Lowered cursors (apply_rewinds (codes "gate" ∷ []) rewinds cursors)
    × All
        (λ r.
          Reached
            (targets (codes "gate" ∷ []) r)
            r.block_number
            (apply_rewinds (codes "gate" ∷ []) rewinds cursors))
        rewinds
apply_rewinds-Back_example = apply_rewinds-Back (codes "gate" ∷ []) rewinds cursors
