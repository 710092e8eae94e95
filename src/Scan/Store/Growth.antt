-- ===== src/Scan/Store/Growth.antt =====
-- What storing events does to the order in which readers take them.
use whm.Prelude.{ℕ, ◌+◌, ◌<◌}
use whm.Prelude.{◌≡◌, refl, inl, inr, arith}
use whm.Prelude.{Bool, true, false}
use whm.Prelude.{List, [], ◌∷◌, ◌++◌}
use whm.Prelude.{if◌then◌else◌, Bool-cases}
use whm.Prelude.{All, All-append}
use whm.Scan.Route.{Text, EventRow}
use whm.Scan.Drain.Progress.{Rising}
use whm.Scan.Store.{
  RawEvent, row_of, is_same, is_stored, filled, fill_extrinsic, Store, insert_event, insert_events,
}

-- The sequences rise and lie below the next one.
abbrev pub IsOrdered : Store → Type 0
IsOrdered (rows, next) = Rising 0 rows × All (λ row. row.seq < next) rows × (0 < next)

module _ (e : RawEvent) where
  same_seq :
      (b : Bool) (row : EventRow)
      → (if b then record row { extrinsic = filled row.extrinsic e.extrinsic } else row).seq
        ≡ row.seq
  same_seq true row = refl
  same_seq false row = refl

  Rising-fill_extrinsic :
      (n : ℕ) (rows : List EventRow) → Rising n rows → Rising n (fill_extrinsic e rows)
  unfolding Rising fill_extrinsic
  Rising-fill_extrinsic n [] h = tt
  Rising-fill_extrinsic n (row ∷ rows) (h, hs) =
      rw (same_seq (is_same e row) row) (h, Rising-fill_extrinsic row.seq rows hs)

  All-fill_extrinsic :
      (next : ℕ) (rows : List EventRow)
      → All (λ row. row.seq < next) rows
      → All (λ row. row.seq < next + 1) (fill_extrinsic e rows)
  unfolding fill_extrinsic
  All-fill_extrinsic next [] h = tt
  All-fill_extrinsic next (row ∷ rows) (h, hs) =
      (rw (same_seq (is_same e row) row) (omega arith), All-fill_extrinsic next rows hs)

Rising-snoc :
    (n : ℕ) (rows : List EventRow) (row : EventRow)
    → n < row.seq
    → Rising n rows
    → All (λ r. r.seq < row.seq) rows
    → Rising n (rows ++ row ∷ [])
unfolding Rising
Rising-snoc n [] row l h b = (l, tt)
Rising-snoc n (r ∷ rows) row l (h, hs) (b, bs) = (h, Rising-snoc r.seq rows row b hs bs)

All-weaken :
    (next : ℕ) (rows : List EventRow)
    → All (λ r. r.seq < next) rows
    → All (λ r. r.seq < next + 1) rows
All-weaken next [] h = tt
All-weaken next (r ∷ rows) (h, hs) = (omega arith, All-weaken next rows hs)

insert_event-IsOrdered :
    (chain : Text) (e : RawEvent) (store : Store)
    → IsOrdered store
    → IsOrdered (insert_event chain e store)
unfolding insert_event row_of
insert_event-IsOrdered chain e (rows, next) (up, below, some_next) =
    elim (Bool-cases (is_stored rows e)) [
      | inl known ↦
          rw known
            (Rising-fill_extrinsic e 0 rows up, All-fill_extrinsic e next rows below, omega arith)
      | inr new ↦ rw new (
        Rising-snoc 0 rows (row_of chain next e) some_next up below,
        All-append _ rows (row_of chain next e ∷ []) (All-weaken next rows below) (omega arith, tt),
        omega arith,
      )
    ]

-- However events are stored, those known already among them: if the sequences of the stored events rise
-- and lie below the next one, they still do, which is what a reader's drain relies on.
pub insert_events-IsOrdered :
    (chain : Text) (es : List RawEvent) (store : Store)
    → IsOrdered store
    → IsOrdered (insert_events chain es store)
unfolding insert_events
insert_events-IsOrdered chain [] store h = h
insert_events-IsOrdered chain (e ∷ es) store h =
    insert_events-IsOrdered chain es (insert_event chain e store)
      (insert_event-IsOrdered chain e store h)
