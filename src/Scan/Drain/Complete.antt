-- ===== src/Scan/Drain/Complete.antt =====
-- Whether a drain comes to the end of the events.
use whm.Prelude.{ℕ, zero, suc, ◌+◌, ◌<◌, String}
use whm.Prelude.{◌≡◌, refl, ap, ◌∙◌, inl, inr, arith}
use whm.Prelude.{Bool, true, false, Option, none, some}
use whm.Prelude.{List, [], ◌∷◌}
use whm.Prelude.{◌==◌, Bool-cases}
use whm.Prelude.{length, take, drop}
use whm.Prelude.{take-append-drop, length-take, length-drop}
use whm.Scan.Route.{EventRow, Leg, RouteTable}
use whm.Scan.Drain.{
  Retry, attempt, step_over, announced, go_on, last_seq, Change, Db, apply_batch, park,
  apply_each_row, after, drain_chain, batch_size,
}
use whm.Scan.Drain.Done.{Retried, batch-Drained}
use whm.Scan.Drain.Progress.{
  Rising, next_rows, reader_lem, apply_each_row-Retried, Outcome, drain_chain-Outcome,
}

module _ {A : Type 0} (decode : Leg A → EventRow → Option (String × A)) (routes : RouteTable A)
    (fails : ℕ → Bool) (sound : (moment : ℕ) → fails moment ≡ false) where
  IsAlive : Retry → Type 0
  IsAlive r = r.3 ≡ true

  attempt-IsAlive :
      (moment : ℕ) (db : Db) (xs : List EventRow) (next : Db → Retry) (otherwise : Retry)
      (o : Option (Db × List Change))
      → apply_batch decode routes fails moment db xs ≡ o
      → ((mid : Db) → mid.reader ≡ last_seq db.reader xs → IsAlive (next mid))
      → IsAlive otherwise
      → IsAlive (attempt o next otherwise)
  unfolding attempt announced IsAlive
  attempt-IsAlive moment db xs next otherwise none e went failed = failed
  attempt-IsAlive moment db xs next otherwise (some (mid, out)) e went failed =
      went mid
        (reader_lem decode routes fails (batch-Drained decode routes fails moment db mid xs out e))

  go_on-IsAlive :
      (db : Db) (xs : List EventRow) (r : Retry) (next : ℕ → Db → Retry)
      → Retried decode routes fails db xs r
      → IsAlive r
      → ((m : ℕ) (mid : Db) → mid.reader ≡ last_seq db.reader xs → IsAlive (next m mid))
      → IsAlive (go_on r next)
  unfolding go_on announced IsAlive
  go_on-IsAlive db xs (mid, out, moment, true) next d alive went =
      went moment mid (reader_lem decode routes fails d)
  go_on-IsAlive db xs (mid, out, moment, false) next d alive went = absurd (cc)

  park-IsAlive :
      (moment then_at : ℕ) (db : Db) (row : EventRow) (next : Db → Retry)
      → ((mid : Db) → IsAlive (next mid))
      → IsAlive (step_over (park decode routes fails moment db row) then_at next)
  unfolding park step_over IsAlive
  park-IsAlive moment then_at db row next went = rw (sound moment, sound (moment + 1)) (went _)

  apply_each_row-IsAlive :
      (moment : ℕ) (db : Db) (rows : List EventRow)
      → IsAlive (apply_each_row decode routes fails moment db rows)
  unfolding apply_each_row IsAlive
  apply_each_row-IsAlive moment db [] = refl
  apply_each_row-IsAlive moment db (row ∷ rows) =
      attempt-IsAlive moment db (row ∷ []) _ _ _ refl
        (λ d e. apply_each_row-IsAlive (moment + 1) d rows)
        (attempt-IsAlive (moment + 1) db (row ∷ []) _ _ _ refl
          (λ d e. apply_each_row-IsAlive (moment + 2) d rows)
          (park-IsAlive (moment + 2) (moment + 4) db row _
            (λ d. apply_each_row-IsAlive (moment + 4) d rows)))

  module _ (events : List EventRow) (k : ℕ) (rising : Rising k events) where
    drain_chain-IsAlive :
        (passes moment : ℕ) (db : Db)
        → length (after db.reader events) < passes
        → IsAlive (drain_chain decode routes fails events passes moment db)
    unfolding drain_chain IsAlive
    drain_chain-IsAlive zero moment db h = absurd (omega arith)
    drain_chain-IsAlive (suc passes) moment db h =
        let l = after db.reader events in
        let xs = take batch_size l in
        let ys = drop batch_size l in
        let split = take-append-drop batch_size l in
        let left = (λ (mid : Db) (e : mid.reader ≡ last_seq db.reader xs).
          ap (λ (n : ℕ). after n events) e ∙ next_rows events xs ys k db.reader rising split) in
        elim (Bool-cases (length xs == 0)) [
          | inl empty ↦ rw empty refl
          | inr some_rows ↦
              let fewer : length ys < passes =
                (let m = length-drop batch_size l in
                  let t = length-take batch_size l in ground arith) in
              rw some_rows (
                attempt-IsAlive moment db xs _ _ _ refl
                  (λ mid e. drain_chain-IsAlive passes (moment + 1) mid (rw (left mid e) fewer))
                  (go_on-IsAlive db xs (apply_each_row decode routes fails (moment + 1) db xs)
                    (λ m d. drain_chain decode routes fails events passes m d)
                    (apply_each_row-Retried decode routes fails (moment + 1) db xs)
                    (apply_each_row-IsAlive (moment + 1) db xs)
                    (λ m mid e. drain_chain-IsAlive passes m mid (rw (left mid e) fewer))))
        ]

    finished :
        (db : Db) (rows : List EventRow) (r : Retry)
        → IsAlive r
        → Outcome decode routes fails db rows r
        → r.0.reader ≡ last_seq db.reader rows
    unfolding IsAlive
    finished db rows (end, out, moment, true) alive o = reader_lem decode routes fails o.drained
    finished db rows (end, out, moment, false) alive o = absurd (cc)

    -- If no transaction is refused by the database, a drain with one pass more than there are events behind
    -- the reader comes to the end and leaves the reader at the last of them, however many of the events
    -- themselves cannot be processed: a poison event does not stop those behind it.
    pub drain_chain-last_seq :
        (passes moment : ℕ) (db : Db)
        → length (after db.reader events) < passes
        → (drain_chain decode routes fails events passes moment db).0.reader
          ≡ last_seq db.reader (after db.reader events)
    drain_chain-last_seq passes moment db h =
        finished db (after db.reader events)
          (drain_chain decode routes fails events passes moment db)
          (drain_chain-IsAlive passes moment db h)
          (drain_chain-Outcome decode routes fails events k rising passes moment db)
