-- ===== src/Scan/Drain/Progress.antt =====
-- Drain.drainChain: how far a drain gets through the events behind the reader.
use whm.Prelude.{ℕ, zero, suc, ◌+◌, ◌≤◌, ◌<◌, String}
use whm.Prelude.{◌≡◌, refl, sym, ap, ◌∙◌, inl, inr, arith}
use whm.Prelude.{Bool, true, false, Option, none, some}
use whm.Prelude.{List, [], ◌∷◌, ◌++◌, append_assoc}
use whm.Prelude.{ltb, ◌==◌, ltb→lt, Bool-cases}
use whm.Prelude.{length, take, drop}
use whm.Prelude.{take-append-drop}
use whm.Scan.Route.{EventRow, Leg, RouteTable}
use mathlib.Core.Path.{subst}
use whm.Scan.Drain.{
  Retry, attempt, announced, go_on, last_seq, Change, Db, apply_batch, apply_each_row, after,
  drain_chain, batch_size,
}
use whm.Scan.Drain.Done.{
  Drained, all_done, stopped, and_then, stops_before, refused_lem, Retried, attempt-Retried,
  park-Retried, batch-Drained,
}

-- The sequences of a chain's events rise.
unfoldable pub Rising : ℕ → List EventRow → Type 0
Rising n [] = Unit
Rising n (row ∷ rows) = (n < row.seq) × Rising row.seq rows

after-Rising :
    (from n : ℕ) (rows : List EventRow) → from ≤ n → Rising n rows → after from rows ≡ rows
unfolding Rising after
after-Rising from n [] le h = refl
after-Rising from n (row ∷ rows) le (h, hs) =
    let in_front : ltb from row.seq ≡ true = ground arith in
    rw (in_front, after-Rising from row.seq rows (omega arith) hs) refl

Rising-after : (from n : ℕ) (rows : List EventRow) → Rising n rows → Rising from (after from rows)
unfolding Rising after
Rising-after from n [] h = tt
Rising-after from n (row ∷ rows) (h, hs) = elim (Bool-cases (ltb from row.seq)) [
  | inl in_front ↦
      rw
        (
          in_front,
          after-Rising from row.seq rows (let l = ltb→lt from row.seq in_front in omega arith) hs,
        )
        (ltb→lt from row.seq in_front, hs)
  | inr behind ↦ rw behind (Rising-after from row.seq rows hs)
]

last_seq-le : (n : ℕ) (xs ys : List EventRow) → Rising n (xs ++ ys) → n ≤ last_seq n xs
unfolding Rising last_seq
last_seq-le n [] ys h = omega arith
last_seq-le n (x ∷ xs) ys (h, hs) = let l = last_seq-le x.seq xs ys hs in omega arith

after-last_seq :
    (n : ℕ) (xs ys : List EventRow) → Rising n (xs ++ ys) → after (last_seq n xs) (xs ++ ys) ≡ ys
unfolding Rising after last_seq
after-last_seq n [] ys h = after-Rising n n ys (omega arith) h
after-last_seq n (x ∷ xs) ys (h, hs) =
    let l = last_seq-le x.seq xs ys hs in
    let behind : ltb (last_seq x.seq xs) x.seq ≡ false = ground arith in
    rw behind (after-last_seq x.seq xs ys hs)

after-after : (n m : ℕ) (rows : List EventRow) → n ≤ m → after m (after n rows) ≡ after m rows
unfolding after
after-after n m [] le = refl
after-after n m (row ∷ rows) le = elim (Bool-cases (ltb n row.seq)) [
  | inl in_front ↦ rw (in_front, after, after-after n m rows le) refl
  | inr behind ↦
      let further : ltb m row.seq ≡ false = ground arith in
      rw (behind, further) (after-after n m rows le)
]

-- What is left for the next batch.
pub next_rows :
    (events xs ys : List EventRow) (k n : ℕ)
    → Rising k events
    → xs ++ ys ≡ after n events
    → after (last_seq n xs) events ≡ ys
next_rows events xs ys k n rising split =
    let up : Rising n (xs ++ ys) = rw split (Rising-after n k events rising) in
    sym (after-after n (last_seq n xs) events (last_seq-le n xs ys up))
    ∙ (ap (λ (l : List EventRow). after (last_seq n xs) l) (sym split) ∙ after-last_seq n xs ys up)

module _ {A : Type 0} (decode : Leg A → EventRow → Option (String × A)) (routes : RouteTable A)
    (fails : ℕ → Bool) where
  pub reader_lem :
      {db end : Db} {rows : List EventRow} {out : List Change}
      → Drained decode routes fails db rows end out true
      → end.reader ≡ last_seq db.reader rows
  unfolding last_seq
  reader_lem (Drained.all_done db) = refl
  reader_lem (Drained.took db row rows tables out more end alive a d) = reader_lem d
  reader_lem (Drained.parked db row rows moment more end alive r s d) = reader_lem d

  pub apply_each_row-Retried :
      (moment : ℕ) (db : Db) (rows : List EventRow)
      → Retried decode routes fails db rows (apply_each_row decode routes fails moment db rows)
  unfolding apply_each_row
  apply_each_row-Retried moment db [] = all_done db
  apply_each_row-Retried moment db (row ∷ rows) =
      attempt-Retried decode routes fails moment db (row ∷ []) rows _ _ _ refl
        (λ d. apply_each_row-Retried (moment + 1) d rows)
        (λ first.
          attempt-Retried decode routes fails (moment + 1) db (row ∷ []) rows _ _ _ refl
            (λ d. apply_each_row-Retried (moment + 2) d rows)
            (λ second.
              park-Retried decode routes fails (moment + 2) (moment + 4) moment db row rows _
                (refused_lem decode routes fails moment db row first)
                (refused_lem decode routes fails (moment + 1) db row second)
                (λ d. apply_each_row-Retried (moment + 4) d rows)))

  -- A drain over events, with the changes made; of these the last may be lost to the listeners where the
  -- drain threw, and none is where it came to the end.
  pub record Outcome (db : Db) (rows : List EventRow) (r : Retry) : Type 0 where
    pub made : List Change
    pub lost : List Change
    pub drained : Drained decode routes fails db rows r.0 made r.3
    pub told : made ≡ r.1 ++ lost
    pub all_told : r.3 ≡ true → lost ≡ []

  announced-Outcome :
      {db mid : Db} {xs ys : List EventRow} {out : List Change}
      → (r : Retry) → Drained decode routes fails db xs mid out true
      → Outcome mid ys r
      → Outcome db (xs ++ ys) (announced out r)
  unfolding announced
  announced-Outcome {out = out} r d o = record {
    made = out ++ o.made;
    lost = o.lost;
    drained = and_then decode routes fails d o.drained;
    told = ap (λ (l : List Change). out ++ l) o.told ∙ sym (append_assoc out r.1 o.lost);
    all_told = o.all_told;
  }

  attempt-Outcome :
      (moment : ℕ) (db : Db) (xs ys : List EventRow) (next : Db → Retry) (otherwise : Retry)
      (o : Option (Db × List Change))
      → apply_batch decode routes fails moment db xs ≡ o
      → ((mid : Db) → mid.reader ≡ last_seq db.reader xs → Outcome mid ys (next mid))
      → Outcome db (xs ++ ys) otherwise
      → Outcome db (xs ++ ys) (attempt o next otherwise)
  unfolding attempt
  attempt-Outcome moment db xs ys next otherwise none e went failed = failed
  attempt-Outcome moment db xs ys next otherwise (some (mid, out)) e went failed =
      let d = batch-Drained decode routes fails moment db mid xs out e in
      announced-Outcome (next mid) d (went mid (reader_lem d))

  go_on-Outcome :
      (db : Db) (xs ys : List EventRow) (r : Retry) (next : ℕ → Db → Retry)
      → Retried decode routes fails db xs r
      → ((m : ℕ) (mid : Db) → mid.reader ≡ last_seq db.reader xs → Outcome mid ys (next m mid))
      → Outcome db (xs ++ ys) (go_on r next)
  unfolding go_on
  go_on-Outcome db xs ys (mid, out, moment, true) next d went =
      announced-Outcome (next moment mid) d (went moment mid (reader_lem d))
  go_on-Outcome db xs ys (mid, out, moment, false) next d went = record {
    made = out;
    lost = out;
    drained = stops_before decode routes fails ys d;
    told = refl;
    all_told = λ e. absurd (cc);
  }

  module _ (events : List EventRow) (k : ℕ) (rising : Rising k events) where
    -- A later pass over what is left.
    pass_on :
        (ys : List EventRow) (mid : Db) (r : Retry)
        → after mid.reader events ≡ ys
        → Outcome mid (after mid.reader events) r
        → Outcome mid ys r
    pass_on ys mid r e o = subst (λ (l : List EventRow). Outcome mid l r) e o

    nothing_left :
        (db : Db) (moment : ℕ) (l : List EventRow)
        → length (take batch_size l) ≡ 0
        → Outcome db l (db, [], moment, true)
    nothing_left db moment [] h = record {
      made = [];
      lost = [];
      drained = all_done db;
      told = refl;
      all_told = λ e. refl;
    }
    nothing_left db moment (row ∷ l) h = absurd (omega arith)

    -- A drain of one chain, whose events have rising sequences, deals with the events behind the reader one
    -- by one and in order, whatever fails and wherever it ends: each is merged into the tables as the
    -- reader steps onto it, or is parked as a dead letter after two transactions of it alone came to
    -- nothing. What is told to the listeners is what was done, less a last part where the drain threw.
    pub drain_chain-Outcome :
        (passes moment : ℕ) (db : Db)
        → Outcome db
            (after db.reader events)
            (drain_chain decode routes fails events passes moment db)
    unfolding drain_chain
    drain_chain-Outcome zero moment db = record {
      made = [];
      lost = [];
      drained = stopped db (after db.reader events);
      told = refl;
      all_told = λ e. refl;
    }
    drain_chain-Outcome (suc passes) moment db =
        let l = after db.reader events in
        let xs = take batch_size l in
        let ys = drop batch_size l in
        let split = take-append-drop batch_size l in
        let left = (λ (mid : Db) (e : mid.reader ≡ last_seq db.reader xs).
          ap (λ (n : ℕ). after n events) e ∙ next_rows events xs ys k db.reader rising split) in
        elim (Bool-cases (length xs == 0)) [
          | inl empty ↦ rw empty (nothing_left db moment l (ground arith))
          | inr some_rows ↦ rw some_rows (
              subst
                (λ (z : List EventRow). Outcome db z (
                  attempt (apply_batch decode routes fails moment db xs)
                    (λ d. drain_chain decode routes fails events passes (moment + 1) d)
                    (go_on (apply_each_row decode routes fails (moment + 1) db xs)
                      (λ m d. drain_chain decode routes fails events passes m d))))
                split
                (attempt-Outcome moment db xs ys _ _ _ refl
                  (λ mid e.
                    pass_on ys mid _ (left mid e) (drain_chain-Outcome passes (moment + 1) mid))
                  (go_on-Outcome db xs ys _ _ (apply_each_row-Retried (moment + 1) db xs)
                    (λ m mid e. pass_on ys mid _ (left mid e) (drain_chain-Outcome passes m mid)))))
        ]
