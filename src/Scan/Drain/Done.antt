-- ===== src/Scan/Drain/Done.antt =====
-- What a drain has done to the tables, the reader and the dead letters, event by event.
use whm.Prelude.{ℕ, ◌+◌, String}
use whm.Prelude.{◌≡◌, refl, sym, ap, ◌∙◌, ◌⊎◌, inl, inr}
use whm.Prelude.{Bool, true, false, Option, none, some}
use whm.Prelude.{List, [], ◌∷◌, ◌++◌, append_assoc}
use whm.Prelude.{Bool-cases, Option-cases}
use whm.Scan.Route.{Tables, EventRow, Leg, RouteTable}
use mathlib.Core.Path.{subst}
use whm.Scan.Drain.{
  Retry, and_more, chain, attempt, step_over, commit, announced, last_seq, Change, Db, dead_letter,
  apply, apply_rows, apply_batch, park,
}

module _ {A : Type 0} (decode : Leg A → EventRow → Option (String × A)) (routes : RouteTable A)
    (fails : ℕ → Bool) where
  -- A transaction of the event alone, at a moment, came to nothing.
  abbrev pub Refused : ℕ → EventRow → Tables → Type 0
  Refused moment row tables = (fails moment ≡ true) ⊎ (apply decode routes row tables ≡ none)

  -- From tables, dead letters and a reader's sequence, over events, to others, with the changes made, and
  -- whether the end was reached.
  pub data Drained : Db → List EventRow → Db → List Change → Bool → Type 0 where
    all_done : (db : Db) → Drained db [] db [] true
    took :
        (db : Db) (row : EventRow) (rows : List EventRow) (tables : Tables) (out more : List Change)
        (end : Db) (alive : Bool)
        → apply decode routes row db.tables ≡ some (tables, out)
        → Drained (record db { tables = tables; reader = row.seq }) rows end more alive
        → Drained db (row ∷ rows) end (out ++ more) alive
    parked :
        (db : Db) (row : EventRow) (rows : List EventRow) (moment : ℕ) (more : List Change)
        (end : Db) (alive : Bool)
        → Refused moment row db.tables
        → Refused (moment + 1) row db.tables
        → Drained
            (record db { dead = dead_letter db.dead row.seq; reader = row.seq })
            rows
            end
            more
            alive
        → Drained db (row ∷ rows) end more alive
    stopped : (db : Db) (rows : List EventRow) → Drained db rows db [] false
    half_parked :
        (db : Db) (row : EventRow) (rows : List EventRow)
        → Drained db (row ∷ rows) (record db { dead = dead_letter db.dead row.seq }) [] false

  pub and_then :
      {db mid end : Db} {xs ys : List EventRow} {out more : List Change} {alive : Bool}
      → Drained db xs mid out true
      → Drained mid ys end more alive
      → Drained db (xs ++ ys) end (out ++ more) alive
  and_then (Drained.all_done db) e = e
  and_then {end = final} {ys = ys} {more = more} {alive = ending}
        (Drained.took db row rows tables out out' end alive a d) e =
      subst (λ (l : List Change). Drained db (row ∷ (rows ++ ys)) final l ending)
        (sym (append_assoc out out' more))
        (took db row (rows ++ ys) tables out (out' ++ more) final ending a (and_then d e))
  and_then (Drained.parked db row rows moment out end alive r s d) e =
      parked db row (rows ++ _) moment _ _ _ r s (and_then d e)

  -- A drain that stops within the first of two stretches.
  pub stops_before :
      {db end : Db} {xs : List EventRow} {out : List Change}
      → (ys : List EventRow) → Drained db xs end out false
      → Drained db (xs ++ ys) end out false
  stops_before ys (Drained.took db row rows tables out more end alive a d) =
      took db row (rows ++ ys) tables out more end false a (stops_before ys d)
  stops_before ys (Drained.parked db row rows moment more end alive r s d) =
      parked db row (rows ++ ys) moment more end false r s (stops_before ys d)
  stops_before ys (Drained.stopped db rows) = stopped db (rows ++ ys)
  stops_before ys (Drained.half_parked db row rows) = half_parked db row (rows ++ ys)

  chain_lem :
      (o : Option (Tables × List Change)) (next : Tables → Option (Tables × List Change))
      (tables : Tables) (out : List Change)
      → chain o next ≡ some (tables, out)
      → (mid : Tables) × (first more : List Change) × (o ≡ some (mid, first))
        × (next mid ≡ some (tables, more))
        × (out ≡ first ++ more)
  unfolding chain and_more
  chain_lem none next tables out h = absurd (cc)
  chain_lem (some (mid, first)) next tables out h = elim (Option-cases (next mid)) [
    | inl lost ↦ absurd (let k = (rw lost at h) in cc)
    | inr ((t, more), went) ↦
        let k : some (t, first ++ more) ≡ some (tables, out) = (rw went at h) in
        (
          mid,
          first,
          more,
          refl,
          went ∙ (let e : t ≡ tables = cc in ap (λ (x : Tables). some (x, more)) e),
          (let e : first ++ more ≡ out = cc in sym e),
        )
  ]

  rows-Drained :
      (db : Db) (rows : List EventRow) (tables : Tables) (out : List Change)
      → apply_rows decode routes rows db.tables ≡ some (tables, out)
      → Drained db rows (record db { tables = tables; reader = last_seq db.reader rows }) out true
  unfolding apply_rows last_seq
  rows-Drained db [] tables out h =
      let t : db.tables ≡ tables = cc in
      let o : [] ≡ out = cc in
      subst (λ (x : Tables). Drained db [] (record db { tables = x }) out true) t
        (subst (λ (l : List Change). Drained db [] db l true) o (all_done db))
  rows-Drained db (row ∷ rows) tables out h =
      let (mid, first, more, taken, went, both) =
        chain_lem (apply decode routes row db.tables) _ tables out h in
      let next = record db { tables = mid; reader = row.seq } in
      subst
        (λ (l : List Change).
          Drained db (row ∷ rows) (record db { tables = tables; reader = last_seq row.seq rows }) l
            true)
        (sym both)
        (took db row rows mid first more _ true taken (rows-Drained next rows tables more went))

  pub refused_lem :
      (moment : ℕ) (db : Db) (row : EventRow)
      → apply_batch decode routes fails moment db (row ∷ []) ≡ none
      → Refused moment row db.tables
  unfolding apply_batch apply_rows commit chain and_more
  refused_lem moment db row h = elim (Bool-cases (fails moment)) [
    | inl broken ↦ inl broken
    | inr whole ↦ elim (Option-cases (apply decode routes row db.tables)) [
      | inl refused ↦ inr refused
      | inr (r, taken) ↦ absurd (let k = (rw (whole, taken) at h) in cc)
    ]
  ]

  pub batch-Drained :
      (moment : ℕ) (db end : Db) (rows : List EventRow) (out : List Change)
      → apply_batch decode routes fails moment db rows ≡ some (end, out)
      → Drained db rows end out true
  unfolding apply_batch commit
  batch-Drained moment db end rows out h = elim (Bool-cases (fails moment)) [
    | inl broken ↦ absurd (let k = (rw broken at h) in cc)
    | inr fine ↦ elim (Option-cases (apply_rows decode routes rows db.tables)) [
      | inl lost ↦ absurd (let k = (rw (fine, lost) at h) in cc)
      | inr ((t, o), went) ↦
          let new = record db { tables = t; reader = last_seq db.reader rows } in
          let k : some (new, o) ≡ some (end, out) = (rw (fine, went) at h) in
          let d : new ≡ end = cc in
          let l : o ≡ out = cc in
          subst (λ (x : Db). Drained db rows x out true) d
            (subst (λ (x : List Change). Drained db rows new x true) l
              (rows-Drained db rows t o went))
    ]
  ]

  abbrev pub Retried : Db → List EventRow → Retry → Type 0
  Retried db rows r = Drained db rows r.0 r.1 r.3

  -- A batch, and what comes after it; or what is done instead.
  pub attempt-Retried :
      (moment : ℕ) (db : Db) (xs ys : List EventRow) (next : Db → Retry) (otherwise : Retry)
      (o : Option (Db × List Change))
      → apply_batch decode routes fails moment db xs ≡ o
      → ((mid : Db) → Retried mid ys (next mid))
      → (o ≡ none → Retried db (xs ++ ys) otherwise)
      → Retried db (xs ++ ys) (attempt o next otherwise)
  unfolding attempt announced
  attempt-Retried moment db xs ys next otherwise none e went failed = failed refl
  attempt-Retried moment db xs ys next otherwise (some (mid, out)) e went failed =
      and_then (batch-Drained moment db mid xs out e) (went mid)

  pub park-Retried :
      (moment then_at tried : ℕ) (db : Db) (row : EventRow) (rows : List EventRow)
      (next : Db → Retry)
      → Refused tried row db.tables
      → Refused (tried + 1) row db.tables
      → ((mid : Db) → Retried mid rows (next mid))
      → Retried db (row ∷ rows) (step_over (park decode routes fails moment db row) then_at next)
  unfolding park step_over
  park-Retried moment then_at tried db row rows next r s went = elim (Bool-cases (fails moment)) [
    | inl broken ↦ rw broken (stopped db (row ∷ rows))
    | inr fine ↦ elim (Bool-cases (fails (moment + 1))) [
      | inl broken ↦ rw (fine, broken) (half_parked db row rows)
      | inr written ↦ rw (fine, written) (parked db row rows tried _ _ _ r s (went _))
    ]
  ]
