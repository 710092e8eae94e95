-- ===== src/Scan/Upsert.antt =====
-- agents/scan/src/flow/upsert.ts, with the ranks of flow/schema.ts: merging one leg's contribution into its
-- row. A table is the list of its rows, a row's cells stand in the order of the flow's columns, and the
-- SQL that the source builds is read as what it does to them.
pub mod Find
pub mod Rank
pub mod AnyOrder
mod Example
use whm.Prelude.{ℕ, zero, suc, ◌+◌, ◌-◌, ◌*◌, ◌/◌, ◌%◌, ◌^◌, ◌≤◌, ◌<◌, min, String}
use whm.Prelude.{◌≡◌, refl, sym, ap, ◌∙◌, ◌≢◌, ◌↔◌, ◌⊎◌, inl, inr, arith}
use whm.Prelude.{Bool, true, false, not, ◌&&◌, ◌||◌, Option, none, some}
use whm.Prelude.{List, [], ◌∷◌, ◌++◌, map, append-nil, append_assoc}
use whm.Prelude.{ltb, leb, ◌==◌, if◌then◌else◌, ltb→lt, lt→ltb, ==_iff, Bool-cases, Option-cases}
use whm.Prelude.{length, get_elem?, take, drop, replicate, All, All-append}
use whm.Prelude.{length-append, take-append-drop, length-take, length-drop, length-replicate}
use whm.Prelude.{take-append, drop-append}
use whm.Prelude.{str_eq, eq_iff, eq_refl}

-- A value of a column, as its text; `none` is NULL.
abbrev pub Cell : Type 0
Cell = Option String

pub record Row : Type 0 where
  pub key : String
  pub state : String
  pub cells : List Cell

abbrev pub Table : Type 0
Table = List Row

-- The function that the flow's states define, one above what the SQL gives: a state that is not listed
-- has rank -1 there.
unfoldable pub state_rank : List (String × ℕ) → String → ℕ
state_rank [] s = 0
state_rank ((name, rank) ∷ states) s =
    let rest = state_rank states s in if str_eq name s then rank + 1 else rest

-- `CASE WHEN rank(new) > rank(old) THEN new ELSE old END`
unfoldable pub advance_state : (String → ℕ) → String → String → String
advance_state rank old new = if ltb (rank old) (rank new) then new else old

-- `COALESCE(new, old)`
unfoldable pub coalesce : Cell → Cell → Cell
coalesce none old = old
coalesce (some v) old = some v

unfoldable pub merge_cells : List Cell → List Cell → List Cell
merge_cells [] old = old
merge_cells (c ∷ new) [] = []
merge_cells (c ∷ new) (d ∷ old) = coalesce c d ∷ merge_cells new old

-- What a leg claims of a row: its state, and a value for every column.
pub record Claim : Type 0 where
  pub state : String
  pub values : List Cell

unfoldable pub merge : (String → ℕ) → Claim → Row → Row
merge rank c r = record r {
  state = advance_state rank r.state c.state;
  cells = merge_cells c.values r.cells;
}

pub record Applied : Type 0 where
  pub row : Row
  pub created : Bool
  pub previous_state : Option String

-- The rows that a key column addresses.
abbrev pub Addressed : Type 0
Addressed = Row → Bool

unfoldable pub has_cell : ℕ → String → Addressed
has_cell column key r = elim (get_elem? r.cells column) [
  | none ↦ false
  | some cell ↦ elim cell [ none ↦ false | some v ↦ str_eq v key ]
]

unfoldable pub has_key : String → Addressed
has_key key r = str_eq r.key key

-- The row before the statement, `prev`.
unfoldable pub find : Addressed → Table → Option Row
find is_addressed [] = none
find is_addressed (r ∷ rows) =
    let rest = find is_addressed rows in if is_addressed r then some r else rest

unfoldable pub update : (String → ℕ) → Addressed → Claim → Table → Table
update rank is_addressed c [] = []
update rank is_addressed c (r ∷ rows) =
    (if is_addressed r then merge rank c r else r) ∷ update rank is_addressed c rows

unfoldable pub applied : (String → ℕ) → Claim → Row → Applied
applied rank c r = record { row = merge rank c r; created = false; previous_state = some r.state }

abbrev pub inserted : String → Claim → Row
inserted key c = record { key = key; state = c.state; cells = c.values }

-- By the primary key, `INSERT ... ON CONFLICT DO UPDATE`.
unfoldable pub by_key : (String → ℕ) → String → Claim → Option Row → Table → Table × Option Applied
by_key rank key c none rows = (
  rows ++ inserted key c ∷ [],
  some (record { row = inserted key c; created = true; previous_state = none }),
)
by_key rank key c (some r) rows = (update rank (has_key key) c rows, some (applied rank c r))

-- By another column, `UPDATE ... WHERE`, which creates nothing.
unfoldable pub by_column :
    (String → ℕ) → Addressed → Claim → Option Row → Table → Table × Option Applied
by_column rank is_addressed c none rows = (rows, none)
by_column rank is_addressed c (some r) rows =
    (update rank is_addressed c rows, some (applied rank c r))

-- `key_by` is the number of an alternate column, or `none` for the primary key.
unfoldable pub reconcile : (String → ℕ) → Option ℕ → String → Claim → Table → Table × Option Applied
reconcile rank none key c rows = by_key rank key c (find (has_key key) rows) rows
reconcile rank (some column) key c rows =
    by_column rank (has_cell column key) c (find (has_cell column key) rows) rows
