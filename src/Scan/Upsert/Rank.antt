-- ===== src/Scan/Upsert/Rank.antt =====
-- What a statement makes of a row that is in the table.
use whm.Prelude.{ℕ, ◌≤◌, String}
use whm.Prelude.{◌≡◌, refl, sym, ◌∙◌, ◌⊎◌, inl, inr, arith}
use whm.Prelude.{Bool, true, false, Option, none, some}
use whm.Prelude.{[], ◌∷◌, ◌++◌}
use whm.Prelude.{if◌then◌else◌, Bool-cases}
use mathlib.Core.Path.{subst}
use whm.Scan.Upsert.Find.{find-here, find-later, nothing_found}
use whm.Scan.Upsert.{
  Row, Table, advance_state, Claim, merge, Addressed, has_cell, has_key, find, update, inserted,
  by_key, by_column, reconcile,
}

-- What may have become of a row.
pub record Kept (rank : String → ℕ) (c : Claim) (old new : Row) : Type 0 where
  pub same_key : new.key ≡ old.key
  pub no_fall : rank old.state ≤ rank new.state
  pub state : (new.state ≡ old.state) ⊎ (new.state ≡ c.state)

Kept-same : (rank : String → ℕ) (c : Claim) (r : Row) → Kept rank c r r
Kept-same rank c r = record { same_key = refl; no_fall = omega arith; state = inl refl }

Kept-merge : (rank : String → ℕ) (c : Claim) (r : Row) → Kept rank c r (merge rank c r)
unfolding merge advance_state
Kept-merge rank c r = record { same_key = refl; no_fall = ground arith; state = ground arith }

module _ (rank : String → ℕ) (c : Claim) where
  -- The row of a key after a statement.
  abbrev StillThere : String → Row → Table → Type 0
  StillThere key r rows = (new : Row) × (find (has_key key) rows ≡ some new) × Kept rank c r new

  abbrev touched : Bool → Row → Row
  touched b r = if b then merge rank c r else r

  Kept-touched : (b : Bool) (r : Row) → Kept rank c r (touched b r)
  Kept-touched true r = Kept-merge rank c r
  Kept-touched false r = Kept-same rank c r

  has_key-touched : (key : String) (b : Bool) (r : Row) → has_key key (touched b r) ≡ has_key key r
  unfolding has_key merge
  has_key-touched key true r = refl
  has_key-touched key false r = refl

  find-update :
      (key : String) (is_addressed : Addressed) (rows : Table) (r : Row)
      → find (has_key key) rows ≡ some r
      → StillThere key r (update rank is_addressed c rows)
  unfolding update
  find-update key is_addressed [] r h = absurd (nothing_found (has_key key) r h)
  find-update key is_addressed (x ∷ rows) r h =
      let b = is_addressed x in
      let same = has_key-touched key b x in
      elim (Bool-cases (has_key key x)) [
        | inl it ↦
            let found : x ≡ r = (let e = find-here (has_key key) x rows it in cc) in
            (
              touched b x,
              find-here (has_key key) (touched b x) _ (same ∙ it),
              subst (λ (y : Row). Kept rank c y (touched b x)) found (Kept-touched b x),
            )
        | inr another ↦
            let below = sym (find-later (has_key key) x rows another) ∙ h in
            let (new, there, kept) = find-update key is_addressed rows r below in
            (new, find-later (has_key key) (touched b x) _ (same ∙ another) ∙ there, kept)
      ]

  find-append :
      (key : String) (rows : Table) (r x : Row)
      → find (has_key key) rows ≡ some r
      → find (has_key key) (rows ++ x ∷ []) ≡ some r
  find-append key [] r x h = absurd (nothing_found (has_key key) r h)
  find-append key (y ∷ rows) r x h = elim (Bool-cases (has_key key y)) [
    | inl it ↦ find-here (has_key key) y _ it ∙ (sym (find-here (has_key key) y rows it) ∙ h)
    | inr another ↦
        find-later (has_key key) y _ another
        ∙ find-append key rows r x (sym (find-later (has_key key) y rows another) ∙ h)
  ]

  by_key-StillThere :
      (key at_key : String) (o : Option Row) (rows : Table) (r : Row)
      → find (has_key key) rows ≡ some r
      → StillThere key r (by_key rank at_key c o rows).0
  unfolding by_key
  by_key-StillThere key at_key none rows r h =
      (r, find-append key rows r (inserted at_key c) h, Kept-same rank c r)
  by_key-StillThere key at_key (some x) rows r h = find-update key (has_key at_key) rows r h

  by_column-StillThere :
      (key : String) (is_addressed : Addressed) (o : Option Row) (rows : Table) (r : Row)
      → find (has_key key) rows ≡ some r
      → StillThere key r (by_column rank is_addressed c o rows).0
  unfolding by_column
  by_column-StillThere key is_addressed none rows r h = (r, h, Kept-same rank c r)
  by_column-StillThere key is_addressed (some x) rows r h = find-update key is_addressed rows r h

  -- Whatever a leg claims, and whichever column its key addresses: a row that is in the table is still there
  -- under its key, its state is the old one or the one claimed, and has not fallen in rank.
  pub reconcile-Kept :
      (key : String) (key_by : Option ℕ) (at_key : String) (rows : Table) (r : Row)
      → find (has_key key) rows ≡ some r
      → (new : Row) × (find (has_key key) (reconcile rank key_by at_key c rows).0 ≡ some new)
        × Kept rank c r new
  unfolding reconcile
  reconcile-Kept key none at_key rows r h =
      by_key-StillThere key at_key (find (has_key at_key) rows) rows r h
  reconcile-Kept key (some column) at_key rows r h =
      by_column-StillThere key (has_cell column at_key) (find (has_cell column at_key) rows) rows r
        h
