-- ===== src/Scan/Upsert/Find.antt =====
-- Looking a row up.
use whm.Prelude.{ℕ, String}
use whm.Prelude.{◌≡◌, refl, sym, ap, ◌∙◌, inl, inr}
use whm.Prelude.{true, false, none, some}
use whm.Prelude.{[], ◌∷◌, ◌++◌}
use whm.Prelude.{Bool-cases}
use whm.Prelude.{eq_refl}
use whm.Scan.Upsert.{Row, Table, Claim, merge, Addressed, has_key, find, update, inserted}

pub find-here :
    (is_addressed : Addressed) (r : Row) (rows : Table)
    → is_addressed r ≡ true
    → find is_addressed (r ∷ rows) ≡ some r
unfolding find
find-here is_addressed r rows h = rw h refl

pub find-later :
    (is_addressed : Addressed) (r : Row) (rows : Table)
    → is_addressed r ≡ false
    → find is_addressed (r ∷ rows) ≡ find is_addressed rows
unfolding find
find-later is_addressed r rows h = rw h refl

pub nothing_found : (is_addressed : Addressed) (r : Row) → find is_addressed [] ≡ some r → ⊥
unfolding find
nothing_found is_addressed r h = absurd (cc)

-- A row that is appended where there was none.
pub find-snoc :
    (is_addressed : Addressed) (rows : Table) (x : Row)
    → find is_addressed rows ≡ none
    → is_addressed x ≡ true
    → find is_addressed (rows ++ x ∷ []) ≡ some x
find-snoc is_addressed [] x h it = find-here is_addressed x [] it
find-snoc is_addressed (r ∷ rows) x h it = elim (Bool-cases (is_addressed r)) [
  | inl this ↦ absurd (let e = find-here is_addressed r rows this in cc)
  | inr another ↦
      find-later is_addressed r _ another
      ∙ find-snoc is_addressed rows x (sym (find-later is_addressed r rows another) ∙ h) it
]

-- The row of a key after an update of that key.
pub find-update_key :
    (rank : String → ℕ) (key : String) (c : Claim) (rows : Table) (r : Row)
    → find (has_key key) rows ≡ some r
    → find (has_key key) (update rank (has_key key) c rows) ≡ some (merge rank c r)
unfolding update
find-update_key rank key c [] r h = absurd (nothing_found (has_key key) r h)
find-update_key rank key c (x ∷ rows) r h = elim (Bool-cases (has_key key x)) [
  | inl this ↦
      let found : x ≡ r = (let e = find-here (has_key key) x rows this in cc) in
      rw this (
        find-here (has_key key) (merge rank c x) _ (unfold has_key merge in this)
        ∙ ap (λ (y : Row). some (merge rank c y)) found)
  | inr another ↦ rw another (
      find-later (has_key key) x _ another
      ∙ find-update_key rank key c rows r (sym (find-later (has_key key) x rows another) ∙ h))
]

pub has_key-inserted : (key : String) (c : Claim) → has_key key (inserted key c) ≡ true
unfolding has_key
has_key-inserted key c = eq_refl key
