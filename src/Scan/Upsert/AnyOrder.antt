-- ===== src/Scan/Upsert/AnyOrder.antt =====
-- The legs of one record, in one order and another.
use whm.Prelude.{ℕ, String}
use whm.Prelude.{◌≡◌, refl, sym, ap, ◌∙◌, ◌≢◌, ◌⊎◌, inl, inr, arith}
use whm.Prelude.{Option, none, some}
use whm.Prelude.{List, [], ◌∷◌}
use whm.Prelude.{All}
use mathlib.Core.Path.{subst}
use mathlib.Core.List.{Permᴰ}
use whm.Scan.Upsert.Find.{find-snoc, find-update_key, has_key-inserted}
use whm.Scan.Upsert.{
  Cell, Row, Table, advance_state, coalesce, merge_cells, Claim, merge, has_key, find, inserted,
  by_key, reconcile,
}

-- Where both have a value, it is one.
abbrev pub Agree : List Cell → List Cell → Type 0
Agree [] [] = Unit
Agree [] (d ∷ ds) = ⊥
Agree (c ∷ cs) [] = ⊥
Agree (c ∷ cs) (d ∷ ds) = (coalesce c d ≡ coalesce d c) × Agree cs ds

-- Two claims that are made of one row: alternative outcomes do not come together, and no column has two
-- values.
pub record Compatible (rank : String → ℕ) (a b : Claim) : Type 0 where
  pub states : (rank a.state ≢ rank b.state) ⊎ (a.state ≡ b.state)
  pub values : Agree a.values b.values

Agree-sym : (cs ds : List Cell) → Agree cs ds → Agree ds cs
Agree-sym [] [] h = tt
Agree-sym [] (d ∷ ds) h = h
Agree-sym (c ∷ cs) [] h = h
Agree-sym (c ∷ cs) (d ∷ ds) (h, hs) = (sym h, Agree-sym cs ds hs)

coalesce-swap :
    (a b r : Cell)
    → coalesce a b ≡ coalesce b a
    → coalesce b (coalesce a r) ≡ coalesce a (coalesce b r)
unfolding coalesce
coalesce-swap none b r h = refl
coalesce-swap (some x) none r h = refl
coalesce-swap (some x) (some y) r h = sym h

merge_cells-swap :
    (a b r : List Cell)
    → Agree a b
    → merge_cells b (merge_cells a r) ≡ merge_cells a (merge_cells b r)
unfolding merge_cells
merge_cells-swap [] [] r h = refl
merge_cells-swap [] (b ∷ bs) r h = absurd h
merge_cells-swap (a ∷ more) [] r h = absurd h
merge_cells-swap (a ∷ more) (b ∷ bs) [] h = refl
merge_cells-swap (a ∷ more) (b ∷ bs) (r ∷ rs) (h, hs) =
    rw (coalesce-swap a b r h, merge_cells-swap more bs rs hs) refl

merge_cells-first : (a b : List Cell) → Agree a b → merge_cells b a ≡ merge_cells a b
unfolding merge_cells
merge_cells-first [] [] h = refl
merge_cells-first [] (b ∷ bs) h = absurd h
merge_cells-first (a ∷ more) [] h = absurd h
merge_cells-first (a ∷ more) (b ∷ bs) (h, hs) = rw (h, merge_cells-first more bs hs) refl

module _ (rank : String → ℕ) where
  advance-swap :
      (a b r : String)
      → (rank a ≢ rank b) ⊎ (a ≡ b)
      → advance_state rank (advance_state rank r a) b
        ≡ advance_state rank (advance_state rank r b) a
  unfolding advance_state
  advance-swap a b r h = ground (arith, λ (e : a ≡ b). ap rank e)

  advance-first :
      (a b : String) → (rank a ≢ rank b) ⊎ (a ≡ b) → advance_state rank a b ≡ advance_state rank b a
  unfolding advance_state
  advance-first a b h = ground (arith, λ (e : a ≡ b). ap rank e)

-- What one leg after another leaves of a row.
unfoldable pub merged : (String → ℕ) → String → Option Row → Claim → Row
merged rank key none c = inserted key c
merged rank key (some r) c = merge rank c r

unfoldable pub merge_all : (String → ℕ) → String → Option Row → List Claim → Option Row
merge_all rank key o [] = o
merge_all rank key o (c ∷ cs) = merge_all rank key (some (merged rank key o c)) cs

-- The legs of one record, as the drain applies them.
unfoldable pub reconcile_all : (String → ℕ) → String → List Claim → Table → Table
reconcile_all rank key [] rows = rows
reconcile_all rank key (c ∷ cs) rows = reconcile_all rank key cs (reconcile rank none key c rows).0

abbrev pub AllCompatible : (String → ℕ) → List Claim → Type 0
AllCompatible rank [] = Unit
AllCompatible rank (c ∷ cs) = All (Compatible rank c) cs × AllCompatible rank cs

module _ (rank : String → ℕ) (key : String) where
  Compatible-sym : (a b : Claim) → Compatible rank a b → Compatible rank b a
  Compatible-sym a b h = record {
    states = elim h.states [ inl ne ↦ inl (λ e. ne (sym e)) | inr e ↦ inr (sym e) ];
    values = Agree-sym a.values b.values h.values;
  }

  merged-swap :
      (o : Option Row) (a b : Claim)
      → Compatible rank a b
      → merged rank key (some (merged rank key o a)) b
        ≡ merged rank key (some (merged rank key o b)) a
  unfolding merged merge
  merged-swap none a b h =
      rw (advance-first rank a.state b.state h.states, merge_cells-first a.values b.values h.values)
        refl
  merged-swap (some r) a b h =
      rw
        (
          advance-swap rank a.state b.state r.state h.states,
          merge_cells-swap a.values b.values r.cells h.values,
        )
        refl

  All-perm : (P : Claim → Type 0) → {l₁ l₂ : List Claim} → Permᴰ l₁ l₂ → All P l₁ → All P l₂
  All-perm P Permᴰ.nil h = h
  All-perm P (Permᴰ.cons e d) (h, hs) = (subst P e h, All-perm P d hs)
  All-perm P (Permᴰ.swap e f) (h, (k, hs)) = (subst P f k, (subst P e h, hs))
  All-perm P (Permᴰ.trans d₁ d₂) h = All-perm P d₂ (All-perm P d₁ h)

  AllCompatible-perm :
      {l₁ l₂ : List Claim} → Permᴰ l₁ l₂ → AllCompatible rank l₁ → AllCompatible rank l₂
  AllCompatible-perm Permᴰ.nil h = h
  AllCompatible-perm (Permᴰ.cons {l₂ = l₂} e d) (h, hs) = (
    subst (λ (x : Claim). All (Compatible rank x) l₂) e (All-perm _ d h),
    AllCompatible-perm d hs,
  )
  AllCompatible-perm (Permᴰ.swap {a = a} {b = b} {b' = b'} {l = l} e f) ((ab, h), (k, hs)) =
      subst (λ (x : Claim). AllCompatible rank (x ∷ b' ∷ l)) f
        (subst (λ (y : Claim). AllCompatible rank (b ∷ y ∷ l)) e
          ((Compatible-sym a b ab, k), (h, hs)))
  AllCompatible-perm (Permᴰ.trans d₁ d₂) h = AllCompatible-perm d₂ (AllCompatible-perm d₁ h)

  merge_all-perm :
      {l₁ l₂ : List Claim} (o : Option Row)
      → Permᴰ l₁ l₂
      → AllCompatible rank l₁
      → merge_all rank key o l₁ ≡ merge_all rank key o l₂
  unfolding merge_all
  merge_all-perm o Permᴰ.nil h = refl
  merge_all-perm o (Permᴰ.cons {b = b} {l₁ = l} e d) (h, hs) =
      rw e (merge_all-perm (some (merged rank key o b)) d hs)
  merge_all-perm o (Permᴰ.swap {a = a} {b = b} {l = l} e f) ((ab, h), (k, hs)) =
      rw (sym e, sym f) (ap (λ (r : Row). merge_all rank key (some r) l) (merged-swap o a b ab))
  merge_all-perm o (Permᴰ.trans d₁ d₂) h =
      merge_all-perm o d₁ h ∙ merge_all-perm o d₂ (AllCompatible-perm d₁ h)

  by_key_lem :
      (c : Claim) (rows : Table) (o : Option Row)
      → find (has_key key) rows ≡ o
      → find (has_key key) (by_key rank key c o rows).0 ≡ some (merged rank key o c)
  unfolding by_key merged
  by_key_lem c rows none h =
      find-snoc (has_key key) rows (inserted key c) h (has_key-inserted key c)
  by_key_lem c rows (some r) h = find-update_key rank key c rows r h

  find-reconcile_all :
      (cs : List Claim) (rows : Table)
      → find (has_key key) (reconcile_all rank key cs rows)
        ≡ merge_all rank key (find (has_key key) rows) cs
  unfolding reconcile_all merge_all reconcile
  find-reconcile_all [] rows = refl
  find-reconcile_all (c ∷ cs) rows =
      find-reconcile_all cs (by_key rank key c (find (has_key key) rows) rows).0
      ∙ ap (λ (o : Option Row). merge_all rank key o cs)
          (by_key_lem c rows (find (has_key key) rows) refl)

  -- Whether or not the row of a key exists: if the claims of its legs are pairwise compatible, the legs may
  -- be applied in any order, and leave the same row under the key.
  pub reconcile_all-perm :
      (cs ds : List Claim) (rows : Table)
      → Permᴰ cs ds
      → AllCompatible rank cs
      → find (has_key key) (reconcile_all rank key cs rows)
        ≡ find (has_key key) (reconcile_all rank key ds rows)
  reconcile_all-perm cs ds rows p h =
      find-reconcile_all cs rows
      ∙ (merge_all-perm (find (has_key key) rows) p h ∙ sym (find-reconcile_all ds rows))
