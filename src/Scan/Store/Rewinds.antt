-- ===== src/Scan/Store/Rewinds.antt =====
-- applyRewinds of agents/scan/src/db.ts: where it leaves the cursors.
use whm.Prelude.{ℕ, ◌≤◌, min}
use whm.Prelude.{◌≡◌, refl, ◌∙◌, ◌⊎◌, inl, inr, arith}
use whm.Prelude.{Bool, true, false}
use whm.Prelude.{List, [], ◌∷◌}
use whm.Prelude.{if◌then◌else◌, Bool-cases}
use whm.Prelude.{All}
use whm.Scan.Route.{Text, includes}
use whm.Scan.Store.{Cursor, Rewind, targets, lower, apply_rewinds}

-- The same cursors, none of them further on.
abbrev pub Lowered : List Cursor → List Cursor → Type 0
Lowered [] [] = Unit
Lowered [] (d ∷ ds) = ⊥
Lowered (c ∷ cs) [] = ⊥
Lowered (c ∷ cs) (d ∷ ds) = (d.role ≡ c.role) × (d.next_block ≤ c.next_block) × Lowered cs ds

Lowered-refl : (cs : List Cursor) → Lowered cs cs
Lowered-refl [] = tt
Lowered-refl (c ∷ cs) = (refl, omega arith, Lowered-refl cs)

Lowered-trans : (xs ys zs : List Cursor) → Lowered xs ys → Lowered ys zs → Lowered xs zs
Lowered-trans [] [] zs h k = k
Lowered-trans [] (y ∷ ys) zs h k = absurd h
Lowered-trans (x ∷ xs) [] zs h k = absurd h
Lowered-trans (x ∷ xs) (y ∷ ys) [] h k = absurd k
Lowered-trans (x ∷ xs) (y ∷ ys) (z ∷ zs) (e, l, h) (f, m, k) =
    (f ∙ e, omega arith, Lowered-trans xs ys zs h k)

Lowered-here :
    (b : Bool) (block : ℕ) (c : Cursor) (cs ds : List Cursor)
    → Lowered cs ds
    → Lowered (c ∷ cs) ((if b then record c { next_block = min c.next_block block } else c) ∷ ds)
Lowered-here true block c cs ds h = (refl, omega arith, h)
Lowered-here false block c cs ds h = (refl, omega arith, h)

Lowered-lower :
    (roles : List Text) (block : ℕ) (cs : List Cursor) → Lowered cs (lower roles block cs)
unfolding lower
Lowered-lower roles block [] = tt
Lowered-lower roles block (c ∷ cs) =
    Lowered-here (includes roles c.role) block c cs (lower roles block cs)
      (Lowered-lower roles block cs)

-- Every cursor that a rewind names lies at its block or before.
abbrev pub Reached : List Text → ℕ → List Cursor → Type 0
Reached roles block [] = Unit
Reached roles block (c ∷ cs) =
    ((includes roles c.role ≡ false) ⊎ (c.next_block ≤ block)) × Reached roles block cs

Reached-lower :
    (roles : List Text) (block : ℕ) (cs : List Cursor) → Reached roles block (lower roles block cs)
unfolding lower
Reached-lower roles block [] = tt
Reached-lower roles block (c ∷ cs) = elim (Bool-cases (includes roles c.role)) [
  | inl named ↦ rw named (inr (omega arith), Reached-lower roles block cs)
  | inr unnamed ↦ rw unnamed (inl unnamed, Reached-lower roles block cs)
]

Reached-Lowered :
    (roles : List Text) (block : ℕ) (cs ds : List Cursor)
    → Lowered cs ds
    → Reached roles block cs
    → Reached roles block ds
Reached-Lowered roles block [] [] h r = tt
Reached-Lowered roles block [] (d ∷ ds) h r = absurd h
Reached-Lowered roles block (c ∷ cs) [] h r = absurd h
Reached-Lowered roles block (c ∷ cs) (d ∷ ds) (e, l, h) (inl unnamed, r) =
    (inl (rw e unnamed), Reached-Lowered roles block cs ds h r)
Reached-Lowered roles block (c ∷ cs) (d ∷ ds) (e, l, h) (inr le, r) =
    (inr (omega arith), Reached-Lowered roles block cs ds h r)

pub apply_rewinds-Lowered :
    (ids : List Text) (rs : List Rewind) (cs : List Cursor) → Lowered cs (apply_rewinds ids rs cs)
unfolding apply_rewinds
apply_rewinds-Lowered ids [] cs = Lowered-refl cs
apply_rewinds-Lowered ids (r ∷ rs) cs =
    Lowered-trans cs (lower (targets ids r) r.block_number cs) _
      (Lowered-lower (targets ids r) r.block_number cs)
      (apply_rewinds-Lowered ids rs (lower (targets ids r) r.block_number cs))

apply_rewinds-Reached :
    (ids : List Text) (rs : List Rewind) (cs : List Cursor)
    → All (λ r. Reached (targets ids r) r.block_number (apply_rewinds ids rs cs)) rs
unfolding apply_rewinds
apply_rewinds-Reached ids [] cs = tt
apply_rewinds-Reached ids (r ∷ rs) cs =
    let mid = lower (targets ids r) r.block_number cs in
    (
      Reached-Lowered (targets ids r) r.block_number mid (apply_rewinds ids rs mid)
          (apply_rewinds-Lowered ids rs mid) (Reached-lower (targets ids r) r.block_number cs),
      apply_rewinds-Reached ids rs mid,
    )

-- Applying the rewinds of a chain moves no cursor forward and forgets none, and brings each cursor that a
-- rewind names, all of the watcher's for a star, to the rewind's block or before it.
pub apply_rewinds-Back :
    (ids : List Text) (rs : List Rewind) (cs : List Cursor)
    → Lowered cs (apply_rewinds ids rs cs)
      × All (λ r. Reached (targets ids r) r.block_number (apply_rewinds ids rs cs)) rs
apply_rewinds-Back ids rs cs = (apply_rewinds-Lowered ids rs cs, apply_rewinds-Reached ids rs cs)
