-- ===== src/Scan/NearWatcher/Sorted.antt =====
-- agents/scan/src/chains/near/watcher.ts, the sort of `tick`: its order by height, and what it keeps.
use whm.Prelude.{◌≤◌}
use whm.Prelude.{◌≡◌, arith}
use whm.Prelude.{Bool, true, false}
use whm.Prelude.{List, [], ◌∷◌}
use whm.Prelude.{if_elim}
use whm.Prelude.{All}
use whm.Scan.NearWatcher.{Text, Found, is_before, insert_found, ordered}

pub All-imp :
    {A : Type 0} (P Q : A → Type 0) → ((x : A) → P x → Q x) → (xs : List A) → All P xs → All Q xs
All-imp P Q f [] all = tt
All-imp P Q f (x ∷ xs) (p, all) = (f x p, All-imp P Q f xs all)

abbrev pub Ascending : List Found → Type 0
Ascending [] = Unit
Ascending (f ∷ fs) = All (λ (g : Found). f.height ≤ g.height) fs × Ascending fs

module _ (is_sorted : Text → Text → Bool) where
  is_before-le : (f g : Found) → is_before is_sorted f g ≡ true → f.height ≤ g.height
  unfolding is_before
  is_before-le f g h = ground arith

  is_before-ge : (f g : Found) → is_before is_sorted f g ≡ false → g.height ≤ f.height
  unfolding is_before
  is_before-ge f g h = ground arith

  pub insert_found-All :
      (P : Found → Type 0) (f : Found) (gs : List Found)
      → P f
      → All P gs
      → All P (insert_found is_sorted f gs)
  unfolding insert_found
  insert_found-All P f [] p all = (p, tt)
  insert_found-All P f (g ∷ gs) p (q, all) =
      if_elim (All P) (is_before is_sorted f g) _ _ (λ first. (p, (q, all)))
        (λ later. (q, insert_found-All P f gs p all))

  pub All-insert_found :
      (P : Found → Type 0) (f : Found) (gs : List Found)
      → All P (insert_found is_sorted f gs)
      → P f × All P gs
  unfolding insert_found
  All-insert_found P f [] all = (all.0, tt)
  All-insert_found P f (g ∷ gs) kept =
      if_elim (λ r. All P r → P f × All P (g ∷ gs)) (is_before is_sorted f g) (f ∷ g ∷ gs)
        (g ∷ insert_found is_sorted f gs) (λ first all. (all.0, all.1))
        (λ later all. let (p, rest) = All-insert_found P f gs all.1 in (p, (all.0, rest))) kept

  insert_found-Ascending :
      (f : Found) (gs : List Found) → Ascending gs → Ascending (insert_found is_sorted f gs)
  unfolding insert_found
  insert_found-Ascending f [] up = (tt, tt)
  insert_found-Ascending f (g ∷ gs) (above, up) =
      if_elim Ascending (is_before is_sorted f g) _ _
        (λ first.
          let le = is_before-le f g first in
          (
            (
              le,
              All-imp (λ (k : Found). g.height ≤ k.height) (λ (k : Found). f.height ≤ k.height)
                  (λ k up_to. omega arith) gs above,
            ),
            (above, up),
          ))
        (λ later. (
          insert_found-All (λ (k : Found). g.height ≤ k.height) f gs (is_before-ge f g later) above,
          insert_found-Ascending f gs up,
        ))

  pub ordered-Ascending : (fs : List Found) → Ascending (ordered is_sorted fs)
  unfolding ordered
  ordered-Ascending [] = tt
  ordered-Ascending (f ∷ fs) =
      insert_found-Ascending f (ordered is_sorted fs) (ordered-Ascending fs)

  pub ordered-All : (P : Found → Type 0) (fs : List Found) → All P fs → All P (ordered is_sorted fs)
  unfolding ordered
  ordered-All P [] all = tt
  ordered-All P (f ∷ fs) (p, all) =
      insert_found-All P f (ordered is_sorted fs) p (ordered-All P fs all)

  pub All-ordered : (P : Found → Type 0) (fs : List Found) → All P (ordered is_sorted fs) → All P fs
  unfolding ordered
  All-ordered P [] all = tt
  All-ordered P (f ∷ fs) all =
      let (p, rest) = All-insert_found P f (ordered is_sorted fs) all in (p, All-ordered P fs rest)
