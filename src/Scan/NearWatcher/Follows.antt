-- ===== src/Scan/NearWatcher/Follows.antt =====
-- agents/scan/src/chains/near/watcher.ts: the steps of a drain that ends, one transaction at a time.
use whm.Prelude.{ℕ, zero, suc, ◌≤◌}
use whm.Prelude.{◌≡◌, refl, sym, ap, ◌∙◌, arith}
use whm.Prelude.{Option, none, some}
use whm.Prelude.{List, [], ◌∷◌, ◌++◌}
use whm.Prelude.{length, take, drop}
use whm.Prelude.{take-append-drop, length-drop}
use mathlib.Core.Path.{subst}
use whm.Scan.NearWatcher.{Text, Found, Tx, NearLog, Watch, Pass, chunks, Drained, ended}
use whm.Scan.NearWatcher.{take_one, take_all, and_read, read_all, on_read, steps, top_of, drain}

unfoldable pub flat : List (List Found) → List Found
flat [] = []
flat (c ∷ cs) = c ++ flat cs

flat-chunks :
    (n step : ℕ) (fs : List Found) → 1 ≤ step → length fs ≤ n → flat (chunks n step fs) ≡ fs
unfolding flat chunks
flat-chunks zero step [] some_step le = refl
flat-chunks zero step (f ∷ fs) some_step le = absurd (omega arith)
flat-chunks (suc n) step [] some_step le = refl
flat-chunks (suc n) step (f ∷ fs) some_step le =
    ap (λ rest. take step (f ∷ fs) ++ rest)
      (flat-chunks n step (drop step (f ∷ fs)) some_step (omega (arith, length-drop step (f ∷ fs))))
    ∙ take-append-drop step (f ∷ fs)

module _ (near_logs : Tx → List NearLog) (near_topic : NearLog → Text) (watches : List Watch)
    (cursors : Text → ℕ) (transaction : Text → Option Tx) (top : ℕ) where
  pub data Follows : List Found → Pass → Pass → Type 0 where
    done : (p : Pass) → Follows [] p p
    next :
        (f : Found) (fs : List Found) (tx : Tx) (p q : Pass)
        → transaction f.hash ≡ some tx
        → Follows fs (take_one near_logs near_topic watches cursors top f tx p) q
        → Follows (f ∷ fs) p q

  and_read-some :
      (f : Found) (o : Option Tx) (r : Option (List (Found × Tx))) (read : List (Found × Tx))
      → and_read near_logs near_topic watches cursors transaction f o r ≡ some read
      → (tx : Tx) × (rest : List (Found × Tx)) × (o ≡ some tx)
        × (r ≡ some rest)
        × ((f, tx) ∷ rest ≡ read)
  unfolding and_read
  and_read-some f none r read h = cc
  and_read-some f (some tx) none read h = cc
  and_read-some f (some tx) (some rest) read h = (tx, rest, refl, refl, cc)

  read-Follows :
      (fs gs : List Found) (read : List (Found × Tx)) (p q : Pass)
      → read_all near_logs near_topic watches cursors transaction fs ≡ some read
      → Follows gs (take_all near_logs near_topic watches cursors top read p) q
      → Follows (fs ++ gs) p q
  unfolding read_all take_all
  read-Follows [] gs read p q h later =
      let same : [] ≡ read = cc in
      subst (λ r. Follows gs (take_all near_logs near_topic watches cursors top r p) q) (sym same)
        later
  read-Follows (f ∷ fs) gs read p q h later =
      let (tx, rest, there, ok, same) =
        and_read-some f (transaction f.hash)
          (read_all near_logs near_topic watches cursors transaction fs) read h in
      next f (fs ++ gs) tx p q there (
        read-Follows fs gs rest (take_one near_logs near_topic watches cursors top f tx p) q ok (
          subst (λ r. Follows gs (take_all near_logs near_topic watches cursors top r p) q)
            (sym same) later))

  on_read-ended :
      (after : Pass → Drained) (o : Option (List (Found × Tx))) (p q : Pass)
      → on_read near_logs near_topic watches cursors transaction top p after o ≡ ended q
      → (read : List (Found × Tx)) × (o ≡ some read)
        × (after (take_all near_logs near_topic watches cursors top read p) ≡ ended q)
  unfolding on_read
  on_read-ended after none p q h = cc
  on_read-ended after (some read) p q h = (read, refl, h)

  pub steps-Follows :
      (cs : List (List Found)) (p q : Pass)
      → steps near_logs near_topic watches cursors transaction top cs p ≡ ended q
      → Follows (flat cs) p q
  unfolding steps flat
  steps-Follows [] p q h = let same : p ≡ q = cc in subst (λ r. Follows [] p r) same (done p)
  steps-Follows (c ∷ cs) p q h =
      let (read, ok, later) =
        on_read-ended (steps near_logs near_topic watches cursors transaction top cs)
          (read_all near_logs near_topic watches cursors transaction c) p q h in
      read-Follows c (flat cs) read p q ok (steps-Follows cs _ q later)

module _ (near_logs : Tx → List NearLog) (near_topic : NearLog → Text) (watches : List Watch)
    (cursors : Text → ℕ) (transaction : Text → Option Tx) where
  pub drain-Follows :
      (step : ℕ) (fs : List Found) (q : Pass)
      → 1 ≤ step
      → drain near_logs near_topic watches cursors transaction step fs ≡ ended q
      → Follows near_logs near_topic watches cursors transaction
          (top_of fs)
          fs
          (record { inserted = []; hold = none })
          q
  unfolding drain
  drain-Follows step fs q some_step h =
      subst
        (λ gs.
          Follows near_logs near_topic watches cursors transaction (top_of fs) gs
            (record { inserted = []; hold = none }) q)
        (flat-chunks (length fs) step fs some_step (omega arith))
        (steps-Follows near_logs near_topic watches cursors transaction (top_of fs)
          (chunks (length fs) step fs) (record { inserted = []; hold = none }) q h)
