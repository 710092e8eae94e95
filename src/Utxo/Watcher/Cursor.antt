-- ===== src/Utxo/Watcher/Cursor.antt =====
-- What a saved cursor says of the blocks up to it.
use whm.Prelude.{ltb}
use whm.Prelude.{ℕ, zero, suc, ◌+◌, ◌-◌, ◌≤◌, ◌<◌}
use whm.Prelude.{◌≡◌, refl, inl, inr, arith}
use whm.Prelude.{Bool, true, false, Option, none, some}
use whm.Prelude.{List, [], ◌∷◌, ◌++◌, append-nil, append_assoc}
use whm.Prelude.{Bool-cases, Option-cases}
use whm.Prelude.{All, All-append}
use whm.Utxo.Watcher.{
  Action, called, saved, Run, follow, handle, is_due, checkpoint, next_mark, read_from,
}
use whm.Utxo.Watcher.Sequential.{one_block, sequential, read_from-sequential}

joined : {W : Type 0} → Option (List W) → Option (List W) → Option (List W)
joined none ws = none
joined (some vs) none = none
joined (some vs) (some ws) = some (vs ++ ws)

-- The withdrawals of so many blocks, if all of them can be fetched.
unfoldable pub withdrawals : {W : Type 0} → (ℕ → Option (List W)) → ℕ → ℕ → Option (List W)
unfolding joined
withdrawals fetch start zero = some []
withdrawals fetch start (suc n) = joined (withdrawals fetch start n) (fetch (start + n))

module _ {W : Type 0} (fetch : ℕ → Option (List W)) (on_withdrawal : W → Bool) (start : ℕ) where
  -- Wherever the cursor is saved, what was called so far is all there is from the first block to that one, and
  -- each call returned.
  unfoldable pub SavesCovered : List W → List (Action W) → Type 0
  SavesCovered so_far [] = Unit
  SavesCovered so_far (called w ∷ more) = SavesCovered (so_far ++ w ∷ []) more
  SavesCovered so_far (saved block ∷ more) =
      (withdrawals fetch start (block + 1 - start) ≡ some so_far)
      × All (λ w. on_withdrawal w ≡ true) so_far
      × SavesCovered so_far more

  withdrawals-next :
      (n : ℕ) (vs ws : List W)
      → withdrawals fetch start n ≡ some vs
      → fetch (start + n) ≡ some ws
      → withdrawals fetch start (suc n) ≡ some (vs ++ ws)
  unfolding withdrawals joined
  withdrawals-next n vs ws e f = rw (withdrawals, e, f) refl

  follow-called :
      (so_far : List W) (w : W) (r rest : Run W)
      → SavesCovered (so_far ++ w ∷ []) (follow r rest).0
      → SavesCovered so_far (follow (called w ∷ r.0, r.1) rest).0
  unfolding follow SavesCovered
  follow-called so_far w (done, true) rest h = h
  follow-called so_far w (done, false) rest h = h

  -- The calls for one block, then what follows if they return.
  handle-SavesCovered :
      (so_far ws : List W) (rest : Run W)
      → All (λ w. on_withdrawal w ≡ true) so_far
      → (All (λ w. on_withdrawal w ≡ true) (so_far ++ ws) → SavesCovered (so_far ++ ws) rest.0)
      → SavesCovered so_far (follow (handle on_withdrawal ws) rest).0
  unfolding handle follow SavesCovered
  handle-SavesCovered so_far [] rest good h = let k = (rw (append-nil so_far) at h) in k good
  handle-SavesCovered so_far (w ∷ ws) rest good h = elim (Bool-cases (on_withdrawal w)) [
    | inl taken ↦ rw taken (
        follow-called so_far w (handle on_withdrawal ws) rest (
          handle-SavesCovered (so_far ++ w ∷ []) ws rest
            (All-append _ so_far (w ∷ []) good (taken, tt))
            (λ g. let e = append_assoc so_far (w ∷ []) ws in rw e (h (rw e at g)))))
    | inr threw ↦ rw threw tt
  ]

  module _ (checkpoint_every safe : ℕ) where
    checkpoint-SavesCovered :
        (so_far : List W) (block mark : ℕ) (rest : Run W)
        → All (λ w. on_withdrawal w ≡ true) so_far
        → withdrawals fetch start (block + 1 - start) ≡ some so_far
        → SavesCovered so_far rest.0
        → SavesCovered so_far (follow (checkpoint checkpoint_every block mark) rest).0
    unfolding checkpoint follow SavesCovered
    checkpoint-SavesCovered so_far block mark rest good all h =
        elim (Bool-cases (is_due checkpoint_every block mark)) [
          | inl due ↦ rw due (all, good, h)
          | inr early ↦ rw early h
        ]

    sequential-SavesCovered :
        (blocks block mark : ℕ) (so_far : List W)
        → start ≤ block
        → block + blocks ≡ safe + 1
        → withdrawals fetch start (block - start) ≡ some so_far
        → All (λ w. on_withdrawal w ≡ true) so_far
        → SavesCovered so_far
            (sequential fetch on_withdrawal checkpoint_every safe blocks block mark).0
    unfolding sequential one_block SavesCovered
    sequential-SavesCovered zero block mark so_far le e all good =
        let n : safe + 1 - start ≡ block - start = omega arith in (rw n all, good, tt)
    sequential-SavesCovered (suc blocks) block mark so_far le e all good =
        elim (Option-cases (fetch block)) [
          | inl lost ↦ rw lost tt
          | inr (ws, found) ↦
              let n : block + 1 - start ≡ suc (block - start) = omega arith in
              let here : start + (block - start) ≡ block = omega arith in
              let next : withdrawals fetch start (block + 1 - start) ≡ some (so_far ++ ws) =
                rw n (withdrawals-next (block - start) so_far ws all (rw here found)) in
              rw found (
                handle-SavesCovered so_far ws _ good (λ g.
                  checkpoint-SavesCovered (so_far ++ ws) block mark _ g next (
                    sequential-SavesCovered blocks (block + 1)
                      (next_mark checkpoint_every block mark) (so_far ++ ws) (omega arith)
                      (omega arith) next g)))
        ]

    -- With at least one fetch in flight: wherever a read from the first unread block saves the cursor at a
    -- block, it could fetch each block up to that one, and the calls made so far are exactly the
    -- withdrawals of these blocks, in order and each once, and all of them returned.
    pub read_from-SavesCovered :
        (concurrency : ℕ)
        → 0 < concurrency
        → SavesCovered [] (read_from fetch on_withdrawal checkpoint_every safe concurrency start).0
    unfolding withdrawals read_from SavesCovered
    read_from-SavesCovered concurrency room = elim (Bool-cases (ltb safe start)) [
      | inl past ↦ rw (read_from, past) tt
      | inr unread ↦
          let le : start ≤ safe = ground arith in
          let z : start - start ≡ 0 = omega arith in
          rw
            (read_from-sequential fetch on_withdrawal checkpoint_every safe concurrency start room
              le)
            (sequential-SavesCovered (safe + 1 - start) start start [] (omega arith) (omega arith)
              (rw (withdrawals, z) refl) tt)
    ]
