-- ===== src/Utxo/Watcher/Sequential.antt =====
-- Fetching ahead beside reading the blocks one after the other.
use whm.Prelude.{ℕ, zero, suc, ◌+◌, ◌-◌, ◌≤◌, ◌<◌, min}
use whm.Prelude.{◌≡◌, refl, ap, ◌∙◌, inl, inr, arith}
use whm.Prelude.{Bool, true, false, Option, none, some}
use whm.Prelude.{List, [], ◌∷◌, ◌++◌}
use whm.Prelude.{ltb, leb, Bool-cases}
use whm.Prelude.{length}
use whm.Utxo.Watcher.{
  saved, Run, follow, handle, fill, push_next, advance, checkpoint, next_mark, loop, read_from,
}

module _ {W : Type 0} (fetch : ℕ → Option (List W)) (on_withdrawal : W → Bool)
    (checkpoint_every safe : ℕ) where
  unfoldable pub one_block : ℕ → ℕ → Option (List W) → Run W → Run W
  one_block block mark none rest = ([], false)
  one_block block mark (some ws) rest =
      follow (handle on_withdrawal ws) (follow (checkpoint checkpoint_every block mark) rest)

  -- Block after block, each fetched when its turn comes.
  unfoldable pub sequential : ℕ → ℕ → ℕ → Run W
  sequential zero block mark = (saved safe ∷ [], true)
  sequential (suc blocks) block mark =
      one_block block mark (fetch block)
        (sequential blocks (block + 1) (next_mark checkpoint_every block mark))

  -- What is in flight are the fetches of the next blocks.
  fetches : ℕ → ℕ → List (Option (List W))
  fetches zero block = []
  fetches (suc n) block = fetch block ∷ fetches n (block + 1)

  fetches-snoc : (n block : ℕ) → fetches n block ++ fetch (block + n) ∷ [] ≡ fetches (suc n) block
  unfolding fetches
  fetches-snoc zero block = let e : block + 0 ≡ block = omega arith in rw e refl
  fetches-snoc (suc n) block =
      let e : block + suc n ≡ block + 1 + n = omega arith in
      rw e (ap (λ (l : List (Option (List W))). fetch block ∷ l) (fetches-snoc n (block + 1)))

  length-fetches : (n block : ℕ) → length (fetches n block) ≡ n
  unfolding fetches
  length-fetches zero block = refl
  length-fetches (suc n) block = ap suc (length-fetches n (block + 1))

  fill_lem :
      (room next blocks : ℕ)
      → next + blocks ≡ safe + 1
      → fill fetch safe room next ≡ fetches (min room blocks) next
  unfolding fill fetches
  fill_lem zero next blocks e = let m : min 0 blocks ≡ 0 = omega arith in rw m refl
  fill_lem (suc room) next zero e =
      let past : leb next safe ≡ false = ground arith in
      let m : min (suc room) 0 ≡ 0 = omega arith in rw (fill, past, m) refl
  fill_lem (suc room) next (suc blocks) e =
      let inside : leb next safe ≡ true = ground arith in
      let m : min (suc room) (suc blocks) ≡ suc (min room blocks) = omega arith in
      rw (fill, inside, m)
        (ap (λ (l : List (Option (List W))). fetch next ∷ l)
          (fill_lem room (next + 1) blocks (omega arith)))

  one_pass :
      (passes block next mark : ℕ) (o : Option (List W)) (inflight : List (Option (List W)))
      → loop fetch on_withdrawal checkpoint_every safe (suc passes) block next mark (o ∷ inflight)
        ≡ one_block block mark o (
            loop fetch on_withdrawal checkpoint_every safe passes
              (block + 1)
              (advance safe next)
              (next_mark checkpoint_every block mark)
              (push_next fetch safe next inflight))
  unfolding loop one_block
  one_pass passes block next mark none inflight = refl
  one_pass passes block next mark (some ws) inflight = refl

  -- The fetch that a pass starts, if there is a block left for it.
  refill :
      (passes blocks n block next mark : ℕ)
      → next ≡ block + n
      → n ≤ blocks
      → block + blocks ≡ safe + 1
      → ((k : ℕ)
          → k ≤ blocks
          → (0 < blocks → 0 < k)
          → loop fetch on_withdrawal checkpoint_every safe passes block
              (block + k)
              mark
              (fetches k block)
            ≡ sequential blocks block mark)
      → loop fetch on_withdrawal checkpoint_every safe passes block
          (advance safe next)
          mark
          (push_next fetch safe next (fetches n block))
        ≡ sequential blocks block mark
  unfolding push_next advance
  refill passes blocks n block next mark at le e ih = elim (Bool-cases (leb next safe)) [
    | inl inside ↦
        let up : next + 1 ≡ block + suc n = omega arith in
        rw (inside, up, at, fetches-snoc n block) (ih (suc n) (ground arith) (λ b. omega arith))
    | inr past ↦ rw (past, at) (ih n le (λ b. ground arith))
  ]

  -- `n` of the `blocks` that are left are in flight.
  loop_lem :
      (passes blocks n block mark : ℕ)
      → blocks < passes
      → n ≤ blocks
      → (0 < blocks → 0 < n)
      → block + blocks ≡ safe + 1
      → loop fetch on_withdrawal checkpoint_every safe passes block
          (block + n)
          mark
          (fetches n block)
        ≡ sequential blocks block mark
  unfolding sequential fetches loop
  loop_lem zero blocks n block mark h le busy e = absurd (omega arith)
  loop_lem (suc passes) zero zero block mark h le busy e = refl
  loop_lem (suc passes) zero (suc n) block mark h le busy e = absurd (omega arith)
  loop_lem (suc passes) (suc blocks) zero block mark h le busy e =
      absurd (let b = busy (omega arith) in omega arith)
  loop_lem (suc passes) (suc blocks) (suc n) block mark h le busy e =
      one_pass passes block (block + suc n) mark (fetch block) (fetches n (block + 1))
      ∙ ap (λ (later : Run W). one_block block mark (fetch block) later)
          (refill passes blocks n (block + 1) (block + suc n)
            (next_mark checkpoint_every block mark) (omega arith) (omega arith) (omega arith)
            (λ k l b.
              loop_lem passes blocks k (block + 1) (next_mark checkpoint_every block mark)
                (omega arith) l b (omega arith)))

  -- With at least one fetch in flight, reading up to a block that is not below the first unread one does
  -- what reading the blocks one after the other does, fetch by fetch.
  pub read_from-sequential :
      (concurrency start : ℕ)
      → 0 < concurrency
      → start ≤ safe
      → read_from fetch on_withdrawal checkpoint_every safe concurrency start
        ≡ sequential (safe + 1 - start) start start
  unfolding read_from
  read_from-sequential concurrency start some_room le =
      let blocks = safe + 1 - start in
      let inside : ltb safe start ≡ false = ground arith in
      let flying = fill_lem concurrency start blocks (omega arith) in
      rw (inside, flying, length-fetches (min concurrency blocks) start)
        (loop_lem (safe - start + 2) blocks (min concurrency blocks) start start (omega arith)
          (omega arith) (λ b. omega arith) (omega arith))
