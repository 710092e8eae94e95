-- ===== src/Utxo/Watcher.antt =====
-- agents/utxo/src/apps/relayer/watcher.ts: `HydrationWatcher.read`, with the fetches that it keeps in flight. A run
-- is what it does: the calls of `onWithdrawal` and the saves of the cursor, in order, and whether it
-- returns or throws. Blocks are numbered from the one after the cursor, so that none is below zero.
pub mod Sequential
pub mod Cursor
mod Example
use whm.Prelude.{ℕ, zero, suc, ◌+◌, ◌-◌, ◌*◌, ◌/◌, ◌%◌, ◌^◌, ◌≤◌, ◌<◌, min, String}
use whm.Prelude.{◌≡◌, refl, sym, ap, ◌∙◌, ◌≢◌, ◌↔◌, ◌⊎◌, inl, inr, arith}
use whm.Prelude.{Bool, true, false, not, ◌&&◌, ◌||◌, Option, none, some}
use whm.Prelude.{List, [], ◌∷◌, ◌++◌, map, append-nil, append_assoc}
use whm.Prelude.{ltb, leb, ◌==◌, if◌then◌else◌, ltb→lt, lt→ltb, ==_iff, Bool-cases, Option-cases}
use whm.Prelude.{length, get_elem?, take, drop, replicate, All, All-append}
use whm.Prelude.{length-append, take-append-drop, length-take, length-drop, length-replicate}
use whm.Prelude.{take-append, drop-append}
use whm.Prelude.{str_eq, eq_iff, eq_refl}

pub data Action (W : Type 0) : Type 0 where
  called : W → Action W
  saved : ℕ → Action W

-- What was done, and whether the end was reached.
abbrev pub Run : Type 0 → Type 0
Run W = List (Action W) × Bool

-- One thing after another, unless the first throws.
unfoldable pub follow : {W : Type 0} → Run W → Run W → Run W
follow (done, true) (more, end) = (done ++ more, end)
follow (done, false) next = (done, false)

-- `BigInt(number) - confirmations`, where it is not negative.
unfoldable pub safe_block : ℕ → ℕ → Option ℕ
safe_block number confirmations =
    if leb confirmations number then some (number - confirmations) else none

-- The calls for one block; one that throws is the last.
unfoldable pub handle : {W : Type 0} → (W → Bool) → List W → Run W
handle on_withdrawal [] = ([], true)
handle on_withdrawal (w ∷ ws) =
    let rest = handle on_withdrawal ws in
    if on_withdrawal w then follow (called w ∷ [], true) rest else (called w ∷ [], false)

-- `block - checkpoint >= checkpointEvery`, with `mark` one above the checkpoint.
unfoldable pub is_due : ℕ → ℕ → ℕ → Bool
is_due checkpoint_every block mark = leb checkpoint_every (block + 1 - mark)

unfoldable pub checkpoint : {W : Type 0} → ℕ → ℕ → ℕ → Run W
checkpoint checkpoint_every block mark =
    (if is_due checkpoint_every block mark then saved block ∷ [] else [], true)

unfoldable pub next_mark : ℕ → ℕ → ℕ → ℕ
next_mark checkpoint_every block mark =
    if is_due checkpoint_every block mark then block + 1 else mark

unfoldable pub advance : ℕ → ℕ → ℕ
advance safe next = if leb next safe then next + 1 else next

module _ {W : Type 0} (fetch : ℕ → Option (List W)) where
  -- `while (inflight.length < concurrency && next <= safe) inflight.push(this.fetch(next++))`
  unfoldable pub fill : ℕ → ℕ → ℕ → List (Option (List W))
  fill safe zero next = []
  fill safe (suc room) next =
      let rest = fill safe room (next + 1) in if leb next safe then fetch next ∷ rest else []

  unfoldable pub push_next : ℕ → ℕ → List (Option (List W)) → List (Option (List W))
  push_next safe next inflight = if leb next safe then inflight ++ fetch next ∷ [] else inflight

  module _ (on_withdrawal : W → Bool) (checkpoint_every safe : ℕ) where
    -- The `for` over what is in flight, and the save behind it; `passes` bounds the iterations.
    unfoldable pub loop : ℕ → ℕ → ℕ → ℕ → List (Option (List W)) → Run W
    loop zero block next mark inflight = ([], false)
    loop (suc passes) block next mark [] = (saved safe ∷ [], true)
    loop (suc passes) block next mark (none ∷ inflight) = ([], false)
    loop (suc passes) block next mark (some ws ∷ inflight) =
        let rest =
          loop passes (block + 1) (advance safe next) (next_mark checkpoint_every block mark)
            (push_next safe next inflight) in
        follow (handle on_withdrawal ws) (follow (checkpoint checkpoint_every block mark) rest)

    -- From the first block that was not read yet.
    unfoldable pub read_from : ℕ → ℕ → Run W
    read_from concurrency start =
        let inflight = fill safe concurrency start in
        if ltb safe start
        then ([], true)
        else loop (safe - start + 2) start (start + length inflight) start inflight

-- `read`: the cursor, or the block before the first route's deployment.
unfoldable pub first_unread : Option ℕ → ℕ → ℕ
first_unread none deployed = deployed
first_unread (some cursor) deployed = cursor + 1

unfoldable pub read :
    {W : Type 0} → (ℕ → Option (List W)) → (W → Bool) → ℕ → ℕ → Option ℕ → ℕ → Option ℕ → Run W
read fetch on_withdrawal concurrency checkpoint_every cursor deployed none = ([], true)
read fetch on_withdrawal concurrency checkpoint_every cursor deployed (some safe) =
    read_from fetch on_withdrawal checkpoint_every safe concurrency (first_unread cursor deployed)
