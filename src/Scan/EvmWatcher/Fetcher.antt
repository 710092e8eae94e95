-- ===== src/Scan/EvmWatcher/Fetcher.antt =====
-- agents/scan/src/chains/evm/watcher.ts, `tick`: the fetcher, which keeps requests for ranges of blocks in flight. It sees
-- nothing of the database, so that what it hands over is a list of chunks, and whether it threw.
use whm.Prelude.{ℕ, zero, suc, ◌+◌, ◌-◌}
use whm.Prelude.{Bool, true, false, Option, none, some}
use whm.Prelude.{List, [], ◌∷◌, ◌++◌}
use whm.Prelude.{ltb, leb, if◌then◌else◌}

pub record Chunk (L : Type 0) : Type 0 where
  pub end_block : ℕ
  pub logs : List L

-- What was pushed to the queue, and whether no request was refused.
abbrev pub Pushed : Type 0 → Type 0
Pushed L = List (Chunk L) × Bool

unfoldable pub push_first : {L : Type 0} → Chunk L → Pushed L → Pushed L
push_first chunk (chunks, end) = (chunk ∷ chunks, end)

-- The chunk that was shifted, or the throw of awaiting it, before what follows.
unfoldable pub await_chunk : {L : Type 0} → Option (Chunk L) → Pushed L → Pushed L
await_chunk none rest = ([], false)
await_chunk (some chunk) rest = push_first chunk rest

-- `next + chunkSize - 1n > safe ? safe : next + chunkSize - 1n`, for a size of at least 1.
unfoldable pub end_of : ℕ → ℕ → ℕ → ℕ
end_of chunk_size safe next =
    if ltb safe (next + chunk_size - 1) then safe else next + chunk_size - 1

unfoldable pub next_of : ℕ → ℕ → ℕ → ℕ
next_of chunk_size safe next = end_of chunk_size safe next + 1

unfoldable pub chunk_of : {L : Type 0} → ℕ → Option (List L) → Option (Chunk L)
chunk_of to none = none
chunk_of to (some logs) = some (record { end_block = to; logs = logs })

-- The requests in flight, and `next`.
abbrev pub Flight : Type 0 → Type 0
Flight L = List (Option (Chunk L)) × ℕ

module _ {L : Type 0} (get_logs : ℕ → ℕ → Option (List L)) (chunk_size safe : ℕ) where
  unfoldable pub fetch_chunk : ℕ → Option (Chunk L)
  fetch_chunk next = let to = end_of chunk_size safe next in chunk_of to (get_logs next to)

  unfoldable pub kickoff : Flight L → Flight L
  kickoff (inflight, next) =
      if ltb safe next
      then (inflight, next)
      else (inflight ++ fetch_chunk next ∷ [], next_of chunk_size safe next)

  -- `while (inflight.length < concurrency && next <= safe) kickoff()`
  unfoldable pub fill : ℕ → Flight L → Flight L
  fill zero flight = flight
  fill (suc room) (inflight, next) =
      let more = fill room (kickoff (inflight, next)) in
      if leb next safe then more else (inflight, next)

  -- `while (inflight.length > 0)`; `passes` bounds the iterations.
  unfoldable pub shift_loop : ℕ → Flight L → Pushed L
  shift_loop zero flight = ([], false)
  shift_loop (suc passes) ([], next) = ([], true)
  shift_loop (suc passes) (chunk ∷ inflight, next) =
      await_chunk chunk (shift_loop passes (kickoff (inflight, next)))

  -- From the first block that is not covered.
  unfoldable pub fetcher : ℕ → ℕ → Pushed L
  fetcher concurrency next = shift_loop (safe + 2 - next) (fill concurrency ([], next))
