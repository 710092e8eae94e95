-- ===== src/Scan/NearWatcher/NoneLost.antt =====
-- agents/scan/src/chains/near/watcher.ts: a tick that ends, from the accounts' histories to the events inserted.
use whm.Prelude.{ℕ, ◌+◌, ◌*◌, ◌≤◌, ◌<◌}
use whm.Prelude.{◌≡◌, refl, sym, ap, ◌∙◌, arith}
use whm.Prelude.{Bool, Option, none, some}
use whm.Prelude.{List, []}
use whm.Prelude.{All, In}
use whm.Scan.NearWatcher.{
  Text, Row, Found, Tx, NearLog, Watch, or_at, hold_blocks, tx_batch, Pass, save, sources, moved,
  gather, on_gathered, tick,
}
use whm.Scan.NearWatcher.Sorted.{All-imp}
use whm.Scan.NearWatcher.Sources.{sources-Listed}
use whm.Scan.NearWatcher.Gathered.{FoundBy, IsAt, AnswersAt, Gathered, gather-Gathered}
use whm.Scan.NearWatcher.Caught.{Caught, on_gathered-Caught}
use whm.Scan.NearWatcher.Ingested.{All-at, Ingested, found-Ingested}

-- An answer holds every row of the account's ledger that is past the height it was asked from.
abbrev pub IsIndexed : (Text → ℕ → Option (List Row)) → (Text → List Row) → Type 0
IsIndexed history ledger =
    (a : Text) (after : ℕ) (rows : List Row)
    → history a after ≡ some rows
    → All (λ (r : Row). after < r.height → In r rows) (ledger a)

module _ (is_sorted : Text → Text → Bool) (near_logs : Tx → List NearLog)
    (near_topic : NearLog → Text) (watches : List Watch) (cursors : Text → ℕ)
    (transaction : Text → Option Tx) (history : Text → ℕ → Option (List Row))
    (concurrency : ℕ) where
  gathered :
      (o : Option (List Found)) (p : Pass) (to tip : ℕ)
      → on_gathered is_sorted near_logs near_topic watches cursors transaction
          (tx_batch * concurrency)
          o
        ≡ moved p to tip
      → (found : List Found) × (o ≡ some found)
  unfolding on_gathered
  gathered none p to tip h = cc
  gathered (some found) p to tip h = (found, refl)

  save-le : (to cursor height : ℕ) → cursor < height → height ≤ save to cursor → height ≤ to
  unfolding save
  save-le to cursor height past le = ground arith

  tick-Caught :
      (height_of : Text → ℕ)
      → AnswersAt height_of history
      → 1 ≤ concurrency
      → (p : Pass) (to tip : ℕ)
      → tick is_sorted near_logs near_topic watches cursors transaction history concurrency
        ≡ moved p to tip
      → (found : List Found) × Gathered height_of history cursors (sources watches []) [] found
        × Caught is_sorted near_logs near_topic watches cursors transaction found p to tip
  unfolding tick
  tick-Caught height_of at some_step p to tip h =
      let (found, got) = gathered (gather history cursors (sources watches []) []) p to tip h in
      let all = gather-Gathered height_of history cursors at (sources watches []) [] found tt got in
      let moves =
        ap
          (on_gathered is_sorted near_logs near_topic watches cursors transaction
            (tx_batch * concurrency))
          (sym got)
        ∙ h in
      (
        found,
        all,
        on_gathered-Caught is_sorted near_logs near_topic watches cursors transaction
            (tx_batch * concurrency) found p to tip (omega arith)
            (All-imp (λ (f : Found). IsAt height_of f.hash f.height) (λ (f : Found). 1 ≤ f.height)
              (λ f i. i.1) found all.heights)
            moves,
      )

  -- Where an answer of the index has every transaction of the account past the height asked from, each at
  -- its one positive height, and a tick with a positive concurrency ends with its cursors saved: each
  -- transaction that an account of a watch has past the watch's old cursor and not past its new one is
  -- read, and is whole or at least 600 blocks below the tip, and every log or call of it that the watch
  -- keeps is inserted.
  pub tick-Ingested :
      (height_of : Text → ℕ) (ledger : Text → List Row)
      → AnswersAt height_of history
      → IsIndexed history ledger
      → 1 ≤ concurrency
      → (p : Pass) (to tip : ℕ)
      → tick is_sorted near_logs near_topic watches cursors transaction history concurrency
        ≡ moved p to tip
      → (w : Watch) (a : Text) (r : Row) → In w watches
      → In a (or_at w.via w.at)
      → In r (ledger a)
      → cursors w.id < r.height
      → r.height ≤ save to (cursors w.id)
      → Ingested near_logs near_topic watches cursors transaction w r p.inserted tip
  tick-Ingested height_of ledger at indexed some_step p to tip h w a r watched via there past le =
      let (found, all, caught) = tick-Caught height_of at some_step p to tip h in
      let read = all.sourced a w (sources-Listed a w watches [] watched via) in
      let listed =
        All-at (λ (k : Row). read.after < k.height → In k read.rows) r (ledger a)
          (indexed a read.after read.rows read.answered) there (omega (arith, read.early)) in
      found-Ingested near_logs near_topic watches cursors transaction tip to p.inserted found r w a
        caught.taken
        (All-at (λ (k : Row). FoundBy a k.hash k.height found) r read.rows read.there listed)
        watched via past (save-le to (cursors w.id) r.height past le)

  -- Where the answers of the index have each transaction at its one positive height, and a tick with a
  -- positive concurrency ends with its cursors saved: the height they are saved at is at most 600 blocks
  -- below the tip.
  pub tick-bounded :
      (height_of : Text → ℕ)
      → AnswersAt height_of history
      → 1 ≤ concurrency
      → (p : Pass) (to tip : ℕ)
      → tick is_sorted near_logs near_topic watches cursors transaction history concurrency
        ≡ moved p to tip
      → tip ≤ to + hold_blocks
  tick-bounded height_of at some_step p to tip h =
      let (found, all, caught) = tick-Caught height_of at some_step p to tip h in caught.lag
