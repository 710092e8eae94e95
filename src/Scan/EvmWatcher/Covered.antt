-- ===== src/Scan/EvmWatcher/Covered.antt =====
-- agents/scan/src/chains/evm/watcher.ts, `tick`: a watch's cursor beside the blocks whose logs are stored.
use whm.Prelude.{ℕ, zero, suc, ◌+◌, ◌-◌, ◌≤◌, ◌<◌}
use whm.Prelude.{◌≡◌, refl, ap, ◌∙◌, inl, inr, arith}
use whm.Prelude.{Bool, true, false, ◌&&◌, Option, none, some}
use whm.Prelude.{List, [], ◌∷◌}
use whm.Prelude.{ltb, leb, ltb→lt, Bool-cases}
use whm.Prelude.{In}
use whm.Prelude.Text.{bytes_eq, bytes_eq_refl}
use whm.Scan.Route.{Text, EventRow}
use whm.Scan.Store.{RawEvent, Cursor}
use whm.Scan.EvmWatcher.Fetcher.{
  Chunk, Pushed, push_first, await_chunk, end_of, next_of, chunk_of, fetch_chunk,
}
use whm.Scan.EvmWatcher.Ranges.{one_by_one, fetcher-one_by_one}
use whm.Scan.EvmWatcher.Sweep.{
  RawLog, Watch, Node, Config, State, cursor_id, load_cursor, save_cursor, or_from,
}
use whm.Scan.EvmWatcher.Sweep.{first_block, write, checkpoint, writer, rethrow, pipelines, tick}
use whm.Scan.EvmWatcher.Written.{is_logged, Kept, write-Kept}

and_true : (a b : Bool) → (a && b) ≡ true → (a ≡ true) × (b ≡ true)
and_true a b h = ground arith

pub load_cursor-save_cursor :
    (role : Text) (next : ℕ) (cursors : List Cursor)
    → load_cursor role (save_cursor role next cursors) ≡ some next
unfolding load_cursor save_cursor
load_cursor-save_cursor role next [] = rw (bytes_eq_refl role) refl
load_cursor-save_cursor role next (c ∷ cursors) = elim (Bool-cases (bytes_eq c.role role)) [
  | inl hit ↦ rw (hit, hit) refl
  | inr miss ↦ rw (miss, miss) (load_cursor-save_cursor role next cursors)
]

module _ {L : Type 0} (get_logs : ℕ → ℕ → Option (List L)) (chunk_size safe : ℕ) where
  -- Chunks that carry on from a block: each is what the node gave for the range up to its end.
  unfoldable pub Chunks : ℕ → List (Chunk L) → Type 0
  Chunks next [] = Unit
  Chunks next (chunk ∷ chunks) =
      (next ≤ chunk.end_block)
      × (chunk.end_block ≤ safe)
      × (get_logs next chunk.end_block ≡ some chunk.logs)
      × Chunks (chunk.end_block + 1) chunks

  -- The block behind the last chunk.
  unfoldable pub reached : ℕ → List (Chunk L) → ℕ
  reached next [] = next
  reached next (chunk ∷ chunks) = reached (chunk.end_block + 1) chunks

  end_of-bounds :
      (next : ℕ)
      → 0 < chunk_size
      → next ≤ safe
      → (next ≤ end_of chunk_size safe next) × (end_of chunk_size safe next ≤ safe)
  unfolding end_of
  end_of-bounds next size le = ground arith

  -- Chunks in order, and the head if none was refused.
  record Ordered (next : ℕ) (pushed : Pushed L) : Type 0 where
    pub chunks : Chunks next pushed.0
    pub complete : pushed.1 ≡ true → safe < reached next pushed.0

  push_first-Ordered :
      (next to : ℕ) (o : Option (List L)) (rest : Pushed L)
      → get_logs next to ≡ o
      → next ≤ to
      → to ≤ safe
      → Ordered (to + 1) rest
      → Ordered next (await_chunk (chunk_of to o) rest)
  unfolding await_chunk push_first chunk_of Chunks reached
  push_first-Ordered next to none rest e up le r = record { chunks = tt; complete = λ f. cc }
  push_first-Ordered next to (some logs) rest e up le r = record {
    chunks = (up, le, e, r.chunks);
    complete = r.complete;
  }

  one_by_one-Ordered :
      (passes next : ℕ)
      → 0 < chunk_size
      → safe + 1 < passes + next
      → Ordered next (one_by_one get_logs chunk_size safe passes next)
  unfolding one_by_one fetch_chunk next_of Chunks reached
  one_by_one-Ordered zero next size h = record { chunks = tt; complete = λ f. cc }
  one_by_one-Ordered (suc passes) next size h = elim (Bool-cases (leb next safe)) [
    | inl inside ↦
        let to = end_of chunk_size safe next in
        let bounds = end_of-bounds next size (ground arith) in
        rw inside (
          push_first-Ordered next to (get_logs next to) _ refl bounds.0 bounds.1
            (one_by_one-Ordered passes (to + 1) size (omega (arith, bounds.0))))
    | inr past ↦ rw past (record { chunks = tt; complete = λ f. ground arith })
  ]

first_block-save_cursor :
    (w : Watch) (next : ℕ) (cursors : List Cursor)
    → first_block w (save_cursor (cursor_id w) next cursors) ≡ next
unfolding first_block or_from
first_block-save_cursor w next cursors =
    rw (load_cursor-save_cursor (cursor_id w) next cursors) refl

module _ (cfg : Config) (node : Node) (accepts : RawEvent → Bool) (w : Watch)
    (logs_of : ℕ → List RawLog) where
  -- What the node gives for a range holds the logs of its blocks that the watch asks for.
  abbrev pub IsComplete : Type 0
  IsComplete =
      (from to b : ℕ) (logs : List RawLog)
      → node.get_logs w.at_addresses w.topics from to ≡ some logs
      → from ≤ b
      → b ≤ to
      → (l : RawLog) → In l (logs_of b)
      → In l logs

  unfoldable pub Covered : ℕ → ℕ → List EventRow → Type 0
  Covered lo hi rows =
      (b : ℕ) → lo ≤ b → b < hi → (l : RawLog) → In l (logs_of b) → is_logged rows l ≡ true

  pub record Advanced (next target : ℕ) (before : State) (after : State × Bool) : Type 0 where
    pub grown :
        (l : RawLog) → is_logged before.store.0 l ≡ true → is_logged after.0.store.0 l ≡ true
    pub forward : next ≤ first_block w after.0.cursors
    pub covered : Covered next (first_block w after.0.cursors) after.0.store.0
    pub done : after.1 ≡ true → first_block w after.0.cursors ≡ target

  module _ (complete : IsComplete) (safe : ℕ) where
    -- What a sweep of the watch does, from the first block that its cursor had not covered.
    pub record Swept (next : ℕ) (before : State) (after : State × Bool) : Type 0 where
      pub grown :
          (l : RawLog) → is_logged before.store.0 l ≡ true → is_logged after.0.store.0 l ≡ true
      pub forward : next ≤ first_block w after.0.cursors
      pub covered : Covered next (first_block w after.0.cursors) after.0.store.0
      pub done : after.1 ≡ true → safe < first_block w after.0.cursors

    checkpoint-Advanced :
        (next target to : ℕ) (logs : List RawLog) (st : State) (more : State → State × Bool)
        (r : State × Bool)
        → next ≤ to
        → node.get_logs w.at_addresses w.topics next to ≡ some logs
        → first_block w st.cursors ≡ next
        → Kept cfg node accepts logs st r
        → ((later : State)
            → first_block w later.cursors ≡ to + 1
            → Advanced (to + 1) target later (more later))
        → Advanced next target st (checkpoint cfg node accepts w (to + 1) more r)
    unfolding checkpoint Covered
    checkpoint-Advanced next target to logs st more (st', false) up e at kept rec =
        let still : first_block w st'.cursors ≡ next =
          ap (λ (cs : List Cursor). first_block w cs) kept.same_cursors ∙ at in
        record {
          grown = kept.grown;
          forward = omega (arith, still);
          covered = λ b lo hi l i. absurd (omega (arith, still));
          done = λ f. cc;
        }
    checkpoint-Advanced next target to logs st more (st', true) up e at kept rec =
        let later : State = record st' {
          cursors = save_cursor (cursor_id w) (to + 1) st'.cursors;
        } in
        let after = rec later (first_block-save_cursor w (to + 1) st'.cursors) in
        record {
          grown = λ l h. after.grown l (kept.grown l h);
          forward = omega (arith, after.forward);
          covered = λ b lo hi l i. elim (Bool-cases (leb b to)) [
            | inl within ↦
                after.grown l (kept.all_in refl l (complete next to b logs e lo (ground arith) l i))
            | inr beyond ↦ after.covered b (ground arith) hi l i
          ];
          done = after.done;
        }

    writer-Advanced :
        (chunks : List (Chunk RawLog)) (next : ℕ) (st : State)
        → Chunks (node.get_logs w.at_addresses w.topics) cfg.chunk_size safe next chunks
        → first_block w st.cursors ≡ next
        → Advanced next
            (reached (node.get_logs w.at_addresses w.topics) cfg.chunk_size safe next chunks)
            st
            (writer cfg node accepts w chunks st)
    unfolding writer Chunks reached Covered
    writer-Advanced [] next st _ at = record {
      grown = λ l h. h;
      forward = omega (arith, at);
      covered = λ b lo hi l i. absurd (omega (arith, at));
      done = λ f. at;
    }
    writer-Advanced (chunk ∷ chunks) next st (up, le, e, cs) at =
        checkpoint-Advanced next _ chunk.end_block chunk.logs st (writer cfg node accepts w chunks)
          (write cfg node accepts w chunk.logs st) up e at
          (write-Kept cfg node accepts w chunk.logs st)
          (λ later there. writer-Advanced chunks (chunk.end_block + 1) later cs there)

    rethrow-Swept :
        (next target : ℕ) (fetched : Bool) (st : State) (r : State × Bool)
        → Advanced next target st r
        → (fetched ≡ true → safe < target)
        → Swept next st (rethrow cfg node accepts fetched r)
    unfolding rethrow
    rethrow-Swept next target fetched st (after, written) a whole = record {
      grown = a.grown;
      forward = a.forward;
      covered = a.covered;
      done = λ ok.
          let both = and_true written fetched ok in omega (arith, a.done both.0, whole both.1);
    }

    -- With a positive concurrency and size of a range, and where the node's answer for a range holds every log of its blocks
    -- that the watch asks for, a sweep of the watch in every outcome keeps the logs that were stored, does
    -- not move the cursor back, and has stored every log of the blocks that the cursor passed; if it does
    -- not throw, the cursor has passed the head.
    pub tick-Swept :
        (st : State)
        → 0 < cfg.concurrency
        → 0 < cfg.chunk_size
        → Swept (first_block w st.cursors) st (tick cfg node accepts w safe st)
    unfolding tick pipelines Covered
    tick-Swept st some_room size =
        let next = first_block w st.cursors in
        let requests = node.get_logs w.at_addresses w.topics in
        elim (Bool-cases (ltb safe next)) [
          | inl past ↦ rw past (record {
            grown = λ l h. h;
            forward = omega arith;
            covered = λ b lo hi l i. absurd (omega arith);
            done = λ ok. ltb→lt safe next past;
          })
          | inr inside ↦
              rw
                (
                  inside,
                  fetcher-one_by_one requests cfg.chunk_size safe cfg.concurrency next some_room,
                )
                (let pushed = one_by_one requests cfg.chunk_size safe (safe + 2 - next) next in
                  let order =
                    one_by_one-Ordered requests cfg.chunk_size safe (safe + 2 - next) next size
                      (ground arith) in
                  rethrow-Swept next _ pushed.1 st _
                    (writer-Advanced pushed.0 next st order.chunks refl) order.complete)
        ]
