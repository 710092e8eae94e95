-- ===== src/Scan/EvmWatcher/Indexed.antt =====
-- agents/scan/src/chains/evm/watcher.ts, `ingest`: a whole sweep beside what a watch's cursor stands for.
use whm.Prelude.{ℕ, ◌+◌, ◌≤◌, ◌<◌}
use whm.Prelude.{◌≡◌, refl, sym, ap, ◌∙◌, ◌≢◌, ◌⊎◌, inl, inr, arith}
use whm.Prelude.{Bool, true, false, Option, none, some}
use whm.Prelude.{List, [], ◌∷◌, map}
use whm.Prelude.{ltb, ltb→lt, Bool-cases}
use whm.Prelude.{All}
use whm.Prelude.Text.{bytes_eq, bytes_eq_sound}
use whm.Scan.Route.{Text}
use whm.Scan.Store.{RawEvent, Cursor, Rewind, apply_rewinds}
use whm.Scan.Store.Rewinds.{Lowered, apply_rewinds-Lowered}
use whm.Scan.EvmWatcher.Fetcher.{Chunk}
use whm.Scan.EvmWatcher.Sweep.{
  RawLog, Watch, Node, Config, State, cursor_id, load_cursor, save_cursor, or_from,
}
use whm.Scan.EvmWatcher.Sweep.{
  first_block, write, checkpoint, writer, rethrow, pipelines, tick, tick_all, sweep_to, safe_head,
  ingest,
}
use whm.Scan.EvmWatcher.Written.{is_logged, Kept, write-Kept}
use whm.Scan.EvmWatcher.Covered.{IsComplete, Covered, Swept, tick-Swept}

load_cursor-save_cursor_other :
    (role other : Text) (next : ℕ) (cursors : List Cursor)
    → role ≢ other
    → load_cursor other (save_cursor role next cursors) ≡ load_cursor other cursors
unfolding load_cursor save_cursor
load_cursor-save_cursor_other role other next [] differ = elim (Bool-cases (bytes_eq role other)) [
  | inl hit ↦ absurd (differ (bytes_eq_sound role other hit))
  | inr miss ↦ rw miss refl
]
load_cursor-save_cursor_other role other next (c ∷ cursors) differ =
    elim (Bool-cases (bytes_eq c.role role)) [
      | inl hit ↦ elim (Bool-cases (bytes_eq c.role other)) [
        | inl too ↦
            absurd (differ (sym (bytes_eq_sound c.role role hit) ∙ bytes_eq_sound c.role other too))
        | inr miss ↦ rw (hit, miss) refl
      ]
      | inr another ↦
          rw (another, load_cursor-save_cursor_other role other next cursors differ) refl
    ]

first_block-Lowered :
    (w : Watch) (cs ds : List Cursor) → Lowered cs ds → first_block w ds ≤ first_block w cs
unfolding first_block or_from load_cursor
first_block-Lowered w [] [] h = omega arith
first_block-Lowered w [] (d ∷ ds) h = absurd h
first_block-Lowered w (c ∷ cs) [] h = absurd h
first_block-Lowered w (c ∷ cs) (d ∷ ds) (same, le, h) =
    rw same (elim (Bool-cases (bytes_eq c.role (cursor_id w))) [
      | inl hit ↦ rw hit le
      | inr miss ↦ rw miss (first_block-Lowered w cs ds h)
    ])

module _ (cfg : Config) (node : Node) (accepts : RawEvent → Bool) (w : Watch) where
  -- What another watch's part of a sweep leaves alone.
  record Aside (before : State) (after : State × Bool) : Type 0 where
    pub grown :
        (l : RawLog) → is_logged before.store.0 l ≡ true → is_logged after.0.store.0 l ≡ true
    pub same : first_block w after.0.cursors ≡ first_block w before.cursors

  module _ (v : Watch) (differ : cursor_id v ≢ cursor_id w) where
    first_block_other :
        (next : ℕ) (cs : List Cursor)
        → first_block w (save_cursor (cursor_id v) next cs) ≡ first_block w cs
    unfolding first_block
    first_block_other next cs =
        rw (load_cursor-save_cursor_other (cursor_id v) (cursor_id w) next cs differ) refl

    checkpoint-Aside :
        (next : ℕ) (logs : List RawLog) (st : State) (more : State → State × Bool)
        (r : State × Bool)
        → Kept cfg node accepts logs st r
        → ((later : State) → Aside later (more later))
        → Aside st (checkpoint cfg node accepts v next more r)
    unfolding checkpoint
    checkpoint-Aside next logs st more (st', false) kept rec = record {
      grown = kept.grown;
      same = ap (λ (cs : List Cursor). first_block w cs) kept.same_cursors;
    }
    checkpoint-Aside next logs st more (st', true) kept rec =
        let after = rec (record st' { cursors = save_cursor (cursor_id v) next st'.cursors }) in
        record {
          grown = λ l h. after.grown l (kept.grown l h);
          same =
              after.same
              ∙ (first_block_other next st'.cursors
                  ∙ ap (λ (cs : List Cursor). first_block w cs) kept.same_cursors);
        }

    writer-Aside :
        (chunks : List (Chunk RawLog)) (st : State) → Aside st (writer cfg node accepts v chunks st)
    unfolding writer
    writer-Aside [] st = record { grown = λ l h. h; same = refl }
    writer-Aside (chunk ∷ chunks) st =
        checkpoint-Aside (chunk.end_block + 1) chunk.logs st (writer cfg node accepts v chunks)
          (write cfg node accepts v chunk.logs st) (write-Kept cfg node accepts v chunk.logs st)
          (writer-Aside chunks)

    rethrow-Aside :
        (fetched : Bool) (st : State) (r : State × Bool)
        → Aside st r
        → Aside st (rethrow cfg node accepts fetched r)
    unfolding rethrow
    rethrow-Aside fetched st (after, written) a = record { grown = a.grown; same = a.same }

    tick-Aside : (safe : ℕ) (st : State) → Aside st (tick cfg node accepts v safe st)
    unfolding tick pipelines
    tick-Aside safe st = elim (Bool-cases (ltb safe (first_block v st.cursors))) [
      | inl past ↦ rw past (record { grown = λ l h. h; same = refl })
      | inr inside ↦ rw inside (rethrow-Aside _ st _ (writer-Aside _ st))
    ]

  module _ (logs_of : ℕ → List RawLog) where
    -- Every log of the watch below its cursor is stored.
    unfoldable pub IsIndexed : State → Type 0
    IsIndexed st = Covered cfg node accepts w logs_of w.from (first_block w st.cursors) st.store.0

    abbrev pub AreDistinct : List Watch → Type 0
    AreDistinct ws = All (λ v. (v ≡ w) ⊎ (cursor_id v ≢ cursor_id w)) ws

    Swept-IsIndexed :
        (safe : ℕ) (complete : IsComplete cfg node accepts w logs_of) (st : State)
        (r : State × Bool)
        → IsIndexed st
        → Swept cfg node accepts w logs_of complete safe (first_block w st.cursors) st r
        → IsIndexed r.0
    unfolding IsIndexed Covered
    Swept-IsIndexed safe complete st r ix s b lo hi l i =
        elim (Bool-cases (ltb b (first_block w st.cursors))) [
          | inl old ↦ s.grown l (ix b lo (ltb→lt b _ old) l i)
          | inr new ↦ s.covered b (ground arith) hi l i
        ]

    Aside-IsIndexed : (st : State) (r : State × Bool) → IsIndexed st → Aside st r → IsIndexed r.0
    unfolding IsIndexed Covered
    Aside-IsIndexed st r ix a b lo hi l i = a.grown l (ix b lo (omega (arith, a.same)) l i)

    module _ (complete : IsComplete cfg node accepts w logs_of) (some_room : 0 < cfg.concurrency)
        (size : 0 < cfg.chunk_size) where
      tick-IsIndexed :
          (v : Watch) (safe : ℕ) (st : State)
          → (v ≡ w) ⊎ (cursor_id v ≢ cursor_id w)
          → IsIndexed st
          → IsIndexed (tick cfg node accepts v safe st).0
      tick-IsIndexed v safe st (inl same) ix = rw same (
          Swept-IsIndexed safe complete st _ ix
            (tick-Swept cfg node accepts w logs_of complete safe st some_room size))
      tick-IsIndexed v safe st (inr differ) ix =
          Aside-IsIndexed st _ ix (tick-Aside v differ safe st)

      tick_all-IsIndexed :
          (ws : List Watch) (safe : ℕ) (r : State × Bool)
          → AreDistinct ws
          → IsIndexed r.0
          → IsIndexed (tick_all cfg node accepts ws safe r).0
      unfolding tick_all
      tick_all-IsIndexed [] safe (st, true) _ ix = ix
      tick_all-IsIndexed [] safe (st, false) _ ix = ix
      tick_all-IsIndexed (v ∷ ws) safe (st, false) _ ix = ix
      tick_all-IsIndexed (v ∷ ws) safe (st, true) (d, ds) ix =
          tick_all-IsIndexed ws safe (tick cfg node accepts v safe st) ds
            (tick-IsIndexed v safe st d ix)

      rewound :
          (ids : List Text) (rewinds : List Rewind) (st : State)
          → IsIndexed st
          → IsIndexed (record st { cursors = apply_rewinds ids rewinds st.cursors })
      unfolding IsIndexed Covered
      rewound ids rewinds st ix b lo hi l i =
          let back =
            first_block-Lowered w st.cursors (apply_rewinds ids rewinds st.cursors)
              (apply_rewinds-Lowered ids rewinds st.cursors) in
          ix b lo (omega (arith, back)) l i

      sweep_to-IsIndexed :
          (ws : List Watch) (rewinds : List Rewind) (st : State) (head : Option ℕ)
          → AreDistinct ws
          → IsIndexed st
          → IsIndexed (sweep_to cfg node accepts ws rewinds st head).0
      unfolding sweep_to
      sweep_to-IsIndexed ws rewinds st none d ix = ix
      sweep_to-IsIndexed ws rewinds st (some safe) d ix =
          tick_all-IsIndexed ws safe _ d (rewound (map cursor_id ws) rewinds st ix)

      -- Let the concurrency and the size of a range be positive, let the node's answer for a range hold every log of its blocks
      -- that the watch asks for, and let the cursors of the other watches have other names. If every log of the
      -- watch from its first block up to its cursor is stored, then it is so after a sweep, whatever the rewinds,
      -- the head and the refusals of the node and of the database.
      pub ingest-IsIndexed :
          (ws : List Watch) (rewinds : List Rewind) (now last_head_at : ℕ) (tip asked : Option ℕ)
          (st : State)
          → AreDistinct ws
          → IsIndexed st
          → IsIndexed (ingest cfg node accepts ws rewinds now last_head_at tip asked st).0
      unfolding ingest
      ingest-IsIndexed ws rewinds now last_head_at tip asked st d ix =
          sweep_to-IsIndexed ws rewinds st (safe_head cfg now last_head_at tip asked) d ix
