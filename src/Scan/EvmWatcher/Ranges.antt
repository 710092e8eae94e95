-- ===== src/Scan/EvmWatcher/Ranges.antt =====
-- The fetcher beside one request after the other.
use whm.Prelude.{ℕ, zero, suc, ◌+◌, ◌-◌, ◌≤◌, ◌<◌}
use whm.Prelude.{◌≡◌, refl, ap, inl, inr, arith}
use whm.Prelude.{true, false, Option}
use whm.Prelude.{List, [], ◌∷◌, ◌++◌}
use whm.Prelude.{ltb, leb, if◌then◌else◌, ltb→lt, lt→ltb, Bool-cases}
use whm.Scan.EvmWatcher.Fetcher.{Chunk, Pushed, await_chunk, next_of}
use whm.Scan.EvmWatcher.Fetcher.{fetch_chunk, kickoff, fill, shift_loop, fetcher}

module _ {L : Type 0} (get_logs : ℕ → ℕ → Option (List L)) (chunk_size safe : ℕ) where
  -- Range after range, each requested when its turn comes.
  unfoldable pub one_by_one : ℕ → ℕ → Pushed L
  one_by_one zero next = ([], false)
  one_by_one (suc passes) next =
      let rest =
        await_chunk (fetch_chunk get_logs chunk_size safe next)
          (one_by_one passes (next_of chunk_size safe next)) in
      if leb next safe then rest else ([], true)

  -- `n` ranges from `next` on: the requests, and where they end.
  started : ℕ → ℕ → List (Option (Chunk L))
  started zero next = []
  started (suc n) next =
      fetch_chunk get_logs chunk_size safe next ∷ started n (next_of chunk_size safe next)

  ahead : ℕ → ℕ → ℕ
  ahead zero next = next
  ahead (suc n) next = ahead n (next_of chunk_size safe next)

  started-snoc :
      (n next : ℕ)
      → started n next ++ fetch_chunk get_logs chunk_size safe (ahead n next) ∷ []
        ≡ started (suc n) next
  unfolding started ahead
  started-snoc zero next = refl
  started-snoc (suc n) next =
      ap (λ (l : List (Option (Chunk L))). fetch_chunk get_logs chunk_size safe next ∷ l)
        (started-snoc n (next_of chunk_size safe next))

  ahead-suc : (n next : ℕ) → next_of chunk_size safe (ahead n next) ≡ ahead (suc n) next
  unfolding ahead
  ahead-suc zero next = refl
  ahead-suc (suc n) next = ahead-suc n (next_of chunk_size safe next)

  kickoff-started :
      (n next : ℕ)
      → ahead n next ≤ safe
      → kickoff get_logs chunk_size safe (started n next, ahead n next)
        ≡ (started (suc n) next, ahead (suc n) next)
  unfolding kickoff
  kickoff-started n next h =
      let inside : ltb safe (ahead n next) ≡ false = ground arith in
      rw (inside, started-snoc n next, ahead-suc n next) refl

  kickoff_idle :
      (n next : ℕ)
      → safe < ahead n next
      → kickoff get_logs chunk_size safe (started n next, ahead n next)
        ≡ (started n next, ahead n next)
  unfolding kickoff
  kickoff_idle n next h = rw (lt→ltb safe (ahead n next) h) refl

  -- Each of the ranges starts at a block to read, and there is one if a block is left.
  abbrev Within : ℕ → ℕ → Type 0
  Within zero next = Unit
  Within (suc n) next = (next ≤ safe) × Within n (next_of chunk_size safe next)

  Within-snoc : (n next : ℕ) → Within n next → ahead n next ≤ safe → Within (suc n) next
  unfolding ahead
  Within-snoc zero next _ h = (h, tt)
  Within-snoc (suc n) next (le, w) h = (le, Within-snoc n (next_of chunk_size safe next) w h)

  record Flying (n next : ℕ) : Type 0 where
    within : Within n next
    busy : next ≤ safe → 0 < n

  idle-busy : (n next : ℕ) → safe < ahead n next → next ≤ safe → 0 < n
  unfolding ahead
  idle-busy zero next past le = absurd (omega arith)
  idle-busy (suc n) next past le = omega arith

  -- What a kick-off makes of the requests in flight, behind the first one.
  kickoff-Flying :
      (n next : ℕ)
      → Within n next
      → (k : ℕ) × (kickoff get_logs chunk_size safe (started n next, ahead n next)
          ≡ (started k next, ahead k next))
        × (n ≤ k)
        × Flying k next
  unfolding ahead
  kickoff-Flying n next w = elim (Bool-cases (ltb safe (ahead n next))) [
    | inl past ↦ (
      n,
      kickoff_idle n next (ltb→lt safe (ahead n next) past),
      omega arith,
      record { within = w; busy = idle-busy n next (ltb→lt safe (ahead n next) past) },
    )
    | inr inside ↦
        let le : ahead n next ≤ safe = ground arith in
        (
          suc n,
          kickoff-started n next le,
          omega arith,
          record { within = Within-snoc n next w le; busy = λ _. omega arith },
        )
  ]

  fill-Flying :
      (room n next : ℕ)
      → Within n next
      → 0 < room + n
      → (k : ℕ) × (fill get_logs chunk_size safe room (started n next, ahead n next)
          ≡ (started k next, ahead k next))
        × Flying k next
  unfolding fill
  fill-Flying zero n next w h = (n, refl, record { within = w; busy = λ _. omega arith })
  fill-Flying (suc room) n next w h = elim (Bool-cases (leb (ahead n next) safe)) [
    | inl inside ↦
        let le : ahead n next ≤ safe = ground arith in
        rw (inside, kickoff-started n next le)
          (fill-Flying room (suc n) next (Within-snoc n next w le) (omega arith))
    | inr past ↦ (n, rw past refl, record { within = w; busy = idle-busy n next (ground arith) })
  ]

  loop-one_by_one :
      (passes n next : ℕ)
      → Flying n next
      → shift_loop get_logs chunk_size safe passes (started n next, ahead n next)
        ≡ one_by_one passes next
  unfolding shift_loop one_by_one started ahead
  loop-one_by_one zero n next f = refl
  loop-one_by_one (suc passes) zero next f =
      let past : leb next safe ≡ false = ground (arith, f.busy) in rw past refl
  loop-one_by_one (suc passes) (suc n) next f =
      let inside : leb next safe ≡ true = ground (arith, f.within.0) in
      let (k, same, _, flying) = kickoff-Flying n (next_of chunk_size safe next) f.within.1 in
      rw (inside, same, loop-one_by_one passes k (next_of chunk_size safe next) flying) refl

  -- With a concurrency of at least one, the fetcher hands over what requesting one range after the other does: the
  -- same chunks, in the same order, up to the first request that is refused.
  pub fetcher-one_by_one :
      (concurrency next : ℕ)
      → 0 < concurrency
      → fetcher get_logs chunk_size safe concurrency next ≡ one_by_one (safe + 2 - next) next
  unfolding fetcher started ahead
  fetcher-one_by_one concurrency next some_room =
      let (k, same, flying) = fill-Flying concurrency 0 next tt (omega arith) in
      rw same (loop-one_by_one (safe + 2 - next) k next flying)
