-- ===== src/Scan/EvmWatcher/Lookups.antt =====
-- agents/scan/src/chains/evm/watcher.ts: `blockTimes` and `senders`, a request for each key in slices that go out together.
use whm.Prelude.{ℕ, zero, suc, ◌*◌}
use whm.Prelude.{Bool, true, false, ◌||◌, Option, none, some}
use whm.Prelude.{List, [], ◌∷◌}
use whm.Prelude.{ltb, if◌then◌else◌}
use whm.Prelude.{length, take, drop}
use whm.Prelude.Text.{number_key, text_key, Bytes, to_lower_case}
use whm.Prelude.Assoc.{Key, uniq, get, put}

-- What a node says to a request: an error, null, or what was asked for.
pub data Answer (A : Type 0) : Type 0 where
  refused : Answer A
  null : Answer A
  found : A → Answer A

unfoldable pub is_refused : {A : Type 0} → Answer A → Bool
is_refused refused = true
is_refused null = false
is_refused (found a) = false

module _ {K V W : Type 0} ⦃key : Key K⦄ (ask : K → Answer V) (value : V → W) where
  -- `Promise.all` of a slice throws if one of its requests does.
  unfoldable pub any_refused : List K → Bool
  any_refused [] = false
  any_refused (k ∷ ks) = is_refused (ask k) || any_refused ks

  unfoldable pub keep : K → Answer V → List (K × W) → List (K × W)
  keep k refused m = m
  keep k null m = m
  keep k (found v) m = put k (value v) m

  unfoldable pub keep_slice : List K → List (K × W) → List (K × W)
  keep_slice [] m = m
  keep_slice (k ∷ ks) m = keep_slice ks (keep k (ask k) m)

  -- `for (let i = 0; i < ks.length; i += concurrency)`. The map, and whether nothing threw; `passes`
  -- bounds the slices.
  unfoldable pub lookup_slices : ℕ → ℕ → List K → List (K × W) → List (K × W) × Bool
  lookup_slices passes concurrency [] m = (m, true)
  lookup_slices zero concurrency (k ∷ ks) m = (m, false)
  lookup_slices (suc passes) concurrency (k ∷ ks) m =
      let slice = take concurrency (k ∷ ks) in
      let rest =
        lookup_slices passes concurrency (drop concurrency (k ∷ ks)) (keep_slice slice m) in
      if any_refused slice then (m, false) else rest

  unfoldable pub lookup_all : ℕ → List K → List (K × W) → List (K × W) × Bool
  lookup_all concurrency ks m = lookup_slices (length ks) concurrency ks m

-- `TIME_CACHE_MAX`
abbrev pub time_cache_max : ℕ
time_cache_max = 20_000

abbrev pub Times : Type 0
Times = List (ℕ × ℕ)

unfoldable pub is_missing : {V : Type 0} → Option V → Bool
is_missing none = true
is_missing (some v) = false

-- `.filter((n) => !this.times.has(n))`
unfoldable pub missing : Times → List ℕ → List ℕ
missing times [] = []
missing times (n ∷ ns) =
    let rest = missing times ns in if is_missing (get n times) then n ∷ rest else rest

-- `if (this.times.size > TIME_CACHE_MAX) this.times.clear()`, unless a request threw before.
unfoldable pub clear_large : Times × Bool → Times × Bool
clear_large (times, false) = (times, false)
clear_large (times, true) = (if ltb time_cache_max (length times) then [] else times, true)

-- The cache behind the call, which is also the map that it returns, and whether it returns. A
-- timestamp is in seconds.
unfoldable pub block_times : (ℕ → Answer ℕ) → ℕ → List ℕ → Times → Times × Bool
block_times get_block concurrency numbers times =
    clear_large
      (lookup_all get_block (λ (s : ℕ). s * 1000) concurrency (missing times (uniq numbers)) times)

unfoldable pub senders : (Bytes → Answer Bytes) → ℕ → List Bytes → List (Bytes × Bytes) × Bool
senders get_transaction concurrency hashes =
    lookup_all get_transaction to_lower_case concurrency (uniq hashes) []
