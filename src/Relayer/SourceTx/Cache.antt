-- ===== src/Relayer/SourceTx/Cache.antt =====
-- The cache behind the middleware: its size, and what it holds.
use whm.Prelude.{ℕ, ◌+◌, ◌≤◌}
use whm.Prelude.{◌≡◌, refl, ◌⊎◌, inl, inr, arith}
use whm.Prelude.{Option, none, some}
use whm.Prelude.{List, [], ◌∷◌}
use whm.Prelude.{Bool-cases, Option-cases}
use whm.Prelude.{length}
use whm.Prelude.Text.{bytes_eq, bytes_eq_refl}
use whm.Relayer.Revert.{Text}
use whm.Relayer.SourceTx.{
  ramp_ms, poll, Cache, cache_max, get, set, evict, remember, keep, ask, from_cache, source_tx,
}

length-set : (cache : Cache) (id hash : Text) → length (set cache id hash) ≤ length cache + 1
unfolding set
length-set [] id hash = omega arith
length-set ((k, v) ∷ cache) id hash = ground (arith, length-set cache id hash)

get-set : (cache : Cache) (id hash : Text) → get (set cache id hash) id ≡ some hash
unfolding set get
get-set [] id hash = rw (bytes_eq_refl id) refl
get-set ((k, v) ∷ cache) id hash = elim (Bool-cases (bytes_eq k id)) [
  | inl same ↦ rw (same, get, same) refl
  | inr another ↦ rw (another, get, another) (get-set cache id hash)
]

length-remember :
    (cache : Cache) (id hash : Text)
    → length cache ≤ cache_max
    → length (remember cache id hash) ≤ cache_max
unfolding remember evict
length-remember [] id hash h = ground (arith, length-set [] id hash)
length-remember (e ∷ cache) id hash h =
    ground (arith, length-set cache id hash, length-set (e ∷ cache) id hash)

get-remember : (cache : Cache) (id hash : Text) → get (remember cache id hash) id ≡ some hash
unfolding remember
get-remember cache id hash = ground (arith, get-set cache id hash, get-set (evict cache) id hash)

-- What the middleware leaves, of a cache within its bound.
pub record Kept (id : Text) (r : Cache × Option Text × List ℕ) : Type 0 where
  pub bounded : length r.0 ≤ cache_max
  pub holds : (r.1 ≡ none) ⊎ (get r.0 id ≡ r.1)

ask-Kept :
    (cache : Cache) (id : Text) (r : Option Text × List ℕ)
    → length cache ≤ cache_max
    → Kept id (ask cache id r)
unfolding ask keep
ask-Kept cache id (none, waits) h = record { bounded = h; holds = inl refl }
ask-Kept cache id (some hash, waits) h = record {
  bounded = length-remember cache id hash h;
  holds = inr (get-remember cache id hash);
}

-- From a cache of at most a thousand hashes, whatever the attempts give, the cache has at most a thousand
-- after, and where the middleware finds a hash, the cache gives that hash for the VAA from then on, so that
-- a retry does not ask again.
pub source_tx-Kept :
    (cache : Cache) (id : Text) (lookup : ℕ → Option (Option Text))
    → length cache ≤ cache_max
    → Kept id (source_tx cache id lookup)
unfolding source_tx from_cache
source_tx-Kept cache id lookup h = elim (Option-cases (get cache id)) [
  | inl miss ↦ rw miss (ask-Kept cache id (poll lookup 0 ramp_ms) h)
  | inr (hash, hit) ↦ rw hit (record { bounded = h; holds = inr hit })
]
