-- ===== src/Relayer/SourceTx.antt =====
-- agents/relayer/src/engine/source-tx.ts, with normalizeTxHash of vaa.ts: the source transaction of a VAA, asked
-- for again along a ramp of waits, and the bounded cache of what was found. `lookup` is what each attempt
-- gives: `none` where it throws, an inner `none` where there is no hash yet.
pub mod Ramp
pub mod Cache
mod Example
use whm.Prelude.{ℕ, zero, suc, ◌+◌, ◌-◌, ◌*◌, ◌/◌, ◌%◌, ◌^◌, ◌≤◌, ◌<◌, min, String}
use whm.Prelude.{◌≡◌, refl, sym, ap, ◌∙◌, ◌≢◌, ◌↔◌, ◌⊎◌, inl, inr, arith}
use whm.Prelude.{Bool, true, false, not, ◌&&◌, ◌||◌, Option, none, some}
use whm.Prelude.{List, [], ◌∷◌, ◌++◌, map, append-nil, append_assoc}
use whm.Prelude.{ltb, leb, ◌==◌, if◌then◌else◌, ltb→lt, lt→ltb, ==_iff, Bool-cases, Option-cases}
use whm.Prelude.{length, get_elem?, take, drop, replicate, All, All-append}
use whm.Prelude.{length-append, take-append-drop, length-take, length-drop, length-replicate}
use whm.Prelude.{take-append, drop-append}
use whm.Prelude.{str_eq, eq_iff, eq_refl}
use whm.Prelude.Text.{codes, bytes_eq}
use whm.Relayer.Revert.{Text, starts_with}

abbrev pub ramp_ms : List ℕ
ramp_ms = 2_000 ∷ 2_000 ∷ 3_000 ∷ 5_000 ∷ 8_000 ∷ 8_000 ∷ 8_000 ∷ []

abbrev pub cache_max : ℕ
cache_max = 1_000

-- `Map<string, string>`, oldest first.
abbrev pub Cache : Type 0
Cache = List (Text × Text)

unfoldable pub normalize_tx_hash : Text → Text
normalize_tx_hash hash = if starts_with hash (codes "0x") then hash else b'0' ∷ b'x' ∷ hash

-- `lookup`: an empty hash is none.
unfoldable pub usable : Option (Option Text) → Option Text
usable none = none
usable (some none) = none
usable (some (some [])) = none
usable (some (some (c ∷ hash))) = some (normalize_tx_hash (c ∷ hash))

unfoldable pub get : Cache → Text → Option Text
get [] id = none
get ((k, v) ∷ cache) id = let rest = get cache id in if bytes_eq k id then some v else rest

-- `Map.set`: a key that is there keeps its place.
unfoldable pub set : Cache → Text → Text → Cache
set [] id hash = (id, hash) ∷ []
set ((k, v) ∷ cache) id hash =
    let rest = set cache id hash in if bytes_eq k id then (k, hash) ∷ cache else (k, v) ∷ rest

-- `cache.delete(cache.keys().next().value)`
unfoldable pub evict : Cache → Cache
evict [] = []
evict (e ∷ cache) = cache

unfoldable pub remember : Cache → Text → Text → Cache
remember cache id hash =
    if leb cache_max (length cache) then set (evict cache) id hash else set cache id hash

unfoldable pub or_wait : Option Text → ℕ → Option Text × List ℕ → Option Text × List ℕ
or_wait (some hash) wait later = (some hash, [])
or_wait none wait (found, waits) = (found, wait ∷ waits)

-- The attempts from one on, with the waits that are left: the hash, and the waits taken.
unfoldable pub poll : (ℕ → Option (Option Text)) → ℕ → List ℕ → Option Text × List ℕ
poll lookup attempt [] = (usable (lookup attempt), [])
poll lookup attempt (wait ∷ waits) =
    let rest = poll lookup (attempt + 1) waits in or_wait (usable (lookup attempt)) wait rest

unfoldable pub keep : Cache → Text → Option Text → Cache
keep cache id none = cache
keep cache id (some hash) = remember cache id hash

unfoldable pub ask : Cache → Text → Option Text × List ℕ → Cache × Option Text × List ℕ
ask cache id (found, waits) = (keep cache id found, found, waits)

unfoldable pub from_cache :
    Option Text → Cache → Cache × Option Text × List ℕ → Cache × Option Text × List ℕ
from_cache none cache asked = asked
from_cache (some hash) cache asked = (cache, some hash, [])

-- The middleware: the cache, the context's `sourceTxHash`, and the waits taken.
unfoldable pub source_tx : Cache → Text → (ℕ → Option (Option Text)) → Cache × Option Text × List ℕ
source_tx cache id lookup = from_cache (get cache id) cache (ask cache id (poll lookup 0 ramp_ms))
