-- ===== src/Relayer/SourceTx/Example.antt =====
-- A hash that appears at the third attempt, and instances of the theorems at it.
use whm.Prelude.{ℕ}
use whm.Prelude.{◌≡◌, refl}
use whm.Prelude.{Option, none, some}
use whm.Prelude.{[], ◌∷◌}
use whm.Prelude.{◌==◌, if◌then◌else◌}
use whm.Prelude.Text.{codes}
use whm.Relayer.Revert.{Text, starts_with}
use whm.Relayer.SourceTx.{
  usable, or_wait, poll, normalize_tx_hash, get, set, remember, keep, ask, from_cache, source_tx,
}

-- Not indexed, then indexed without a hash, then with one.
abbrev third : ℕ → Option (Option Text)
third attempt =
    if attempt == 0 then none else if attempt == 1 then some none else some (some (codes "ab"))

third_found :
    source_tx [] (codes "73/1") third
    ≡ ((codes "73/1", codes "0xab") ∷ [], some (codes "0xab"), 2_000 ∷ 2_000 ∷ [])
unfolding source_tx from_cache get poll or_wait usable normalize_tx_hash starts_with ask keep
    remember set
third_found = refl
