-- ===== src/Scan/Upsert/Example.antt =====
-- Two legs of one transfer, and instances of the theorems at them.
use whm.Prelude.{ℕ, String}
use whm.Prelude.{◌≡◌, refl, inl, arith}
use whm.Prelude.{none, some}
use whm.Prelude.{List, [], ◌∷◌}
use mathlib.Core.List.{Permᴰ}
use whm.Scan.Upsert.{
  Row, state_rank, advance_state, coalesce, merge_cells, Claim, merge, has_key, find, update,
  by_key, reconcile,
}
use whm.Scan.Upsert.Rank.{Kept, reconcile-Kept}
use whm.Scan.Upsert.AnyOrder.{Compatible, reconcile_all, reconcile_all-perm}

abbrev states : List (String × ℕ)
states = ("sent", 0) ∷ ("delivered", 2) ∷ []

unfoldable rank : String → ℕ
rank s = state_rank states s

abbrev sent : Claim
sent = record { state = "sent"; values = some "0xaa" ∷ none ∷ [] }

abbrev delivered : Claim
delivered = record { state = "delivered"; values = none ∷ some "0xbb" ∷ [] }

sent-delivered : Compatible rank sent delivered
unfolding rank state_rank coalesce
sent-delivered = record { states = inl (λ e. absurd (omega arith)); values = (refl, (refl, tt)) }

-- The delivery comes first, and the row ends the same.
late :
    find (has_key "7") (reconcile_all rank "7" (delivered ∷ sent ∷ []) [])
    ≡ some (record { key = "7"; state = "delivered"; cells = some "0xaa" ∷ some "0xbb" ∷ [] })
unfolding find has_key reconcile_all reconcile by_key update merge advance_state merge_cells
    coalesce rank state_rank
late = refl

reconcile_all-perm_example :
    find (has_key "7") (reconcile_all rank "7" (sent ∷ delivered ∷ []) [])
    ≡ find (has_key "7") (reconcile_all rank "7" (delivered ∷ sent ∷ []) [])
reconcile_all-perm_example =
    reconcile_all-perm rank "7" (sent ∷ delivered ∷ []) (delivered ∷ sent ∷ []) []
      (Permᴰ.swap refl refl) ((sent-delivered, tt), (tt, tt))

abbrev before : Row
before = record { key = "7"; state = "delivered"; cells = none ∷ some "0xbb" ∷ [] }

found : find (has_key "7") (before ∷ []) ≡ some before
unfolding find has_key
found = refl

reconcile-Kept_example :
    (new : Row) × (find (has_key "7") (reconcile rank (some 1) "0xbb" sent (before ∷ [])).0
      ≡ some new)
    × Kept rank sent before new
reconcile-Kept_example = reconcile-Kept rank sent "7" (some 1) "0xbb" (before ∷ []) before found
