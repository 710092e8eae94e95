-- ===== src/Utxo/Watcher/Example.antt =====
-- A read of five blocks with two fetches in flight, and instances of the theorems at it.
use whm.Prelude.{ℕ}
use whm.Prelude.{◌≡◌, refl, arith}
use whm.Prelude.{Bool, false, Option, some}
use whm.Prelude.{List, [], ◌∷◌}
use whm.Prelude.{ltb, ◌==◌, if◌then◌else◌}
use whm.Utxo.Watcher.{
  called, saved, follow, handle, is_due, checkpoint, next_mark, loop, read_from, first_unread, read,
  fill, push_next, advance, safe_block,
}
use whm.Utxo.Watcher.Sequential.{sequential, read_from-sequential}
use whm.Utxo.Watcher.Cursor.{SavesCovered, read_from-SavesCovered}

-- The third block has two withdrawals and the fifth one.
abbrev fetch : ℕ → Option (List ℕ)
fetch n = if n == 12 then some (1 ∷ 2 ∷ []) else if n == 14 then some (3 ∷ []) else some []

-- The third withdrawal is not taken.
abbrev takes : ℕ → Bool
takes w = ltb w 3

read_five :
    read fetch takes 2 2 (some 9) 0 (safe_block 26 12)
    ≡ (saved 11 ∷ called 1 ∷ called 2 ∷ saved 13 ∷ called 3 ∷ [], false)
unfolding read read_from safe_block first_unread fill loop handle follow checkpoint is_due next_mark
    advance push_next
read_five = refl

read_from-sequential_example : read_from fetch takes 2 14 2 10 ≡ sequential fetch takes 2 14 5 10 10
read_from-sequential_example =
    read_from-sequential fetch takes 2 14 2 10 (omega arith) (omega arith)

read_from-SavesCovered_example : SavesCovered fetch takes 10 [] (read_from fetch takes 2 14 2 10).0
read_from-SavesCovered_example = read_from-SavesCovered fetch takes 10 2 14 2 (omega arith)
