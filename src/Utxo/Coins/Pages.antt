-- ===== src/Utxo/Coins/Pages.antt =====
-- The pages of a connector's coins, put together.
use whm.Prelude.{ℕ, zero, suc, ◌+◌, ◌*◌, ◌≤◌, ◌<◌}
use whm.Prelude.{◌≡◌, refl, ap, ◌∙◌, inl, inr, arith}
use whm.Prelude.{Option, some}
use whm.Prelude.{List, [], ◌∷◌, ◌++◌}
use whm.Prelude.{ltb, Bool-cases}
use whm.Prelude.{length, take, drop}
use whm.Prelude.{take-append-drop, length-take, length-drop}
use whm.Utxo.Coins.{Coin, page_size, list_from, list_coins}

module _ {A : Type 0} where
  take-short : (n : ℕ) (l : List A) → length l < n → take n l ≡ l
  take-short zero l h = absurd (omega arith)
  take-short (suc n) [] h = refl
  take-short (suc n) (x ∷ l) h = ap (λ (r : List A). x ∷ r) (take-short n l (omega arith))

  take-plus : (a n : ℕ) (l : List A) → take a l ++ take n (drop a l) ≡ take (a + n) l
  take-plus zero n l = let e : 0 + n ≡ n = omega arith in rw e refl
  take-plus (suc a) zero [] = let e : suc a + 0 ≡ suc a = omega arith in rw e refl
  take-plus (suc a) (suc n) [] = let e : suc a + suc n ≡ suc (a + suc n) = omega arith in rw e refl
  take-plus (suc a) n (x ∷ l) =
      let e : suc a + n ≡ suc (a + n) = omega arith in
      rw e (ap (λ (r : List A). x ∷ r) (take-plus a n l))

module _ (view : ℕ → Option (List Coin)) (coins : List Coin)
    (paged : (i : ℕ) → view i ≡ some (take page_size (drop i coins))) where
  list_from_lem :
      (k from : ℕ)
      → from ≤ length coins
      → length coins < from + k * page_size
      → list_from view k from (take from coins) ≡ some coins
  unfolding list_from
  list_from_lem zero from le h = absurd (omega arith)
  list_from_lem (suc k) from le h =
      let rest = drop from coins in
      elim (Bool-cases (ltb (length (take page_size rest)) page_size)) [
        | inl short ↦
            let l : length rest < page_size =
              (let m = length-take page_size rest in ground arith) in
            rw (list_from, paged from, short)
              (ap some (
                ap (λ (r : List Coin). take from coins ++ r) (take-short page_size rest l)
                ∙ take-append-drop from coins))
        | inr full ↦
            rw (list_from, paged from, full, take-plus from page_size coins)
              (list_from_lem k (from + page_size)
                (let m = length-take page_size rest in
                  let n = length-drop from coins in ground arith)
                (omega arith))
      ]

  -- If the connector's view gives from any index the next twenty coins of one list, or as many as are
  -- left, then the loop ends within one pass more than the list has full pages, and has read the list:
  -- every coin once and in order.
  pub list_coins-whole :
      (passes : ℕ) → length coins < passes * page_size → list_coins view passes ≡ some coins
  list_coins-whole passes h = list_from_lem passes 0 (omega arith) (omega arith)
