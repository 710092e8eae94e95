-- ===== src/Utxo/Coins.antt =====
-- agents/utxo/src/near/coins.ts: reading a connector's coins page by page, and the coin that a withdrawal
-- spends. A coin is its id and its value; a throw is `none`.
pub mod BestFit
pub mod Pages
mod Example
use whm.Prelude.{ℕ, zero, suc, ◌+◌, ◌-◌, ◌*◌, ◌/◌, ◌%◌, ◌^◌, ◌≤◌, ◌<◌, min, String}
use whm.Prelude.{◌≡◌, refl, sym, ap, ◌∙◌, ◌≢◌, ◌↔◌, ◌⊎◌, inl, inr, arith}
use whm.Prelude.{Bool, true, false, not, ◌&&◌, ◌||◌, Option, none, some}
use whm.Prelude.{List, [], ◌∷◌, ◌++◌, map, append-nil, append_assoc}
use whm.Prelude.{ltb, leb, ◌==◌, if◌then◌else◌, ltb→lt, lt→ltb, ==_iff, Bool-cases, Option-cases}
use whm.Prelude.{length, get_elem?, take, drop, replicate, All, All-append}
use whm.Prelude.{length-append, take-append-drop, length-take, length-drop, length-replicate}
use whm.Prelude.{take-append, drop-append}
use whm.Prelude.{str_eq, eq_iff, eq_refl}

abbrev pub Coin : Type 0
Coin = List ℕ × ℕ

-- The connector's `withdraw_bridge_fee` and `min_change_amount`.
pub record ConnectorConfig : Type 0 where
  pub fee_min : ℕ
  pub fee_rate : ℕ
  pub min_change_amount : ℕ

abbrev pub page_size : ℕ
page_size = 20

-- `get_utxos_paged` from an index, and how many passes the loop has. `none` is a read that throws.
unfoldable pub list_from : (ℕ → Option (List Coin)) → ℕ → ℕ → List Coin → Option (List Coin)
list_from view zero from coins = none
list_from view (suc k) from coins =
    let next = list_from view k (from + page_size) in
    elim (view from) [
      | none ↦ none
      | some page ↦
          if ltb (length page) page_size then some (coins ++ page) else next (coins ++ page)
    ]

abbrev pub list_coins : (ℕ → Option (List Coin)) → ℕ → Option (List Coin)
list_coins view passes = list_from view passes 0 []

-- What Omni keeps.
unfoldable pub bridge_fee : ConnectorConfig → ℕ → ℕ
bridge_fee config balance =
    let rated = balance * config.fee_rate / 10_000 in
    if ltb config.fee_min rated then rated else config.fee_min

-- A coin pays exactly, or leaves change that is large enough.
abbrev pub fits : ConnectorConfig → ℕ → ℕ → Bool
fits config need value = (value == need) || leb (need + config.min_change_amount) value

unfoldable pub fitting : ConnectorConfig → ℕ → List Coin → List Coin
fitting config need [] = []
fitting config need ((id, value) ∷ coins) =
    let rest = fitting config need coins in
    if fits config need value then (id, value) ∷ rest else rest

-- `replace("@", ":")`, of the first.
unfoldable pub colon_for_at : List ℕ → List ℕ
colon_for_at [] = []
colon_for_at (c ∷ s) = if c == b'@' then b':' ∷ s else c ∷ colon_for_at s

unfoldable pub first_id : List Coin → Option (List ℕ)
first_id [] = none
first_id ((id, value) ∷ coins) = some (colon_for_at id)

-- `localeCompare` of two ids, as a test that the first does not come after the second, is a parameter.
module _ (in_order : List ℕ → List ℕ → Bool) where
  unfoldable pub before : Coin → Coin → Bool
  before (ia, a) (ib, b) = if a == b then in_order ia ib else ltb a b

  -- `sort` is stable.
  unfoldable pub insert : Coin → List Coin → List Coin
  insert c [] = c ∷ []
  insert c (d ∷ ds) = let rest = insert c ds in if before c d then c ∷ d ∷ ds else d ∷ rest

  unfoldable pub sort : List Coin → List Coin
  sort [] = []
  sort (c ∷ cs) = insert c (sort cs)

  unfoldable pub pick_coin : List Coin → ConnectorConfig → ℕ → ℕ → Option (List ℕ)
  unfolding first_id
  pick_coin coins config balance miner_fee =
      let fee = bridge_fee config balance in
      if leb balance (fee + miner_fee)
      then none
      else first_id (sort (fitting config (balance - fee) coins))
