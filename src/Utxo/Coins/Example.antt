-- ===== src/Utxo/Coins/Example.antt =====
-- A connector of three coins, and instances of the theorems at it.
use whm.Prelude.{ℕ}
use whm.Prelude.{Bool, true}
use whm.Prelude.{List, [], ◌∷◌}
use whm.Prelude.Text.{codes}
use whm.Utxo.Coins.{Coin, ConnectorConfig, pick_coin, bridge_fee}
use whm.Utxo.Coins.BestFit.{Picked, pick_coin-Picked}

abbrev coins : List Coin
coins = (codes "a@0", 900) ∷ (codes "b@1", 470) ∷ (codes "c@0", 700) ∷ []

abbrev config : ConnectorConfig
config = record { fee_min = 30; fee_rate = 100; min_change_amount = 100 }

abbrev always : List ℕ → List ℕ → Bool
always x y = true

pick_coin-Picked_example :
    Picked coins config 500 (bridge_fee config 500) 10 (pick_coin always coins config 500 10)
pick_coin-Picked_example = pick_coin-Picked always coins config 500 10
