-- ===== src/Utxo/Worker/Example.antt =====
-- Two records of one account, and instances of the theorems at them.
use whm.Prelude.{ℕ}
use whm.Prelude.{◌≡◌}
use whm.Prelude.{Bool, true, some}
use whm.Prelude.{List, [], ◌∷◌}
use whm.Prelude.{All}
use whm.Prelude.Text.{codes}
use whm.Utxo.Coins.{ConnectorConfig}
use whm.Utxo.Worker.{Withdrawal, Answers, withdraw, or_fail, by_account}
use whm.Utxo.Worker.Closes.{Justified, turn-Justified}
use whm.Utxo.Worker.Groups.{group_of, records_of, group_of-by_account}

abbrev first : Withdrawal
first = record { sequence = 1; account = codes "a1"; address = codes "t1x" }

abbrev second : Withdrawal
second = record { sequence = 2; account = codes "a1"; address = codes "t1x" }

abbrev config : ConnectorConfig
config = record { fee_min = 30; fee_rate = 100; min_change_amount = 100 }

abbrev always : List ℕ → List ℕ → Bool
always x y = true

-- The balance is there, and leaves.
abbrev fair : Answers
fair = record {
  held = some 500;
  ensured = true;
  coins = some ((codes "b@1", 470) ∷ []);
  relayed = some (codes "tx");
  left = some 0;
  closes = λ w. true;
}

turn-Justified_example :
    All
      (Justified always config 100 10 fair)
      (or_fail (first ∷ second ∷ []) (withdraw always config 100 10 fair (first ∷ second ∷ [])))
turn-Justified_example = turn-Justified always config 100 10 fair (first ∷ second ∷ [])

group_of-by_account_example :
    group_of (by_account (first ∷ second ∷ [])) (codes "a1")
    ≡ records_of (first ∷ second ∷ []) (codes "a1")
group_of-by_account_example = group_of-by_account (first ∷ second ∷ []) (codes "a1")
