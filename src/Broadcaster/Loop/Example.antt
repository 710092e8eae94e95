-- ===== src/Broadcaster/Loop/Example.antt =====
-- Two feeds, of which one has hardly moved since it was sent, and an instance of the theorem at them.
use whm.Prelude.{true, none, some}
use whm.Prelude.{[], ◌∷◌}
use whm.Prelude.{if◌then◌else◌}
use whm.Prelude.{str_eq, eq_iff}
use whm.Broadcaster.Loop.{Feed, BroadcasterState, Answers, tick}
use whm.Broadcaster.Loop.Passes.{DistinctKeys}
use whm.Broadcaster.Loop.Sends.{Ticked, tick-Ticked}

abbrev eth : Feed
eth = record { key = "base:eth"; asset = "eth" }

abbrev btc : Feed
btc = record { key = "base:btc"; asset = "btc" }

-- The chain has a value for each feed, and takes every send.
abbrev fair : Answers
fair = record {
  read = λ f. some (if str_eq f.asset "eth" then 2_000 else 90_000);
  sends = λ f. true;
  saves = λ f. true;
  clock = λ f. 500;
}

abbrev eth_sent : BroadcasterState
eth_sent =
    λ key. if str_eq key "base:eth" then some (record { value = 1_999; sent_at = 300 }) else none

eth-btc : DistinctKeys (eth ∷ btc ∷ [])
eth-btc = (((λ e. absurd (let k = (eq_iff eth.key btc.key).1 e in cc)), tt), (tt, tt))

-- A threshold of a tenth of a percent, a full refresh each 100 and the last one 50 ago.
tick-Ticked_example :
    Ticked fair
      (λ asset. none)
      10
      100
      400
      400
      350
      (eth ∷ btc ∷ [])
      eth_sent
      (tick fair (λ asset. none) 10 100 400 400 (eth ∷ btc ∷ []) (350, eth_sent))
tick-Ticked_example =
    tick-Ticked fair (λ asset. none) 10 100 400 400 350 (eth ∷ btc ∷ []) eth_sent eth-btc
