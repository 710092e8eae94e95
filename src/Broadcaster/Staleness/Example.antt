-- ===== src/Broadcaster/Staleness/Example.antt =====
-- Tests and instances of the staleness theorems.
use whm.Prelude.{◌+◌, ◌-◌, ◌*◌, ◌/◌, min}
use whm.Prelude.{◌≡◌, refl}
use whm.Broadcaster.Staleness.{market_age}
use whm.Broadcaster.Staleness.Exact.{open_seconds, market_age-open_seconds}

-- Friday 2024-01-05 15:30 UTC to Monday 2024-01-08 01:00 UTC: 30 min on Friday, 1 h on Monday.
over_weekend : market_age 1704468600 1704675600 ≡ 5400
unfolding market_age
over_weekend = refl

market_age-open_seconds_example :
    market_age 1704468600 1704675600
    ≡ open_seconds 1704468600
        (min (1704675600 - 1704468600) ((1704468600 / 3600 + 720) * 3600 - 1704468600))
market_age-open_seconds_example = market_age-open_seconds 1704468600 1704675600
