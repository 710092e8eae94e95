-- ===== src/Broadcaster/Staleness.antt =====
-- agents/broadcaster/src/evm/staleness.ts: the weekly closed window of US-equity feeds, and the
-- open-market age of a round. Times are whole unix seconds, a number each.
pub mod Exact
mod Example
use whm.Prelude.{ℕ, zero, suc, ◌+◌, ◌-◌, ◌*◌, ◌/◌, ◌%◌, min, Bool, true, false, ◌&&◌, ◌||◌}
use whm.Prelude.{ltb, leb, ◌==◌, if◌then◌else◌}

abbrev pub hour : ℕ
hour = 3600

-- The cap on the hours walked, `24 * 30`.
abbrev pub max_hours : ℕ
max_hours = 24 * 30

-- `Date.prototype.getUTCDay`: the epoch was a Thursday.
abbrev pub utc_day : ℕ → ℕ
utc_day t = (t / 86400 + 4) % 7

-- `Date.prototype.getUTCHours`
abbrev pub utc_hours : ℕ → ℕ
utc_hours t = t / 3600 % 24

unfoldable pub is_market_closed : ℕ → Bool
is_market_closed t = utc_day t == 6 || utc_day t == 0 || (utc_day t == 5 && leb 16 (utc_hours t))

-- One round's step: the next whole hour, or the end.
unfoldable pub next_stop : ℕ → ℕ → ℕ
next_stop t to = min to ((t / hour + 1) * hour)

-- The `for` loop; the first argument is `MAX_HOURS - hours`.
walk : ℕ → ℕ → ℕ → ℕ → ℕ
unfolding next_stop
walk zero t to open_ = open_
walk (suc left) t to open_ = elim (ltb t to) [
  | true ↦
      walk left (next_stop t to) to
        (if is_market_closed t then open_ else open_ + (next_stop t to - t))
  | false ↦ open_
]

unfoldable pub market_age : ℕ → ℕ → ℕ
unfolding walk is_market_closed
market_age from to = walk max_hours from to 0
