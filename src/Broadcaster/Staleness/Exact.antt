-- ===== src/Broadcaster/Staleness/Exact.antt =====
-- marketAge beside the seconds at which the market is open.
use whm.Prelude.{ℕ, zero, suc, ◌+◌, ◌-◌, ◌*◌, ◌/◌, ◌%◌, ◌≤◌, ◌<◌, min, ◌≡◌, ◌∙◌, refl, arith}
use whm.Prelude.{inl, inr, Bool-cases, ltb, leb, ltb→lt, if◌then◌else◌}
use whm.Broadcaster.Staleness.{max_hours, is_market_closed, next_stop, walk, market_age}

-- The specification: of the seconds `t`, `t + 1`, … (`n` of them) those at which it is open.
pub open_seconds : ℕ → ℕ → ℕ
open_seconds t zero = 0
open_seconds t (suc n) = (if is_market_closed t then 0 else 1) + open_seconds (suc t) n

closed_by_hour : (s t : ℕ) → s / 3600 ≡ t / 3600 → is_market_closed s ≡ is_market_closed t
unfolding is_market_closed
closed_by_hour s t h = let d : s / 86400 ≡ t / 86400 = omega arith in rw (h, d)

open_seconds-add : (t m n : ℕ) → open_seconds t (m + n) ≡ open_seconds t m + open_seconds (t + m) n
unfolding open_seconds
open_seconds-add t zero n =
    let e : t + 0 ≡ t = omega arith in let z : 0 + n ≡ n = omega arith in rw (z, e) (omega arith)
open_seconds-add t (suc m) n =
    let e : suc m + n ≡ suc (m + n) = omega arith in
    let f : t + suc m ≡ suc t + m = omega arith in
    rw (e, f) (omega (arith, open_seconds-add (suc t) m n))

-- Inside one hour the seconds are all open or all closed.
open_seconds_in_hour :
    (t n : ℕ)
    → t + n ≤ (t / 3600 + 1) * 3600
    → open_seconds t n ≡ (if is_market_closed t then 0 else n)
unfolding open_seconds
open_seconds_in_hour t zero h = ground arith
open_seconds_in_hour t (suc zero) h = ground arith
open_seconds_in_hour t (suc (suc n)) h =
    let same : suc t / 3600 ≡ t / 3600 = omega arith in
    ground
      (arith, closed_by_hour (suc t) t same, open_seconds_in_hour (suc t) (suc n) (omega arith))

-- How many seconds the loop covers from `t` with `left` rounds.
abbrev covered : ℕ → ℕ → ℕ → ℕ
covered left t to = min (to - t) ((t / 3600 + left) * 3600 - t)

walk_step :
    (left t to open_ : ℕ)
    → t < to
    → walk (suc left) t to open_
      ≡ walk left (next_stop t to) to (open_ + open_seconds t (next_stop t to - t))
unfolding walk
walk_step left t to open_ h =
    ground (arith, open_seconds_in_hour t (next_stop t to - t) (unfold next_stop in omega arith))

covered_step :
    (left t to : ℕ)
    → t < to
    → covered (suc left) t to ≡ (next_stop t to - t) + covered left (next_stop t to) to
unfolding next_stop
covered_step left t to h = omega arith

next_stop_after : (t to : ℕ) → t < to → t ≤ next_stop t to
unfolding next_stop
next_stop_after t to h = omega arith

walk-open_seconds :
    (left t to open_ : ℕ) → walk left t to open_ ≡ open_ + open_seconds t (covered left t to)
walk-open_seconds zero t to open_ =
    let e : covered 0 t to ≡ 0 = omega arith in rw e (unfold walk open_seconds in omega arith)
walk-open_seconds (suc left) t to open_ = elim (Bool-cases (ltb t to)) [
  | inl more ↦
      let h : t < to = ltb→lt t to more in
      let back : t + (next_stop t to - t) ≡ next_stop t to =
        omega (arith, next_stop_after t to h) in
      rw (walk_step left t to open_ h, covered_step left t to h)
        (rw (open_seconds-add t (next_stop t to - t) (covered left (next_stop t to) to), back)
          (omega (
            arith,
            walk-open_seconds left (next_stop t to) to
                (open_ + open_seconds t (next_stop t to - t)),
          )))
  | inr done ↦
      let e : covered (suc left) t to ≡ 0 = ground arith in
      rw e (unfold walk open_seconds in ground arith)
]

-- For any two instants `market_age` is the number of open seconds from the first up to the second,
-- or up to the end of the 720th clock hour counted from the first's own, whichever comes sooner.
pub market_age-open_seconds :
    (from to : ℕ)
    → market_age from to ≡ open_seconds from (min (to - from) ((from / 3600 + 720) * 3600 - from))
unfolding market_age
market_age-open_seconds from to = walk-open_seconds max_hours from to 0 ∙ omega arith

-- Seconds since the last Monday 00:00 UTC.
abbrev pub into_week : ℕ → ℕ
into_week t = (t + 259200) % 604800

-- The market is closed exactly from Friday 16:00 UTC, 403200 seconds into the week that starts on
-- Monday 00:00 UTC, to the end of that week.
pub is_market_closed-into_week : (t : ℕ) → is_market_closed t ≡ leb 403200 (into_week t)
unfolding is_market_closed
is_market_closed-into_week t =
    let day : (t / 86400 + 4) % 7 ≡ (into_week t / 86400 + 1) % 7 = omega arith in
    let hours : t / 3600 % 24 ≡ into_week t / 3600 % 24 = omega arith in
    let w : into_week t < 604800 = omega arith in rw (day, hours) (ground arith)

open_seconds_closed :
    (t n : ℕ) → 403200 ≤ into_week t → into_week t + n ≤ 604800 → open_seconds t n ≡ 0
unfolding open_seconds
open_seconds_closed t zero h k = refl
open_seconds_closed t (suc zero) h k = ground (arith, is_market_closed-into_week t)
open_seconds_closed t (suc (suc n)) h k =
    let next : into_week (suc t) ≡ suc (into_week t) = omega arith in
    ground (
      arith,
      is_market_closed-into_week t,
      open_seconds_closed (suc t) (suc n) (omega arith) (omega arith),
    )

-- A round posted in the closed window has no open-market age up to the next Monday 00:00 UTC.
pub market_age_weekend :
    (from to : ℕ)
    → 403200 ≤ into_week from
    → to ≤ from + (604800 - into_week from)
    → market_age from to ≡ 0
market_age_weekend from to h k =
    market_age-open_seconds from to ∙ open_seconds_closed from _ h (omega arith)
