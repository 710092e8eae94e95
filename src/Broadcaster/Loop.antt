-- ===== src/Broadcaster/Loop.antt =====
-- agents/broadcaster/src/loop.ts, big.ts and state.ts: which feeds a pass publishes, and what it remembers as last
-- sent. The file is the memory's copy; a read that throws is `none`. A threshold is the source's
-- `Math.round(threshold * 10000)`.
pub mod Passes
pub mod Publish
pub mod Steps
pub mod Sends
mod Example
use whm.Prelude.{ℕ, zero, suc, ◌+◌, ◌-◌, ◌*◌, ◌/◌, ◌%◌, ◌^◌, ◌≤◌, ◌<◌, min, String}
use whm.Prelude.{◌≡◌, refl, sym, ap, ◌∙◌, ◌≢◌, ◌↔◌, ◌⊎◌, inl, inr, arith}
use whm.Prelude.{Bool, true, false, not, ◌&&◌, ◌||◌, Option, none, some}
use whm.Prelude.{List, [], ◌∷◌, ◌++◌, map, append-nil, append_assoc}
use whm.Prelude.{ltb, leb, ◌==◌, if◌then◌else◌, ltb→lt, lt→ltb, ==_iff, Bool-cases, Option-cases}
use whm.Prelude.{length, get_elem?, take, drop, replicate, All, All-append}
use whm.Prelude.{length-append, take-append-drop, length-take, length-drop, length-replicate}
use whm.Prelude.{take-append, drop-append}
use whm.Prelude.{str_eq, eq_iff, eq_refl}

pub record Feed : Type 0 where
  pub key : String
  pub asset : String

-- `AssetState`: the last value sent, and when.
pub record AssetState : Type 0 where
  pub value : ℕ
  pub sent_at : ℕ

abbrev pub BroadcasterState : Type 0
BroadcasterState = String → Option AssetState

unfoldable pub set : BroadcasterState → String → AssetState → BroadcasterState
set state key entry = λ other. if str_eq key other then some entry else state other

-- How the chain answers for a feed in a pass, and whether the state file can be written behind it.
pub record Answers : Type 0 where
  pub read : Feed → Option ℕ
  pub sends : Feed → Bool
  pub saves : Feed → Bool
  -- `Date.now()` once the feed is sent
  pub clock : Feed → ℕ

-- The memory, and what a pass did in order: the keys sent, and the file's writes.
pub data Deed : Type 0 where
  sent : String → Deed
  saved : BroadcasterState → Deed

abbrev pub Pass : Type 0
Pass = BroadcasterState × List Deed

unfoldable pub has_changed_beyond_threshold : ℕ → ℕ → ℕ → Bool
has_changed_beyond_threshold current last threshold =
    if last == 0
    then true
    else if ltb last current
    then ltb (last * threshold) ((current - last) * 10_000)
    else ltb (last * threshold) ((last - current) * 10_000)

-- The write of the file; where it throws, the memory keeps the value.
unfoldable pub save : Answers → Feed → BroadcasterState → List Deed
save a feed state = if a.saves feed then saved state ∷ [] else []

-- The `try` from `send` on, with the value read before it.
unfoldable pub publish : Answers → Feed → ℕ → ℕ → BroadcasterState → Pass
unfolding save
publish a feed value now state =
    let next = set state feed.key (record { value = value; sent_at = now }) in
    if a.sends feed then (next, sent feed.key ∷ save a feed next) else (state, [])

-- `last && now - last.sentAt < fullRefreshMs`
unfoldable pub is_recent : ℕ → ℕ → Option AssetState → Bool
is_recent now full_refresh none = false
is_recent now full_refresh (some last) = ltb now (last.sent_at + full_refresh)

unfoldable pub publish_read : Answers → Feed → Option ℕ → ℕ → BroadcasterState → Pass
publish_read a feed none now state = (state, [])
publish_read a feed (some value) now state = publish a feed value now state

-- One feed of `broadcastAll`.
unfoldable pub refresh : Answers → ℕ → ℕ → Feed → BroadcasterState → Pass
refresh a now full_refresh feed state =
    if is_recent now full_refresh (state feed.key)
    then (state, [])
    else publish_read a feed (a.read feed) now state

-- `BigInt(state[feed.key]?.value ?? "0")`
unfoldable pub last_value : Option AssetState → ℕ
last_value none = 0
last_value (some last) = last.value

unfoldable pub check_read : Answers → ℕ → Feed → Option ℕ → BroadcasterState → Pass
check_read a threshold feed none state = (state, [])
check_read a threshold feed (some current) state =
    if has_changed_beyond_threshold current (last_value (state feed.key)) threshold
    then publish a feed current (a.clock feed) state
    else (state, [])

-- `thresholds[feed.asset] ?? fallback`
unfoldable pub threshold_of : (String → Option ℕ) → ℕ → Feed → ℕ
threshold_of thresholds fallback feed = elim (thresholds feed.asset) [
  | none ↦ fallback
  | some t ↦ t
]

-- One feed of `checkAndBroadcast`.
unfoldable pub check : Answers → (String → Option ℕ) → ℕ → Feed → BroadcasterState → Pass
check a thresholds fallback feed state =
    check_read a (threshold_of thresholds fallback feed) feed (a.read feed) state

-- A pass over the feeds.
unfoldable pub each_feed : (Feed → BroadcasterState → Pass) → List Feed → BroadcasterState → Pass
each_feed one [] state = (state, [])
each_feed one (feed ∷ feeds) state =
    let now = one feed state in let rest = each_feed one feeds now.0 in (rest.0, now.1 ++ rest.1)

abbrev pub broadcast_all : Answers → ℕ → ℕ → List Feed → BroadcasterState → Pass
broadcast_all a now full_refresh = each_feed (refresh a now full_refresh)

abbrev pub check_and_broadcast :
    Answers → (String → Option ℕ) → ℕ → List Feed → BroadcasterState → Pass
check_and_broadcast a thresholds fallback = each_feed (check a thresholds fallback)

-- `tick`: a full refresh when it is due, with the time of the last one. `began` is the time that
-- `broadcastAll` reads itself.
unfoldable pub tick :
    Answers
    → (String → Option ℕ)
    → ℕ
    → ℕ
    → (now began : ℕ) → List Feed
    → ℕ × BroadcasterState
    → ℕ × Pass
tick a thresholds fallback full_refresh now began feeds (last_full_refresh, state) =
    if leb (last_full_refresh + full_refresh) now
    then (now, broadcast_all a began full_refresh feeds state)
    else (last_full_refresh, check_and_broadcast a thresholds fallback feeds state)
