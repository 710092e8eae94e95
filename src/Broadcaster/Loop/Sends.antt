-- ===== src/Broadcaster/Loop/Sends.antt =====
-- agents/broadcaster/src/loop.ts: what a tick sends and remembers.
use whm.Prelude.{ℕ, String, ◌+◌, ◌≤◌, ◌<◌}
use whm.Prelude.{◌≡◌, refl, arith}
use whm.Prelude.{Option}
use whm.Prelude.{List, [], ◌∷◌}
use whm.Prelude.{leb, if_elim, All}
use whm.Broadcaster.Loop.{
  Feed, AssetState, BroadcasterState, Answers, Pass, broadcast_all, check_and_broadcast, tick,
}
use whm.Broadcaster.Loop.Passes.{DistinctKeys, Result, Result-map, each_feed-Result}
use whm.Broadcaster.Loop.Steps.{IsAged, IsMoved, refresh-IsStep, check-IsStep}

Results-map :
    (a : Answers) (D E : Feed → Option AssetState → AssetState → Type 0) (state : BroadcasterState)
    (r : Pass) (fs : List Feed)
    → ((f : Feed) (old : Option AssetState) (e : AssetState) → D f old e → E f old e)
    → ((f : Feed) (old : Option AssetState) (e : AssetState) → E f old e → D f old e)
    → All (λ f. Result a D f (state f.key) (r.0 f.key) r.1) fs
    → All (λ f. Result a E f (state f.key) (r.0 f.key) r.1) fs
Results-map a D E state r [] to from all = tt
Results-map a D E state r (f ∷ fs) to from (one, all) = (
  Result-map a D E f (state f.key) (r.0 f.key) r.1 (to f (state f.key)) (from f (state f.key)) one,
  Results-map a D E state r fs to from all,
)

module _ (a : Answers) (thresholds : String → Option ℕ) (fallback full_refresh now began : ℕ)
    (last_full_refresh : ℕ) where
  -- The entry that a tick owes a feed: by a full refresh if one is due, and else by a check.
  pub data IsOwed (f : Feed) (old : Option AssetState) (e : AssetState) : Type 0 where
    by_refresh :
        last_full_refresh + full_refresh ≤ now
        → IsAged a began full_refresh f old e
        → IsOwed f old e
    by_check :
        now < last_full_refresh + full_refresh
        → IsMoved a thresholds fallback f old e
        → IsOwed f old e

  -- What a tick leaves: the feeds' entries, and the time of the last full refresh.
  pub record Ticked (feeds : List Feed) (state : BroadcasterState) (out : ℕ × Pass) : Type 0 where
    pub results : All (λ f. Result a IsOwed f (state f.key) (out.1.0 f.key) out.1.1) feeds
    pub refreshed : last_full_refresh + full_refresh ≤ now → out.0 ≡ now
    pub kept : now < last_full_refresh + full_refresh → out.0 ≡ last_full_refresh

  of_refresh :
      last_full_refresh + full_refresh ≤ now
      → (f : Feed) (old : Option AssetState) (e : AssetState) → IsOwed f old e
      → IsAged a began full_refresh f old e
  of_refresh due f old e (by_refresh le aged) = aged
  of_refresh due f old e (by_check lt moved) = absurd (omega arith)

  of_check :
      now < last_full_refresh + full_refresh
      → (f : Feed) (old : Option AssetState) (e : AssetState) → IsOwed f old e
      → IsMoved a thresholds fallback f old e
  of_check early f old e (by_refresh le aged) = absurd (omega arith)
  of_check early f old e (by_check lt moved) = moved

  -- For feeds with distinct keys, whatever the reads, sends and writes of the file do: a tick sends a feed
  -- exactly if the value can be read, the send passes, and either a full refresh is due and the feed's last
  -- send is at least as old as the window, or none is due and the last value sent is zero or missing or the
  -- value differs from the last one sent by more than the threshold of the asset, which is the fallback if it
  -- has no own. Such a feed is sent once, and remembered with the value and the time, in the file too if it
  -- can be written; every other feed keeps its entry. The time of the last full refresh is the tick's if one
  -- was due, and stays otherwise.
  pub tick-Ticked :
      (feeds : List Feed) (state : BroadcasterState)
      → DistinctKeys feeds
      → Ticked feeds state
          (tick a thresholds fallback full_refresh now began feeds (last_full_refresh, state))
  unfolding tick
  tick-Ticked feeds state distinct =
      if_elim (Ticked feeds state) (leb (last_full_refresh + full_refresh) now)
        (now, broadcast_all a began full_refresh feeds state)
        (last_full_refresh, check_and_broadcast a thresholds fallback feeds state)
        (λ le.
          let due : last_full_refresh + full_refresh ≤ now = ground arith in
          record {
            results =
                Results-map a (IsAged a began full_refresh) IsOwed state
                  (broadcast_all a began full_refresh feeds state) feeds
                  (λ f old e aged. by_refresh due aged) (of_refresh due)
                  (each_feed-Result a (IsAged a began full_refresh) _
                    (refresh-IsStep a began full_refresh) feeds state distinct);
            refreshed = λ is_due. refl;
            kept = λ early. absurd (omega arith);
          })
        (λ gt.
          let early : now < last_full_refresh + full_refresh = ground arith in
          record {
            results =
                Results-map a (IsMoved a thresholds fallback) IsOwed state
                  (check_and_broadcast a thresholds fallback feeds state) feeds
                  (λ f old e moved. by_check early moved) (of_check early)
                  (each_feed-Result a (IsMoved a thresholds fallback) _
                    (check-IsStep a thresholds fallback) feeds state distinct);
            refreshed = λ is_due. absurd (omega arith);
            kept = λ is_early. refl;
          })
