-- ===== src/Broadcaster/Loop/Steps.antt =====
-- agents/broadcaster/src/loop.ts and big.ts: one feed of a check, and one of a full refresh.
use whm.Prelude.{ℕ, String, ◌+◌, ◌-◌, ◌*◌, ◌≤◌, ◌<◌}
use whm.Prelude.{◌≡◌, refl, sym, ap, ◌∙◌, ◌≢◌, ◌⊎◌, inl, inr, arith}
use whm.Prelude.{true, false, Option, none, some}
use whm.Prelude.{[]}
use whm.Prelude.{◌==◌, if_elim, Bool-cases, Option-cases}
use mathlib.Core.Path.{subst}
use whm.Broadcaster.Loop.{
  Feed, AssetState, BroadcasterState, Answers, Pass, has_changed_beyond_threshold, publish,
  is_recent, publish_read, refresh, last_value, check_read, threshold_of, check,
}
use whm.Broadcaster.Loop.Passes.{times, Result, passed_over, IsStep}
use whm.Broadcaster.Loop.Publish.{publish-Result, publish-others}

-- The value differs from the last one by more than the threshold, which is in ten-thousandths of it. A feed
-- that was never sent, or at zero, differs by any.
abbrev pub IsBeyond : ℕ → Option AssetState → ℕ → Type 0
IsBeyond value none threshold = Unit
IsBeyond value (some last) threshold =
    (last.value ≡ 0)
    ⊎ (last.value * threshold < ((value - last.value) + (last.value - value)) * 10_000)

-- The entry is at least as old as the full-refresh window.
abbrev pub IsOld : ℕ → ℕ → Option AssetState → Type 0
IsOld now full_refresh none = Unit
IsOld now full_refresh (some last) = last.sent_at + full_refresh ≤ now

module _ (a : Answers) where
  -- A full refresh of the feed gives the entry.
  pub record IsAged (now full_refresh : ℕ) (f : Feed) (old : Option AssetState) (e : AssetState)
      : Type 0 where
    pub read : a.read f ≡ some e.value
    pub sends : a.sends f ≡ true
    pub at : e.sent_at ≡ now
    pub aged : IsOld now full_refresh old

  module _ (thresholds : String → Option ℕ) (fallback : ℕ) where
    -- The asset's own threshold, or the fallback where it has none.
    abbrev pub IsThreshold : Feed → ℕ → Type 0
    IsThreshold f t = (thresholds f.asset ≡ some t) ⊎ ((thresholds f.asset ≡ none) × (t ≡ fallback))

    -- A check of the feed gives the entry.
    pub record IsMoved (f : Feed) (old : Option AssetState) (e : AssetState) : Type 0 where
      pub read : a.read f ≡ some e.value
      pub sends : a.sends f ≡ true
      pub at : e.sent_at ≡ a.clock f
      pub threshold : ℕ
      pub of_asset : IsThreshold f threshold
      pub beyond : IsBeyond e.value old threshold

  is_recent-IsOld :
      (now full_refresh : ℕ) (o : Option AssetState)
      → is_recent now full_refresh o ≡ false
      → IsOld now full_refresh o
  unfolding is_recent
  is_recent-IsOld now full_refresh none h = tt
  is_recent-IsOld now full_refresh (some last) h = ground arith

  IsOld-is_recent :
      (now full_refresh : ℕ) (o : Option AssetState)
      → IsOld now full_refresh o
      → is_recent now full_refresh o ≡ false
  unfolding is_recent
  IsOld-is_recent now full_refresh none h = refl
  IsOld-is_recent now full_refresh (some last) h = ground arith

  publish_read-Result :
      (now full_refresh : ℕ) (f : Feed) (state : BroadcasterState) (o : Option ℕ)
      → a.read f ≡ o
      → IsOld now full_refresh (state f.key)
      → Result a
          (IsAged now full_refresh)
          f
          (state f.key)
          ((publish_read a f o now state).0 f.key)
          (publish_read a f o now state).1
  unfolding publish_read times
  publish_read-Result now full_refresh f state none read old =
      passed_over (λ e due. let there = due.read in cc) refl refl
  publish_read-Result now full_refresh f state (some value) read old =
      publish-Result a (IsAged now full_refresh) f value now state
        (λ takes. record { read = read; sends = takes; at = refl; aged = old }) (λ e due. due.sends)

  publish_read-others :
      (f : Feed) (o : Option ℕ) (now : ℕ) (state : BroadcasterState) (key : String)
      → f.key ≢ key
      → ((publish_read a f o now state).0 key ≡ state key)
        × (times key (publish_read a f o now state).1 ≡ 0)
  unfolding publish_read times
  publish_read-others f none now state key ne = (refl, refl)
  publish_read-others f (some value) now state key ne = publish-others a f value now state key ne

  refresh-others :
      (now full_refresh : ℕ) (f : Feed) (state : BroadcasterState) (key : String)
      → f.key ≢ key
      → ((refresh a now full_refresh f state).0 key ≡ state key)
        × (times key (refresh a now full_refresh f state).1 ≡ 0)
  unfolding refresh times
  refresh-others now full_refresh f state key ne =
      if_elim (λ (r : Pass). (r.0 key ≡ state key) × (times key r.1 ≡ 0))
        (is_recent now full_refresh (state f.key)) (state, [])
        (publish_read a f (a.read f) now state) (λ recent. (refl, refl))
        (λ old. publish_read-others f (a.read f) now state key ne)

  pub refresh-IsStep :
      (now full_refresh : ℕ) → IsStep a (IsAged now full_refresh) (refresh a now full_refresh)
  unfolding refresh times
  refresh-IsStep now full_refresh = record {
    own = λ f state.
        if_elim (λ (r : Pass). Result a (IsAged now full_refresh) f (state f.key) (r.0 f.key) r.1)
          (is_recent now full_refresh (state f.key)) (state, [])
          (publish_read a f (a.read f) now state)
          (λ recent.
            passed_over
              (λ e due. let aged = IsOld-is_recent now full_refresh (state f.key) due.aged in cc)
              refl refl)
          (λ old.
            publish_read-Result now full_refresh f state (a.read f) refl
              (is_recent-IsOld now full_refresh (state f.key) old));
    others = λ f state key ne. (refresh-others now full_refresh f state key ne).0;
    silent = λ f state key ne. (refresh-others now full_refresh f state key ne).1;
  }

  changed-IsBeyond :
      (value : ℕ) (o : Option AssetState) (threshold : ℕ)
      → has_changed_beyond_threshold value (last_value o) threshold ≡ true
      → IsBeyond value o threshold
  unfolding has_changed_beyond_threshold last_value
  changed-IsBeyond value none threshold h = tt
  changed-IsBeyond value (some last) threshold h = elim (Bool-cases (last.value == 0)) [
    | inl at_zero ↦ inl (ground arith)
    | inr positive ↦ inr (ground arith)
  ]

  IsBeyond-changed :
      (value : ℕ) (o : Option AssetState) (threshold : ℕ)
      → IsBeyond value o threshold
      → has_changed_beyond_threshold value (last_value o) threshold ≡ true
  unfolding has_changed_beyond_threshold last_value
  IsBeyond-changed value none threshold h = refl
  IsBeyond-changed value (some last) threshold (inl zero_last) = ground arith
  IsBeyond-changed value (some last) threshold (inr beyond) = ground arith

  module _ (thresholds : String → Option ℕ) (fallback : ℕ) where
    threshold_of-IsThreshold :
        (f : Feed) → IsThreshold thresholds fallback f (threshold_of thresholds fallback f)
    unfolding threshold_of
    threshold_of-IsThreshold f = elim (Option-cases (thresholds f.asset)) [
      | inl fall ↦ inr (fall, rw (threshold_of, fall) refl)
      | inr (t, own) ↦ inl (own ∙ ap some (sym (rw (threshold_of, own) refl)))
    ]

    IsThreshold-threshold_of :
        (f : Feed) (t : ℕ)
        → IsThreshold thresholds fallback f t
        → t ≡ threshold_of thresholds fallback f
    unfolding threshold_of
    IsThreshold-threshold_of f t (inl own) = rw (threshold_of, own) refl
    IsThreshold-threshold_of f t (inr (fall, same)) = rw (threshold_of, fall) same

    check_read-Result :
        (f : Feed) (state : BroadcasterState) (o : Option ℕ)
        → a.read f ≡ o
        → Result a
            (IsMoved thresholds fallback)
            f
            (state f.key)
            ((check_read a (threshold_of thresholds fallback f) f o state).0 f.key)
            (check_read a (threshold_of thresholds fallback f) f o state).1
    unfolding check_read times
    check_read-Result f state none read =
        passed_over (λ e due. let there = due.read in cc) refl refl
    check_read-Result f state (some value) read =
        let t = threshold_of thresholds fallback f in
        if_elim
          (λ (r : Pass). Result a (IsMoved thresholds fallback) f (state f.key) (r.0 f.key) r.1)
          (has_changed_beyond_threshold value (last_value (state f.key)) t)
          (publish a f value (a.clock f) state) (state, [])
          (λ changed.
            publish-Result a (IsMoved thresholds fallback) f value (a.clock f) state
              (λ takes. record {
                read = read;
                sends = takes;
                at = refl;
                threshold = t;
                of_asset = threshold_of-IsThreshold f;
                beyond = changed-IsBeyond value (state f.key) t changed;
              })
              (λ e due. due.sends))
          (λ near.
            passed_over
              (λ e due.
                let one : e.value ≡ value = cc (due.read, read) in
                let own = IsThreshold-threshold_of f due.threshold due.of_asset in
                let far = IsBeyond-changed value (state f.key) t (
                  subst (λ n. IsBeyond n (state f.key) t) one
                    (subst (λ n. IsBeyond e.value (state f.key) n) own due.beyond)) in
                cc)
              refl refl)

    check_read-others :
        (f : Feed) (o : Option ℕ) (state : BroadcasterState) (key : String)
        → f.key ≢ key
        → ((check_read a (threshold_of thresholds fallback f) f o state).0 key ≡ state key)
          × (times key (check_read a (threshold_of thresholds fallback f) f o state).1 ≡ 0)
    unfolding check_read times
    check_read-others f none state key ne = (refl, refl)
    check_read-others f (some value) state key ne =
        if_elim (λ (r : Pass). (r.0 key ≡ state key) × (times key r.1 ≡ 0))
          (has_changed_beyond_threshold value (last_value (state f.key))
            (threshold_of thresholds fallback f))
          (publish a f value (a.clock f) state) (state, [])
          (λ changed. publish-others a f value (a.clock f) state key ne) (λ near. (refl, refl))

    pub check-IsStep : IsStep a (IsMoved thresholds fallback) (check a thresholds fallback)
    unfolding check
    check-IsStep = record {
      own = λ f state. check_read-Result f state (a.read f) refl;
      others = λ f state key ne. (check_read-others f (a.read f) state key ne).0;
      silent = λ f state key ne. (check_read-others f (a.read f) state key ne).1;
    }
