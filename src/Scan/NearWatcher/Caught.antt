-- ===== src/Scan/NearWatcher/Caught.antt =====
-- agents/scan/src/chains/near/watcher.ts, `tick`: what a cursor that is saved has behind it.
use whm.Prelude.{ℕ, ◌+◌, ◌-◌, ◌≤◌, ◌<◌}
use whm.Prelude.{◌≡◌, refl, sym, ap, ◌⊎◌, inl, inr, arith}
use whm.Prelude.{Bool, true, false, Option, none, some}
use whm.Prelude.{List, [], ◌∷◌, ◌++◌}
use whm.Prelude.{if_elim}
use whm.Prelude.{All, In}
use whm.Scan.NearWatcher.{
  Text, Found, Tx, NearLog, Watch, RawEvent, hold_blocks, Pass, or_hold, Drained, throws, ended,
  top_of, ordered, extract, is_held, take_one, drain, reached, moved, on_drained, on_gathered,
}
use mathlib.Core.Path.{subst}
use whm.Scan.NearWatcher.Sorted.{All-imp, Ascending, ordered-Ascending, ordered-All, All-ordered}
use whm.Scan.NearWatcher.Follows.{Follows, done, next, drain-Follows}

In-append_left : {A : Type 0} (x : A) (xs ys : List A) → In x xs → In x (xs ++ ys)
In-append_left x [] ys here = elim here [ ]
In-append_left x (y ∷ xs) ys (inl same) = inl same
In-append_left x (y ∷ xs) ys (inr later) = inr (In-append_left x xs ys later)

All-In : {A : Type 0} (xs : List A) → All (λ x. In x xs) xs
All-In [] = tt
All-In (x ∷ xs) =
    (inl refl, All-imp (λ y. In y xs) (λ y. In y (x ∷ xs)) (λ y there. inr there) xs (All-In xs))

In-append_right : {A : Type 0} (x : A) (xs ys : List A) → In x ys → In x (xs ++ ys)
In-append_right x [] ys there = there
In-append_right x (y ∷ xs) ys there = inr (In-append_right x xs ys there)

-- The cursor is held below a height.
unfoldable pub HeldBelow : Option ℕ → ℕ → Type 0
HeldBelow none height = ⊥
HeldBelow (some h) height = h < height

-- Nothing at or below a height is held.
unfoldable pub NotAbove : Option ℕ → ℕ → Type 0
NotAbove none height = Unit
NotAbove (some h) height = h < height

module _ (near_logs : Tx → List NearLog) (near_topic : NearLog → Text) (watches : List Watch)
    (cursors : Text → ℕ) (transaction : Text → Option Tx) (top : ℕ) where
  -- A transaction that is not left for later, with all of its events inserted.
  pub record Taken (inserted : List RawEvent) (f : Found) : Type 0 where
    pub tx : Tx
    pub read : transaction f.hash ≡ some tx
    pub whole : is_held near_logs near_topic watches cursors top f tx ≡ false
    pub kept : All (λ e. In e inserted) (extract near_logs near_topic watches cursors tx f)

  abbrev Good : Pass → Found → Type 0
  Good p f = Taken p.inserted f ⊎ HeldBelow p.hold f.height

  -- The first that is held is at most as far behind the top as a hold lasts.
  unfoldable pub Lags : Option ℕ → Type 0
  Lags none = Unit
  Lags (some h) = top ≤ h + hold_blocks

  Lags-reached : (o : Option ℕ) → Lags o → top ≤ or_hold o top + hold_blocks
  unfolding Lags or_hold
  Lags-reached none lag = omega arith
  Lags-reached (some h) lag = lag

  record Stepped (f : Found) (fs : List Found) (p q : Pass) : Type 0 where
    now : Good q f
    before : (g : Found) → Good p g → Good q g
    after : All (λ (g : Found). NotAbove q.hold g.height) fs
    lag : Lags q.hold

  Taken-append :
      (f : Found) (inserted more : List RawEvent) → Taken inserted f → Taken (inserted ++ more) f
  Taken-append f inserted more t = record {
    tx = t.tx;
    read = t.read;
    whole = t.whole;
    kept =
        All-imp (λ e. In e inserted) (λ e. In e (inserted ++ more))
          (λ e. In-append_left e inserted more)
          (extract near_logs near_topic watches cursors t.tx f) t.kept;
  }

  hold-Stepped :
      (f : Found) (fs : List Found) (inserted : List RawEvent) (o : Option ℕ)
      → top ≤ f.height - 1 + hold_blocks
      → 1 ≤ f.height
      → All (λ (g : Found). f.height ≤ g.height) fs
      → NotAbove o f.height
      → All (λ (g : Found). NotAbove o g.height) fs
      → Lags o
      → Stepped f fs
          (record { inserted = inserted; hold = o })
          (record { inserted = inserted; hold = some (or_hold o (f.height - 1)) })
  unfolding HeldBelow NotAbove Lags or_hold
  hold-Stepped f fs inserted none near positive above clear later lag = record {
    now = inr (omega arith);
    before = λ g good. elim good [ inl t ↦ inl t | inr below ↦ elim below [ ] ];
    after =
        All-imp (λ (g : Found). f.height ≤ g.height) (λ (g : Found). f.height - 1 < g.height)
          (λ g le. omega arith) fs above;
    lag = near;
  }
  hold-Stepped f fs inserted (some h) near positive above clear later lag = record {
    now = inr clear;
    before = λ g good. good;
    after = later;
    lag = lag;
  }

  held-Stepped :
      (f : Found) (fs : List Found) (tx : Tx) (p : Pass)
      → is_held near_logs near_topic watches cursors top f tx ≡ true
      → 1 ≤ f.height
      → All (λ (g : Found). f.height ≤ g.height) fs
      → NotAbove p.hold f.height
      → All (λ (g : Found). NotAbove p.hold g.height) fs
      → Lags p.hold
      → Stepped f fs p
          (record { inserted = p.inserted; hold = some (or_hold p.hold (f.height - 1)) })
  unfolding is_held
  held-Stepped f fs tx p held = hold-Stepped f fs p.inserted p.hold (ground arith)

  take_one-Stepped :
      (f : Found) (fs : List Found) (tx : Tx) (p : Pass)
      → transaction f.hash ≡ some tx
      → 1 ≤ f.height
      → All (λ (g : Found). f.height ≤ g.height) fs
      → NotAbove p.hold f.height
      → All (λ (g : Found). NotAbove p.hold g.height) fs
      → Lags p.hold
      → Stepped f fs p (take_one near_logs near_topic watches cursors top f tx p)
  unfolding take_one
  take_one-Stepped f fs tx p read positive above clear later lag =
      let events = extract near_logs near_topic watches cursors tx f in
      if_elim (Stepped f fs p) (is_held near_logs near_topic watches cursors top f tx) _ _
        (λ held. held-Stepped f fs tx p held positive above clear later lag)
        (λ taken. record {
          now = inl (record {
            tx = tx;
            read = read;
            whole = taken;
            kept =
                All-imp (λ e. In e events) (λ e. In e (p.inserted ++ events))
                  (λ e. In-append_right e p.inserted events) events (All-In events);
          });
          before = λ g good. elim good [
            | inl t ↦ inl (Taken-append g p.inserted events t)
            | inr below ↦ inr below
          ];
          after = later;
          lag = lag;
        })

  record Finished (fs : List Found) (p q : Pass) : Type 0 where
    now : All (Good q) fs
    before : (g : Found) → Good p g → Good q g
    lag : Lags q.hold

  Follows-Finished :
      (fs : List Found) (p q : Pass)
      → Follows near_logs near_topic watches cursors transaction top fs p q
      → All (λ (f : Found). 1 ≤ f.height) fs
      → Ascending fs
      → All (λ (f : Found). NotAbove p.hold f.height) fs
      → Lags p.hold
      → Finished fs p q
  Follows-Finished fs p q (done r) positive up clear lag = record {
    now = tt;
    before = λ g good. good;
    lag = lag;
  }
  Follows-Finished _ p q (next f fs tx r s read later) positive up clear lag =
      let step = take_one-Stepped f fs tx p read positive.0 up.0 clear.0 clear.1 lag in
      let rest =
        Follows-Finished fs (take_one near_logs near_topic watches cursors top f tx p) q later
          positive.1 up.1 step.after step.lag in
      record {
        now = (rest.before f step.now, rest.now);
        before = λ g good. rest.before g (step.before g good);
        lag = rest.lag;
      }

HeldBelow-reached : (top height : ℕ) (o : Option ℕ) → HeldBelow o height → or_hold o top < height
unfolding HeldBelow or_hold
HeldBelow-reached top height none held = elim held [ ]
HeldBelow-reached top height (some h) held = held

clear_all : (fs : List Found) → All (λ (f : Found). NotAbove none f.height) fs
unfolding NotAbove
clear_all [] = tt
clear_all (f ∷ fs) = (tt, clear_all fs)

module _ (is_sorted : Text → Text → Bool) (near_logs : Tx → List NearLog)
    (near_topic : NearLog → Text) (watches : List Watch) (cursors : Text → ℕ)
    (transaction : Text → Option Tx) where
  -- Up to the height that is reached, all that was found is taken.
  pub record Caught (found : List Found) (p : Pass) (to top : ℕ) : Type 0 where
    pub taken :
        All
          (λ (f : Found).
            f.height ≤ to → Taken near_logs near_topic watches cursors transaction top p.inserted f)
          found
    pub lag : top ≤ to + hold_blocks

  on_drained-moved :
      (top : ℕ) (d : Drained) (p : Pass) (to tip : ℕ)
      → on_drained top d ≡ moved p to tip
      → (d ≡ ended p) × (to ≡ reached top p) × (tip ≡ top)
  unfolding on_drained
  on_drained-moved top (throws inserted) p to tip h = cc
  on_drained-moved top (ended q) p to tip h = let same : q ≡ p = cc in (ap ended same, cc, cc)

  drain-Caught :
      (step : ℕ) (found : List Found) (p : Pass)
      → 1 ≤ step
      → All (λ (f : Found). 1 ≤ f.height) found
      → drain near_logs near_topic watches cursors transaction step (ordered is_sorted found)
        ≡ ended p
      → Caught found p
          (reached (top_of (ordered is_sorted found)) p)
          (top_of (ordered is_sorted found))
  unfolding reached
  drain-Caught step found p some_step positive h =
      let rows = ordered is_sorted found in
      let top = top_of rows in
      let end =
        Follows-Finished near_logs near_topic watches cursors transaction top rows _ p
          (drain-Follows near_logs near_topic watches cursors transaction step rows p some_step h)
          (ordered-All is_sorted (λ (f : Found). 1 ≤ f.height) found positive)
          (ordered-Ascending is_sorted found) (clear_all rows) (unfold Lags in tt) in
      record {
        taken =
            All-ordered is_sorted
              (λ (f : Found).
                f.height ≤ or_hold p.hold top
                → Taken near_logs near_topic watches cursors transaction top p.inserted f)
              found
              (All-imp (Good near_logs near_topic watches cursors transaction top p)
                (λ (f : Found).
                  f.height ≤ or_hold p.hold top
                  → Taken near_logs near_topic watches cursors transaction top p.inserted f)
                (λ f good le. elim good [
                  | inl t ↦ t
                  | inr held ↦
                      let over = HeldBelow-reached top f.height p.hold held in absurd (omega arith)
                ])
                rows end.now);
        lag = Lags-reached near_logs near_topic watches cursors transaction top p.hold end.lag;
      }

  pub on_gathered-Caught :
      (step : ℕ) (found : List Found) (p : Pass) (to tip : ℕ)
      → 1 ≤ step
      → All (λ (f : Found). 1 ≤ f.height) found
      → on_gathered is_sorted near_logs near_topic watches cursors transaction step (some found)
        ≡ moved p to tip
      → Caught found p to tip
  unfolding on_gathered
  on_gathered-Caught step [] p to tip some_step positive h = cc
  on_gathered-Caught step (f ∷ fs) p to tip some_step positive h =
      let rows = ordered is_sorted (f ∷ fs) in
      let (drained, reaches, tops) =
        on_drained-moved (top_of rows)
          (drain near_logs near_topic watches cursors transaction step rows) p to tip h in
      let caught = drain-Caught step (f ∷ fs) p some_step positive drained in
      subst (λ t. Caught (f ∷ fs) p to t) (sym tops)
        (subst (λ n. Caught (f ∷ fs) p n (top_of rows)) (sym reaches) caught)
