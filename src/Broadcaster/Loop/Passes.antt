-- ===== src/Broadcaster/Loop/Passes.antt =====
-- agents/broadcaster/src/loop.ts: what a pass over feeds with distinct keys makes of each feed, given what its step does.
use whm.Prelude.{ℕ, String, ◌+◌}
use whm.Prelude.{◌≡◌, refl, sym, ◌∙◌, ◌≢◌, ◌⊎◌, inl, inr, arith}
use whm.Prelude.{true, Option, some}
use whm.Prelude.{List, [], ◌∷◌, ◌++◌}
use whm.Prelude.{if◌then◌else◌, All}
use whm.Prelude.{str_eq}
use mathlib.Core.Path.{subst}
use whm.Broadcaster.Loop.{
  Feed, AssetState, BroadcasterState, Answers, Deed, sent, saved, Pass, each_feed,
}

-- No two feeds have one key.
abbrev pub DistinctKeys : List Feed → Type 0
DistinctKeys [] = Unit
DistinctKeys (f ∷ fs) = All (λ g. f.key ≢ g.key) fs × DistinctKeys fs

-- How often a key is sent.
unfoldable pub times : String → List Deed → ℕ
times key [] = 0
times key (sent k ∷ deeds) = (if str_eq k key then 1 else 0) + times key deeds
times key (saved state ∷ deeds) = times key deeds

pub times-append :
    (key : String) (xs ys : List Deed) → times key (xs ++ ys) ≡ times key xs + times key ys
unfolding times
times-append key [] ys = omega arith
times-append key (sent k ∷ xs) ys = omega (arith, times-append key xs ys)
times-append key (saved state ∷ xs) ys = times-append key xs ys

-- The file is written with the entry under the key.
abbrev pub IsWritten : String → AssetState → List Deed → Type 0
IsWritten key e [] = ⊥
IsWritten key e (sent k ∷ deeds) = IsWritten key e deeds
IsWritten key e (saved state ∷ deeds) = (state key ≡ some e) ⊎ IsWritten key e deeds

IsWritten-append_left :
    (key : String) (e : AssetState) (xs ys : List Deed)
    → IsWritten key e xs
    → IsWritten key e (xs ++ ys)
IsWritten-append_left key e [] ys h = elim h [ ]
IsWritten-append_left key e (sent k ∷ xs) ys h = IsWritten-append_left key e xs ys h
IsWritten-append_left key e (saved state ∷ xs) ys (inl here) = inl here
IsWritten-append_left key e (saved state ∷ xs) ys (inr later) =
    inr (IsWritten-append_left key e xs ys later)

IsWritten-append_right :
    (key : String) (e : AssetState) (xs ys : List Deed)
    → IsWritten key e ys
    → IsWritten key e (xs ++ ys)
IsWritten-append_right key e [] ys h = h
IsWritten-append_right key e (sent k ∷ xs) ys h = IsWritten-append_right key e xs ys h
IsWritten-append_right key e (saved state ∷ xs) ys h = inr (IsWritten-append_right key e xs ys h)

module _ (a : Answers) where
  -- A feed is sent once and remembered by the entry that is due, which the file gets if it can be written; or
  -- no entry is due, and the feed is not sent and keeps its own.
  pub data Result (Due : Feed → Option AssetState → AssetState → Type 0) (f : Feed)
      (old new : Option AssetState) (deeds : List Deed) : Type 0 where
    published :
        (e : AssetState)
        → Due f old e
        → times f.key deeds ≡ 1
        → new ≡ some e
        → (a.saves f ≡ true → IsWritten f.key e deeds)
        → Result Due f old new deeds
    passed_over :
        ((e : AssetState) → Due f old e → ⊥)
        → times f.key deeds ≡ 0
        → new ≡ old
        → Result Due f old new deeds

  pub Result-map :
      (D E : Feed → Option AssetState → AssetState → Type 0) (f : Feed)
      (old new : Option AssetState) (deeds : List Deed)
      → ((e : AssetState) → D f old e → E f old e)
      → ((e : AssetState) → E f old e → D f old e)
      → Result D f old new deeds
      → Result E f old new deeds
  Result-map D E f old new deeds to from (published e due once same written) =
      published e (to e due) once same written
  Result-map D E f old new deeds to from (passed_over not_due never same) =
      passed_over (λ e due. not_due e (from e due)) never same

  module _ (Due : Feed → Option AssetState → AssetState → Type 0) where
    Result-before :
        (f : Feed) (old new : Option AssetState) (before deeds : List Deed)
        → times f.key before ≡ 0
        → Result Due f old new deeds
        → Result Due f old new (before ++ deeds)
    Result-before f old new before deeds none_before (published e due once same written) =
        published e due (omega (arith, times-append f.key before deeds, once, none_before)) same
          (λ saves. IsWritten-append_right f.key e before deeds (written saves))
    Result-before f old new before deeds none_before (passed_over not_due never same) =
        passed_over not_due (omega (arith, times-append f.key before deeds, never, none_before))
          same

    Result-after :
        (f : Feed) (old new : Option AssetState) (deeds after : List Deed)
        → times f.key after ≡ 0
        → Result Due f old new deeds
        → Result Due f old new (deeds ++ after)
    Result-after f old new deeds after none_after (published e due once same written) =
        published e due (omega (arith, times-append f.key deeds after, once, none_after)) same
          (λ saves. IsWritten-append_left f.key e deeds after (written saves))
    Result-after f old new deeds after none_after (passed_over not_due never same) =
        passed_over not_due (omega (arith, times-append f.key deeds after, never, none_after)) same

    -- A step that sends and remembers its own feed only.
    pub record IsStep (one : Feed → BroadcasterState → Pass) : Type 0 where
      pub own :
          (f : Feed) (state : BroadcasterState)
          → Result Due f (state f.key) ((one f state).0 f.key) (one f state).1
      pub others :
          (f : Feed) (state : BroadcasterState) (key : String)
          → f.key ≢ key
          → (one f state).0 key ≡ state key
      pub silent :
          (f : Feed) (state : BroadcasterState) (key : String)
          → f.key ≢ key
          → times key (one f state).1 ≡ 0

    module _ (one : Feed → BroadcasterState → Pass) (step : IsStep one) where
      each_feed-others :
          (feeds : List Feed) (state : BroadcasterState) (key : String)
          → All (λ g. key ≢ g.key) feeds
          → ((each_feed one feeds state).0 key ≡ state key)
            × (times key (each_feed one feeds state).1 ≡ 0)
      unfolding each_feed times
      each_feed-others [] state key h = (refl, refl)
      each_feed-others (f ∷ fs) state key (h, hs) =
          let now = one f state in
          let (kept, never) = each_feed-others fs now.0 key hs in
          let quiet = step.silent f state key (λ e. h (sym e)) in
          (
            kept ∙ step.others f state key (λ e. h (sym e)),
            omega (arith, times-append key now.1 (each_feed one fs now.0).1, never, quiet),
          )

      -- The results of later feeds, seen from before the first.
      later_results :
          (f : Feed) (fs : List Feed) (state : BroadcasterState) (out : BroadcasterState)
          (deeds : List Deed)
          → All (λ g. f.key ≢ g.key) fs
          → All (λ g. Result Due g ((one f state).0 g.key) (out g.key) deeds) fs
          → All (λ g. Result Due g (state g.key) (out g.key) ((one f state).1 ++ deeds)) fs
      later_results f [] state out deeds h r = tt
      later_results f (g ∷ fs) state out deeds (h, hs) (r, rs) = (
        subst (λ (o : Option AssetState). Result Due g o (out g.key) ((one f state).1 ++ deeds))
            (step.others f state g.key h)
            (Result-before g ((one f state).0 g.key) (out g.key) (one f state).1 deeds
              (step.silent f state g.key h) r),
        later_results f fs state out deeds hs rs,
      )

      pub each_feed-Result :
          (feeds : List Feed) (state : BroadcasterState)
          → DistinctKeys feeds
          → All
              (λ f.
                Result Due f
                  (state f.key)
                  ((each_feed one feeds state).0 f.key)
                  (each_feed one feeds state).1)
              feeds
      unfolding each_feed
      each_feed-Result [] state h = tt
      each_feed-Result (f ∷ fs) state (h, hs) =
          let now = one f state in
          let rest = each_feed one fs now.0 in
          let (kept, never) = each_feed-others fs now.0 f.key h in
          (
            Result-after f (state f.key) (rest.0 f.key) now.1 rest.1 never (
                subst (λ (o : Option AssetState). Result Due f (state f.key) o now.1) (sym kept)
                  (step.own f state)),
            later_results f fs state rest.0 rest.1 h (each_feed-Result fs now.0 hs),
          )
