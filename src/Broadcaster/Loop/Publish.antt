-- ===== src/Broadcaster/Loop/Publish.antt =====
-- agents/broadcaster/src/loop.ts: the sending of a feed, with the write of the state file.
use whm.Prelude.{ℕ, String, ◌+◌}
use whm.Prelude.{◌≡◌, refl, ap, ◌∙◌, ◌≢◌, inl, inr, arith}
use whm.Prelude.{true, Option, some}
use whm.Prelude.{List, [], ◌∷◌}
use whm.Prelude.{if_elim, Bool-cases}
use whm.Prelude.{str_eq, eq_iff, eq_refl}
use whm.Broadcaster.Loop.{
  Feed, AssetState, BroadcasterState, set, Answers, Deed, sent, Pass, save, publish,
}
use whm.Broadcaster.Loop.Passes.{times, IsWritten, Result, published, passed_over}

module _ (a : Answers) where
  set-same :
      (state : BroadcasterState) (key : String) (e : AssetState) → set state key e key ≡ some e
  unfolding set
  set-same state key e = rw (eq_refl key) refl

  set-other :
      (state : BroadcasterState) (key other : String) (e : AssetState)
      → key ≢ other
      → set state key e other ≡ state other
  unfolding set
  set-other state key other e ne = elim (Bool-cases (str_eq key other)) [
    | inl same ↦ absurd (ne ((eq_iff key other).0 same))
    | inr another ↦ rw another refl
  ]

  times-sent :
      (key : String) (deeds : List Deed) → times key (sent key ∷ deeds) ≡ 1 + times key deeds
  unfolding times
  times-sent key deeds = rw (eq_refl key) refl

  times-other :
      (k key : String) (deeds : List Deed) → k ≢ key → times key (sent k ∷ deeds) ≡ times key deeds
  unfolding times
  times-other k key deeds ne = elim (Bool-cases (str_eq k key)) [
    | inl same ↦ absurd (ne ((eq_iff k key).0 same))
    | inr another ↦ ground arith
  ]

  times-save : (key : String) (f : Feed) (state : BroadcasterState) → times key (save a f state) ≡ 0
  unfolding times save
  times-save key f state = ground arith

  save-IsWritten :
      (key : String) (e : AssetState) (f : Feed) (state : BroadcasterState)
      → state key ≡ some e
      → a.saves f ≡ true
      → IsWritten key e (save a f state)
  unfolding save
  save-IsWritten key e f state here saves = rw saves (inl here)

  module _ (Due : Feed → Option AssetState → AssetState → Type 0) where
    pub publish-Result :
        (f : Feed) (value now : ℕ) (state : BroadcasterState)
        → (a.sends f ≡ true → Due f (state f.key) (record { value = value; sent_at = now }))
        → ((e : AssetState) → Due f (state f.key) e → a.sends f ≡ true)
        → Result a Due f
            (state f.key)
            ((publish a f value now state).0 f.key)
            (publish a f value now state).1
    unfolding publish times
    publish-Result f value now state due accepts =
        let e : AssetState = record { value = value; sent_at = now } in
        let next = set state f.key e in
        if_elim (λ (r : Pass). Result a Due f (state f.key) (r.0 f.key) r.1) (a.sends f)
          (next, sent f.key ∷ save a f next) (state, [])
          (λ takes.
            published e (due takes)
              (times-sent f.key (save a f next) ∙ ap (λ n. 1 + n) (times-save f.key f next))
              (set-same state f.key e)
              (λ saves. save-IsWritten f.key e f next (set-same state f.key e) saves))
          (λ fails. passed_over (λ d is_due. let takes = accepts d is_due in cc) refl refl)

  pub publish-others :
      (f : Feed) (value now : ℕ) (state : BroadcasterState) (key : String)
      → f.key ≢ key
      → ((publish a f value now state).0 key ≡ state key)
        × (times key (publish a f value now state).1 ≡ 0)
  unfolding publish times
  publish-others f value now state key ne =
      let e : AssetState = record { value = value; sent_at = now } in
      let next = set state f.key e in
      if_elim (λ (r : Pass). (r.0 key ≡ state key) × (times key r.1 ≡ 0)) (a.sends f)
        (next, sent f.key ∷ save a f next) (state, [])
        (λ takes. (
          set-other state f.key key e ne,
          times-other f.key key (save a f next) ne ∙ times-save key f next,
        ))
        (λ fails. (refl, refl))
