-- ===== src/Scan/NearWatcher/Gathered.antt =====
-- agents/scan/src/chains/near/watcher.ts, the first part of `tick`: what the histories leave in `found`.
use whm.Prelude.{ℕ, ◌≤◌}
use whm.Prelude.{◌≡◌, refl, sym, ap, ◌∙◌, ◌⊎◌, inl, inr, arith}
use whm.Prelude.{true, Option, none, some}
use whm.Prelude.{List, [], ◌∷◌}
use whm.Prelude.{if_elim}
use whm.Prelude.{All}
use mathlib.Core.Path.{subst}
use whm.Prelude.Text.{bytes_eq, bytes_eq_iff}
use whm.Scan.NearWatcher.{
  Text, Row, Found, Watch, has, add_found, add_history, oldest, and_history, gather,
}
use whm.Scan.NearWatcher.Sorted.{All-imp}
use whm.Scan.NearWatcher.Sources.{Listed, oldest-le}

-- The transaction was found in the account's history, at the height.
abbrev pub FoundBy : Text → Text → ℕ → List Found → Type 0
FoundBy a hash height [] = ⊥
FoundBy a hash height (f ∷ fs) =
    ((f.hash ≡ hash) × (f.height ≡ height) × (has a f.via ≡ true)) ⊎ FoundBy a hash height fs

has-first : (a : Text) (bs : List Text) → has a (a ∷ bs) ≡ true
unfolding has
has-first a bs = ground (arith, bytes_eq_iff a a)

has-later : (a b : Text) (bs : List Text) → has a bs ≡ true → has a (b ∷ bs) ≡ true
unfolding has
has-later a b bs h = ground arith

FoundBy-add_found :
    (b hash : Text) (height : ℕ) (a : Text) (r : Row) (fs : List Found)
    → FoundBy b hash height fs
    → FoundBy b hash height (add_found a r fs)
unfolding add_found
FoundBy-add_found b hash height a r [] here = elim here [ ]
FoundBy-add_found b hash height a r (f ∷ fs) here =
    if_elim (FoundBy b hash height) (bytes_eq f.hash r.hash) (record f { via = a ∷ f.via } ∷ fs)
      (f ∷ add_found a r fs)
      (λ same. elim here [
        | inl first ↦ inl (first.0, first.1, has-later b a f.via first.2)
        | inr later ↦ inr later
      ])
      (λ other. elim here [
        | inl first ↦ inl first
        | inr later ↦ inr (FoundBy-add_found b hash height a r fs later)
      ])

module _ (height_of : Text → ℕ) where
  -- A transaction stands at one height, which is positive.
  abbrev pub IsAt : Text → ℕ → Type 0
  IsAt hash height = (height ≡ height_of hash) × (1 ≤ height)

  abbrev pub AllAt : List Found → Type 0
  AllAt fs = All (λ (f : Found). IsAt f.hash f.height) fs

  add_found-AllAt :
      (a : Text) (r : Row) (fs : List Found)
      → IsAt r.hash r.height
      → AllAt fs
      → AllAt (add_found a r fs)
  unfolding add_found
  add_found-AllAt a r [] new old = (new, tt)
  add_found-AllAt a r (f ∷ fs) new old =
      if_elim AllAt (bytes_eq f.hash r.hash) (record f { via = a ∷ f.via } ∷ fs)
        (f ∷ add_found a r fs) (λ same. (old.0, old.1))
        (λ other. (old.0, add_found-AllAt a r fs new old.1))

  add_found-FoundBy :
      (a : Text) (r : Row) (fs : List Found)
      → IsAt r.hash r.height
      → AllAt fs
      → FoundBy a r.hash r.height (add_found a r fs)
  unfolding add_found
  add_found-FoundBy a r [] new old = inl (refl, refl, has-first a [])
  add_found-FoundBy a r (f ∷ fs) new old =
      if_elim (FoundBy a r.hash r.height) (bytes_eq f.hash r.hash)
        (record f { via = a ∷ f.via } ∷ fs) (f ∷ add_found a r fs)
        (λ same.
          let one = (bytes_eq_iff f.hash r.hash).0 same in
          inl (one, old.0.0 ∙ ap height_of one ∙ sym (new.0), has-first a f.via))
        (λ other. inr (add_found-FoundBy a r fs new old.1))

  FoundBy-add_history :
      (b hash : Text) (height : ℕ) (a : Text) (rs : List Row) (fs : List Found)
      → FoundBy b hash height fs
      → FoundBy b hash height (add_history a rs fs)
  unfolding add_history
  FoundBy-add_history b hash height a [] fs here = here
  FoundBy-add_history b hash height a (r ∷ rs) fs here =
      FoundBy-add_history b hash height a rs (add_found a r fs)
        (FoundBy-add_found b hash height a r fs here)

  add_history-FoundBy :
      (a : Text) (rs : List Row) (fs : List Found)
      → All (λ (r : Row). IsAt r.hash r.height) rs
      → AllAt fs
      → All (λ (r : Row). FoundBy a r.hash r.height (add_history a rs fs)) rs
        × AllAt (add_history a rs fs)
  unfolding add_history
  add_history-FoundBy a [] fs new old = (tt, old)
  add_history-FoundBy a (r ∷ rs) fs new old =
      let (later, kept) =
        add_history-FoundBy a rs (add_found a r fs) new.1 (add_found-AllAt a r fs new.0 old) in
      (
        (
          FoundBy-add_history a r.hash r.height a rs (add_found a r fs)
              (add_found-FoundBy a r fs new.0 old),
          later,
        ),
        kept,
      )

  -- Each answer holds transactions at their heights.
  abbrev pub AnswersAt : (Text → ℕ → Option (List Row)) → Type 0
  AnswersAt history =
      (a : Text) (after : ℕ) (rows : List Row)
      → history a after ≡ some rows
      → All (λ (r : Row). IsAt r.hash r.height) rows

  module _ (history : Text → ℕ → Option (List Row)) (cursors : Text → ℕ) where
    -- The account's history has been read from some height on that is not past the watch's cursor.
    pub record ReadFor (found : List Found) (a : Text) (w : Watch) : Type 0 where
      pub after : ℕ
      pub early : after ≤ cursors w.id
      pub rows : List Row
      pub answered : history a after ≡ some rows
      pub there : All (λ (r : Row). FoundBy a r.hash r.height found) rows

    pub record Gathered (m : List (Text × List Watch)) (fs found : List Found) : Type 0 where
      pub heights : AllAt found
      pub older :
          (b hash : Text) (height : ℕ) → FoundBy b hash height fs → FoundBy b hash height found
      pub sourced : (a : Text) (w : Watch) → Listed a w m → ReadFor found a w

    and_history-some :
        (a : Text) (o : Option (List Row)) (fs : List Found)
        (next : List Found → Option (List Found)) (found : List Found)
        → and_history history cursors a o fs next ≡ some found
        → (rows : List Row) × (o ≡ some rows) × (next (add_history a rows fs) ≡ some found)
    unfolding and_history
    and_history-some a none fs next found h = cc
    and_history-some a (some rows) fs next found h = (rows, refl, h)

    pub gather-Gathered :
        AnswersAt history
        → (m : List (Text × List Watch)) (fs found : List Found) → AllAt fs
        → gather history cursors m fs ≡ some found
        → Gathered m fs found
    unfolding gather
    gather-Gathered steady [] fs found old h =
        let same : fs ≡ found = cc in
        subst (λ gs. Gathered [] fs gs) same
          (record {
            heights = old;
            older = λ b hash height here. here;
            sourced = λ a w here. elim here [ ];
          })
    gather-Gathered steady ((a, ws) ∷ m) fs found old h =
        let (rows, answered, later) =
          and_history-some a (history a (oldest cursors ws)) fs (gather history cursors m) found
            h in
        let (new, kept) =
          add_history-FoundBy a rows fs (steady a (oldest cursors ws) rows answered) old in
        let rest = gather-Gathered steady m (add_history a rows fs) found kept later in
        record {
          heights = rest.heights;
          older = λ b hash height here.
              rest.older b hash height (FoundBy-add_history b hash height a rows fs here);
          sourced = λ b w here. elim here [
            | inl first ↦
                subst (λ c. ReadFor found c w) first.0
                  (record {
                    after = oldest cursors ws;
                    early = oldest-le cursors w ws first.1;
                    rows = rows;
                    answered = answered;
                    there =
                        All-imp (λ (r : Row). FoundBy a r.hash r.height (add_history a rows fs))
                          (λ (r : Row). FoundBy a r.hash r.height found)
                          (λ r here. rest.older a r.hash r.height here) rows new;
                  })
            | inr other ↦ rest.sourced b w other
          ];
        }
