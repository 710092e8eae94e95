-- ===== src/Migration/Runner/Guard.antt =====
-- The guard of runMigration on a stored state.
use whm.Prelude.{ℕ, suc, String}
use whm.Prelude.{◌≡◌, refl, sym, ap, ◌∙◌, ◌≢◌, inl, inr, arith}
use whm.Prelude.{true, Option, none, some}
use whm.Prelude.{List, [], ◌∷◌, ◌++◌}
use whm.Prelude.{Bool-cases}
use whm.Prelude.{length, take, drop}
use whm.Prelude.{take-append-drop}
use whm.Prelude.{take-append, drop-append}
use whm.Prelude.{eq_iff}
use whm.Migration.State.{
  Migration, StepState, MigrationState, step_names, state_names, fresh_steps, create_state,
}
use whm.Migration.Runner.{extend}
use whm.Migration.Runner.{steps_changed, prepare, names_eq}

names_eq_sound : (xs ys : List String) → names_eq xs ys ≡ true → xs ≡ ys
unfolding names_eq
names_eq_sound [] [] h = refl
names_eq_sound [] (y ∷ ys) h = absurd (cc)
names_eq_sound (x ∷ xs) [] h = absurd (cc)
names_eq_sound (x ∷ xs) (y ∷ ys) h = ground (arith, eq_iff x y, names_eq_sound xs ys)

names_eq_self : (xs : List String) → names_eq xs xs ≡ true
unfolding names_eq
names_eq_self [] = refl
names_eq_self (x ∷ xs) = ground (arith, eq_iff x x, names_eq_self xs)

state_names-append :
    (xs ys : List StepState) → state_names (xs ++ ys) ≡ state_names xs ++ state_names ys
unfolding state_names
state_names-append [] ys = refl
state_names-append (x ∷ xs) ys = rw (state_names-append xs ys)

state_names-fresh : (ns : List String) → state_names (fresh_steps ns) ≡ ns
unfolding state_names fresh_steps
state_names-fresh [] = refl
state_names-fresh (n ∷ ns) = rw (state_names-fresh ns)

length-state_names : (xs : List StepState) → length (state_names xs) ≡ length xs
unfolding state_names
length-state_names [] = refl
length-state_names (x ∷ xs) = ap suc (length-state_names xs)

state_names-extend :
    (old : MigrationState) (ns : List String)
    → state_names (extend old ns).steps ≡ state_names old.steps ++ ns
unfolding extend
state_names-extend old ns = rw (state_names-append old.steps (fresh_steps ns), state_names-fresh ns)

module _ {W : Type 0} (m : Migration W) (environment : String) (now : ℕ) where
  -- A stored state is accepted exactly where the defined steps are its own followed by others, which
  -- are then appended as fresh ones; it is refused where they are not.
  pub prepare_lem :
      (old : MigrationState)
      → ((ns : List String)
          → step_names m.steps ≡ state_names old.steps ++ ns
          → prepare m environment (some old) now ≡ inr (extend old ns))
        × (((ns : List String) → step_names m.steps ≢ state_names old.steps ++ ns)
            → prepare m environment (some old) now ≡ inl steps_changed)
  unfolding prepare extend
  prepare_lem old = (accepts, refuses)
    where
      accepts :
          (ns : List String)
          → step_names m.steps ≡ state_names old.steps ++ ns
          → prepare m environment (some old) now ≡ inr (extend old ns)
      accepts ns e = rw (
        prepare,
        e,
        take-append _ (state_names old.steps) ns refl,
        drop-append _ (state_names old.steps) ns refl,
        names_eq_self (state_names old.steps),
      )

      refuses :
          ((ns : List String) → step_names m.steps ≢ state_names old.steps ++ ns)
          → prepare m environment (some old) now ≡ inl steps_changed
      refuses h =
          let defined = step_names m.steps in
          let n = length (state_names old.steps) in
          elim (Bool-cases (names_eq (state_names old.steps) (take n defined))) [
            | inl same ↦
                let front = names_eq_sound (state_names old.steps) (take n defined) same in
                absurd (h (drop n defined) (sym (take-append-drop n defined) ∙ rw (← front)))
            | inr other ↦ rw (prepare, other)
          ]

  -- Where `prepare` accepts, the states stand one to one beside the defined steps, by name.
  pub prepare-names :
      (stored : Option MigrationState) (state : MigrationState)
      → prepare m environment stored now ≡ inr state
      → step_names m.steps ≡ state_names state.steps
  unfolding prepare create_state
  prepare-names none state h =
      let e : create_state m environment now ≡ state = cc in
      rw (← e) (sym (state_names-fresh (step_names m.steps)))
  prepare-names (some old) state h =
      let defined = step_names m.steps in
      let n = length (state_names old.steps) in
      elim (Bool-cases (names_eq (state_names old.steps) (take n defined))) [
        | inl same ↦
            let front = names_eq_sound (state_names old.steps) (take n defined) same in
            let e : extend old (drop n defined) ≡ state = ground arith in
            rw (← e, state_names-extend old (drop n defined))
              (sym
                (ap (λ (l : List String). l ++ drop n defined) front ∙ take-append-drop n defined))
        | inr other ↦ absurd (ground arith)
      ]
