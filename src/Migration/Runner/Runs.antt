-- ===== src/Migration/Runner/Runs.antt =====
-- The theorems on whole runs of `runMigration`.
use whm.Prelude.{ℕ, zero, suc, String}
use whm.Prelude.{◌≡◌, refl, sym, ap, ◌∙◌, ◌⊎◌, inl, inr, arith}
use whm.Prelude.{Option, none, some}
use whm.Prelude.{List, [], ◌∷◌, ◌++◌}
use whm.Prelude.{Option-cases}
use whm.Prelude.{take, drop}
use whm.Migration.State.{Env, Migration, StepState, MigrationState, step_names, state_names}
use whm.Migration.Runner.{
  Problem, Event, saved, complete, Run, then_events, with_steps, stop, loop, prepare, opening,
  reset_from, reset, find_index, run_migration, setting, proceed, check_pause,
}
use whm.Migration.Runner.{check_steps, check_pks}
use whm.Migration.Runner.Guard.{prepare-names}
use whm.Migration.Runner.Trace.{Follows, loop-Follows}
use whm.Migration.Runner.Order.{Ordered, todo, ran_names, loop-Ordered}
use whm.Migration.Runner.Complete.{IsComplete, last_saved, loop-Completes}

state_names-reset : (xs : List StepState) → state_names (reset xs) ≡ state_names xs
unfolding state_names reset
state_names-reset [] = refl
state_names-reset (x ∷ xs) = rw (state_names-reset xs)

state_names-reset_from :
    (i : ℕ) (xs : List StepState) → state_names (take i xs ++ reset (drop i xs)) ≡ state_names xs
unfolding state_names reset
state_names-reset_from zero xs = state_names-reset xs
state_names-reset_from (suc i) [] = refl
state_names-reset_from (suc i) (x ∷ xs) =
    ap (λ (l : List String). x.name ∷ l) (state_names-reset_from i xs)

-- How `opening` ends where it does not throw: with a state whose steps are the defined ones by name,
-- which it has saved or not.
pub record Opened {W : Type 0} (m : Migration W) (ev : List Event) (st : MigrationState)
    : Type 0 where
  pub names : step_names m.steps ≡ state_names st.steps
  pub events : (ev ≡ []) ⊎ (ev ≡ saved st ∷ [])

reset_from-Opened :
    {W : Type 0} (m : Migration W) (from : Option String) (state : MigrationState) (ev : List Event)
    (st : MigrationState)
    → step_names m.steps ≡ state_names state.steps
    → reset_from from state ≡ inr (ev, st)
    → Opened m ev st
unfolding reset_from
reset_from-Opened m none state ev st e h =
    let same : state ≡ st = cc in
    let none_saved : [] ≡ ev = cc in record { names = rw (← same) e; events = inl (sym none_saved) }
reset_from-Opened m (some from) state ev st e h =
    elim (Option-cases (find_index from state.steps)) [
      | inl n ↦ absurd (ground arith)
      | inr (i, f) ↦
          let st' = with_steps state (take i state.steps ++ reset (drop i state.steps)) in
          let same : st' ≡ st = ground arith in
          let one_saved : saved st' ∷ [] ≡ ev = ground arith in
          record {
            names = rw (← same) (e ∙ sym (state_names-reset_from i state.steps));
            events = inr (rw (← one_saved, same));
          }
    ]

Sum-cases :
    (r : Problem ⊎ MigrationState)
    → ((p : Problem) × (r ≡ inl p)) ⊎ ((st : MigrationState) × (r ≡ inr st))
Sum-cases (inl p) = inl (p, refl)
Sum-cases (inr st) = inr (st, refl)

pub opening-Opened :
    {W : Type 0} (m : Migration W) (environment : String) (env : Env)
    (stored : Option MigrationState) (from : Option String) (now : ℕ) (ev : List Event)
    (st : MigrationState)
    → opening m environment env stored from now ≡ inr (ev, st)
    → Opened m ev st
unfolding opening
opening-Opened m environment env stored from now ev st h = elim (Option-cases (check_steps m)) [
  | inr (p, c) ↦ absurd (cc (rw (opening, c) at h))
  | inl c ↦ elim (Option-cases (check_pks env m.pks)) [
    | inr (p, d) ↦ absurd (cc (rw (opening, c, d) at h))
    | inl d ↦ elim (Sum-cases (prepare m environment stored now)) [
      | inl (p, q) ↦ absurd (cc (rw (opening, c, d, q) at h))
      | inr (state, q) ↦
          reset_from-Opened m from state ev st (prepare-names m environment now stored state q)
            (rw (opening, c, d, q) at h)
    ]
  ]
]

module _ {W : Type 0} (m : Migration W) (environment : String) (env : Env)
    (stored : Option MigrationState) (from pause_at : Option String) (clock : ℕ → ℕ)
    (ev : List Event) (st : MigrationState)
    (opened : opening m environment env stored from (clock 0) ≡ inr (ev, st)) where
  -- The loop of this run.
  abbrev pub looped : Run
  looped = loop (setting m env pause_at clock) st 1 m.steps [] st.steps

  pub run_lem :
      run_migration m environment env stored from pause_at clock
      ≡ then_events ev (elim (check_pause pause_at st.steps) [ some p ↦ stop p | none ↦ looped ])
  unfolding run_migration proceed
  run_lem = rw (run_migration, opened)

  run_cases :
      ((p : Problem) × (run_migration m environment env stored from pause_at clock
          ≡ then_events ev (stop p)))
      ⊎ (run_migration m environment env stored from pause_at clock ≡ then_events ev looped)
  run_cases = elim (Option-cases (check_pause pause_at st.steps)) [
    | inr (p, c) ↦ inl (p, run_lem ∙ rw c)
    | inl c ↦ inr (run_lem ∙ rw c)
  ]

  Follows-opening :
      (ev' : List Event)
      → (ev' ≡ []) ⊎ (ev' ≡ saved st ∷ [])
      → (after : List Event) → Follows st.steps after
      → Follows st.steps (ev' ++ after)
  Follows-opening ev' (inl e) after h = rw e h
  Follows-opening ev' (inr e) after h = rw e (refl, h)

  -- Whatever the actions do and wherever the run ends: each action is given the outputs of exactly
  -- the steps completed so far, what it returned or threw is saved before anything else happens, and
  -- each save changes the one step that ran, which was not completed.
  pub run-Follows :
      Follows st.steps (run_migration m environment env stored from pause_at clock).events
  run-Follows =
      let start = opening-Opened m environment env stored from (clock 0) ev st opened in
      elim run_cases [
        | inl (p, r) ↦ rw r (Follows-opening ev start.events [] tt)
        | inr r ↦ rw r (
            Follows-opening ev start.events looped.events
              (loop-Follows (setting m env pause_at clock) st 1 m.steps [] st.steps start.names))
      ]

  ran_names-opening :
      (ev' : List Event)
      → (ev' ≡ []) ⊎ (ev' ≡ saved st ∷ [])
      → (after : List Event) → ran_names (ev' ++ after) ≡ ran_names after
  unfolding ran_names
  ran_names-opening ev' (inl e) after = rw e
  ran_names-opening ev' (inr e) after = rw e

  -- The actions called are, in the order of the definition, a first part of the steps that are not
  -- completed at the start, so that no completed step runs again and none runs twice; without
  -- a pause a run that completes has called all of them.
  pub run-Ordered :
      Ordered
        (setting m env pause_at clock)
        m.steps
        st.steps
        (run_migration m environment env stored from pause_at clock)
  run-Ordered =
      let start = opening-Opened m environment env stored from (clock 0) ev st opened in
      elim run_cases [
        | inl (p, r) ↦
            rw (r, ran_names-opening ev start.events [])
              (
                record { rest = todo m.steps st.steps; whole = unfold ran_names in refl },
                λ q e. absurd (cc),
              )
        | inr r ↦
            rw (r, ran_names-opening ev start.events looped.events)
              (loop-Ordered (setting m env pause_at clock) st 1 m.steps [] st.steps)
      ]

  last_saved-opening :
      (ev' : List Event)
      → (ev' ≡ []) ⊎ (ev' ≡ saved st ∷ [])
      → (after : List Event) → IsComplete (last_saved after)
      → IsComplete (last_saved (ev' ++ after))
  unfolding last_saved
  last_saved-opening ev' (inl e) after h = rw e h
  last_saved-opening ev' (inr e) after h = rw e (
      rw (last_saved, h.is_last)
        (record { last = h.last; is_last = refl; all = h.all; time = h.time; marked = h.marked }))

  -- Without a pause, a run that ends by completing leaves a state file in which every step is
  -- completed and the time of completion is set.
  pub run-IsComplete :
      pause_at ≡ none
      → (run_migration m environment env stored from pause_at clock).exit ≡ complete
      → IsComplete (last_saved (run_migration m environment env stored from pause_at clock).events)
  run-IsComplete quiet ended =
      let start = opening-Opened m environment env stored from (clock 0) ev st opened in
      elim run_cases [
        | inl (p, r) ↦ absurd (cc (rw r at ended))
        | inr r ↦ rw r (
            last_saved-opening ev start.events looped.events (
              loop-Completes (setting m env pause_at clock) st 1 m.steps [] st.steps quiet
                start.names tt (rw r at ended)))
      ]
