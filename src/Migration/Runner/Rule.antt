-- ===== src/Migration/Runner/Rule.antt =====
-- One rule for all that is proved of the loop: what holds of each way to leave it or to go round.
use whm.Prelude.{ℕ, suc, String}
use whm.Prelude.{◌≡◌, refl, ◌⊎◌, inl, inr}
use whm.Prelude.{true, false}
use whm.Prelude.{List, [], ◌∷◌, ◌++◌}
use whm.Prelude.{Bool-cases}
use whm.Migration.State.{
  StepOutput, StepContext, Outcome, returned, thrown, MigrationStep, StepState, MigrationState,
  is_completed, build_step_context,
}
use whm.Migration.Runner.{
  no_state_for_step, Event, ran, saved, paused, exited, Run, Setting, then_events, begun, succeeded,
  broken, with_steps, stop, finish, is_pause, loop,
}

module _ {W : Type 0} (w : Setting W) (state : MigrationState) where
  abbrev pub seen_at : ℕ → List StepState → StepState → List StepState → StepContext W
  seen_at k before s rest = build_step_context (before ++ begun s (w.clock k) ∷ rest) w.wallet w.env

  abbrev pub done_at : ℕ → StepState → StepOutput → StepState
  done_at k s out = succeeded (begun s (w.clock k)) (w.clock (suc k)) out

  -- What a round of the loop does: the action's call, and the state saved after it.
  abbrev pub round :
      MigrationStep W
      → ℕ
      → List StepState
      → StepState
      → List StepState
      → Outcome
      → StepState
      → List Event
  round step k before s rest o s' =
      ran step.name (seen_at k before s rest).outputs o
      ∷ saved (with_steps state (before ++ s' ∷ rest))
      ∷ []

Outcome-cases :
    (o : Outcome)
    → ((out : StepOutput) × (o ≡ returned out)) ⊎ ((message : String) × (o ≡ thrown message))
Outcome-cases (returned out) = inl (out, refl)
Outcome-cases (thrown message) = inr (message, refl)

module _ {W : Type 0} (w : Setting W) (state : MigrationState)
    (P : List (MigrationStep W) → List StepState → List StepState → Run → Type 0)
    (at_end : (k : ℕ) (before rest : List StepState)
      → P [] before rest (finish (w.clock k) (with_steps state (before ++ rest))))
    (no_state : (step : MigrationStep W) (steps : List (MigrationStep W)) (before : List StepState)
      → P (step ∷ steps) before [] (stop no_state_for_step))
    (skip : (step : MigrationStep W) (steps : List (MigrationStep W)) (before : List StepState)
        (s : StepState) (rest : List StepState) (r : Run)
      → is_completed s.status ≡ true
      → is_pause w.pause_at step.name ≡ false
      → P steps (before ++ s ∷ []) rest r
      → P (step ∷ steps) before (s ∷ rest) r)
    (skip_last : (k : ℕ) (step : MigrationStep W) (steps : List (MigrationStep W))
        (before : List StepState) (s : StepState) (rest : List StepState)
      → is_completed s.status ≡ true
      → is_pause w.pause_at step.name ≡ true
      → P
          (step ∷ steps)
          before
          (s ∷ rest)
          (finish (w.clock k) (with_steps state (before ++ s ∷ rest))))
    (success : (k : ℕ) (step : MigrationStep W) (steps : List (MigrationStep W))
        (before : List StepState) (s : StepState) (rest : List StepState) (out : StepOutput)
        (r : Run)
      → is_completed s.status ≡ false
      → P steps (before ++ done_at w state k s out ∷ []) rest r
      → P (step ∷ steps) before (s ∷ rest) (
          then_events
            (round w state step k before s rest (returned out) (done_at w state k s out))
            r))
    (success_last : (k : ℕ) (step : MigrationStep W) (steps : List (MigrationStep W))
        (before : List StepState) (s : StepState) (rest : List StepState) (out : StepOutput)
      → is_completed s.status ≡ false
      → is_pause w.pause_at step.name ≡ true
      → P (step ∷ steps) before (s ∷ rest) (record {
        events = round w state step k before s rest (returned out) (done_at w state k s out);
        exit = paused;
      }))
    (failure : (k : ℕ) (step : MigrationStep W) (steps : List (MigrationStep W))
        (before : List StepState) (s : StepState) (rest : List StepState) (message : String)
      → is_completed s.status ≡ false
      → P (step ∷ steps) before (s ∷ rest) (record {
        events =
            round w state step k before s rest
              (thrown message)
              (broken (begun s (w.clock k)) message);
        exit = exited;
      })) where
  pub loop_rule :
      (k : ℕ) (steps : List (MigrationStep W)) (before rest : List StepState)
      → P steps before rest (loop w state k steps before rest)
  unfolding loop
  loop_rule k [] before rest = at_end k before rest
  loop_rule k (step ∷ steps) before [] = no_state step steps before
  loop_rule k (step ∷ steps) before (s ∷ rest) =
      let ih = loop_rule k steps (before ++ s ∷ []) rest in
      let ih' = λ (out : StepOutput).
        loop_rule (suc (suc k)) steps (before ++ done_at w state k s out ∷ []) rest in
      elim (Bool-cases (is_completed s.status)) [
        | inl c ↦ elim (Bool-cases (is_pause w.pause_at step.name)) [
          | inl q ↦ rw (loop, c, q) (skip_last k step steps before s rest c q)
          | inr q ↦ rw (loop, c, q) (skip step steps before s rest _ c q ih)
        ]
        | inr c ↦ elim (Outcome-cases (step.action (seen_at w state k before s rest))) [
          | inl (out, o) ↦ elim (Bool-cases (is_pause w.pause_at step.name)) [
            | inl q ↦ rw (loop, c, o, q) (success_last k step steps before s rest out c q)
            | inr q ↦ rw (loop, c, o, q) (success k step steps before s rest out _ c (ih' out))
          ]
          | inr (message, o) ↦ rw (loop, c, o) (failure k step steps before s rest message c)
        ]
      ]
