-- ===== src/Migration/Runner/Trace.antt =====
-- What a run does, in order: the calls of actions and the saves.
use whm.Prelude.{ℕ, String}
use whm.Prelude.{◌≡◌, refl, sym, ap, ◌∙◌, arith}
use whm.Prelude.{false, none, some}
use whm.Prelude.{List, [], ◌∷◌, ◌++◌, append_assoc}
use whm.Migration.State.{
  Outcome, returned, thrown, MigrationStep, completed, failed, StepState, MigrationState,
  is_completed, step_names, state_names, build_step_context, completed_outputs, with_output,
}
use whm.Migration.Runner.{Event, ran, saved, Run, Setting, begun, broken, loop}
use whm.Migration.Runner.Rule.{loop_rule, done_at}

-- What the state of a step says after its action ended so.
abbrev pub Recorded : Outcome → StepState → Type 0
Recorded (returned out) s = (s.status ≡ completed) × (s.output ≡ some out) × (s.error ≡ none)
Recorded (thrown message) s = (s.status ≡ failed) × (s.error ≡ some message)

-- From one list of states to the next: one step, which was not completed, has its outcome recorded.
pub record Changes (n : String) (o : Outcome) (cur new : List StepState) : Type 0 where
  pub pre : List StepState
  pub post : List StepState
  pub old : StepState
  pub now : StepState
  pub is_cur : cur ≡ pre ++ old ∷ post
  pub is_new : new ≡ pre ++ now ∷ post
  pub old_name : old.name ≡ n
  pub now_name : now.name ≡ n
  pub was_open : is_completed old.status ≡ false
  pub recorded : Recorded o now

-- The events after a point at which the step states are `cur`: each action gets the outputs of the
-- steps completed so far, and its outcome is saved before anything else happens.
abbrev pub Follows : List StepState → List Event → Type 0
Follows cur [] = Unit {0}
Follows cur (saved st ∷ ev) = (st.steps ≡ cur) × Follows cur ev
Follows cur (ran n seen o ∷ []) = ⊥
Follows cur (ran n seen o ∷ ran m seen' o' ∷ ev) = ⊥
Follows cur (ran n seen o ∷ saved st ∷ ev) =
    (seen ≡ completed_outputs cur) × Changes n o cur st.steps × Follows st.steps ev

completed_outputs-open :
    (before : List StepState) (s s' : StepState) (rest : List StepState)
    → is_completed s.status ≡ false
    → is_completed s'.status ≡ false
    → completed_outputs (before ++ s ∷ rest) ≡ completed_outputs (before ++ s' ∷ rest)
unfolding completed_outputs
completed_outputs-open [] s s' rest h h' = ground arith
completed_outputs-open (b ∷ before) s s' rest h h' =
    ap (with_output b.status b.output b.name) (completed_outputs-open before s s' rest h h')

module _ {W : Type 0} (w : Setting W) (state : MigrationState) where
  abbrev pub FollowsFrom : List (MigrationStep W) → List StepState → List StepState → Run → Type 0
  FollowsFrom steps before rest r =
      step_names steps ≡ state_names rest → Follows (before ++ rest) r.events

  changes :
      (step : MigrationStep W) (before : List StepState) (s s' : StepState) (rest : List StepState)
      (o : Outcome)
      → step.name ≡ s.name
      → s'.name ≡ s.name
      → is_completed s.status ≡ false
      → Recorded o s'
      → Changes step.name o (before ++ s ∷ rest) (before ++ s' ∷ rest)
  changes step before s s' rest o e e' c r = record {
    pre = before;
    post = rest;
    old = s;
    now = s';
    is_cur = refl;
    is_new = refl;
    old_name = sym e;
    now_name = e' ∙ sym e;
    was_open = c;
    recorded = r;
  }

  pub head_name :
      (step : MigrationStep W) (steps : List (MigrationStep W)) (s : StepState)
      (rest : List StepState)
      → step_names (step ∷ steps) ≡ state_names (s ∷ rest)
      → (step.name ≡ s.name) × (step_names steps ≡ state_names rest)
  unfolding step_names state_names
  head_name step steps s rest e = (cc, cc)

  pub loop-Follows :
      (k : ℕ) (steps : List (MigrationStep W)) (before rest : List StepState)
      → FollowsFrom steps before rest (loop w state k steps before rest)
  unfolding build_step_context
  loop-Follows =
      loop_rule w state FollowsFrom (λ k before rest e. (refl, tt)) (λ step steps before e. tt)
        (λ step steps before s rest r c q ih e.
          rw (append_assoc before (s ∷ []) rest) at (ih (head_name step steps s rest e).1))
        (λ k step steps before s rest c q e. (refl, tt))
        (λ k step steps before s rest out r c ih e. (
          completed_outputs-open before (begun s (w.clock k)) s rest refl c,
          changes step before s (done_at w state k s out) rest (returned out)
              (head_name step steps s rest e).0 refl c (refl, refl, refl),
          rw (append_assoc before (done_at w state k s out ∷ []) rest) at
              (ih (head_name step steps s rest e).1),
        ))
        (λ k step steps before s rest out c q e. (
          completed_outputs-open before (begun s (w.clock k)) s rest refl c,
          changes step before s (done_at w state k s out) rest (returned out)
              (head_name step steps s rest e).0 refl c (refl, refl, refl),
          tt,
        ))
        (λ k step steps before s rest message c e. (
          completed_outputs-open before (begun s (w.clock k)) s rest refl c,
          changes step before s (broken (begun s (w.clock k)) message) rest (thrown message)
              (head_name step steps s rest e).0 refl c (refl, refl),
          tt,
        ))
