-- ===== src/Migration/State.antt =====
-- common/migration/types.ts, and the state functions of common/migration/runner.ts. A point in
-- time is a number, `null` is `none`.
use whm.Prelude.{ℕ, String}
use whm.Prelude.{Bool, true, false, Option, none, some}
use whm.Prelude.{List, [], ◌∷◌}

-- Structured output: flat key-value pairs.
abbrev pub StepOutput : Type 0
StepOutput = List (String × String)

-- `process.env` after the environment file is loaded.
abbrev pub Env : Type 0
Env = String → Option String

-- What an action sees. The wallet's type is the migration's own.
pub record StepContext (W : Type 0) : Type 0 where
  pub outputs : List (String × StepOutput)
  pub wallet : W
  pub env : Env

-- How an action ends: with its output, or by a throw whose message is kept.
pub data Outcome : Type 0 where
  returned : StepOutput → Outcome
  thrown : String → Outcome

pub record MigrationStep (W : Type 0) : Type 0 where
  pub name : String
  pub action : StepContext W → Outcome

pub record Migration (W : Type 0) : Type 0 where
  pub name : String
  pub pks : List String
  pub setup : Env → W
  pub steps : List (MigrationStep W)

pub data Status : Type 0 where
  pending completed failed : Status

pub record StepState : Type 0 where
  pub name : String
  pub status : Status
  pub output : Option StepOutput
  pub error : Option String
  pub started_at : Option ℕ
  pub completed_at : Option ℕ

pub record MigrationState : Type 0 where
  pub migration : String
  pub environment : String
  pub started_at : ℕ
  pub completed_at : Option ℕ
  pub steps : List StepState

abbrev pub is_completed : Status → Bool
is_completed completed = true
is_completed _ = false

-- A step that has not run, under its name.
abbrev pub fresh_step : String → StepState
fresh_step n = record {
  name = n;
  status = pending;
  output = none;
  error = none;
  started_at = none;
  completed_at = none;
}

unfoldable pub step_names : {W : Type 0} → List (MigrationStep W) → List String
step_names [] = []
step_names (s ∷ steps) = s.name ∷ step_names steps

unfoldable pub state_names : List StepState → List String
state_names [] = []
state_names (s ∷ steps) = s.name ∷ state_names steps

unfoldable pub fresh_steps : List String → List StepState
fresh_steps [] = []
fresh_steps (n ∷ names) = fresh_step n ∷ fresh_steps names

-- `createState`
unfoldable pub create_state : {W : Type 0} → Migration W → String → ℕ → MigrationState
unfolding step_names fresh_steps
create_state m environment now = record {
  migration = m.name;
  environment = environment;
  started_at = now;
  completed_at = none;
  steps = fresh_steps (step_names m.steps);
}

-- `outputs[step.name] = step.output`, where the step is completed and has one.
abbrev pub with_output :
    Status → Option StepOutput → String → List (String × StepOutput) → List (String × StepOutput)
with_output completed (some o) n rest = (n, o) ∷ rest
with_output completed none n rest = rest
with_output pending o n rest = rest
with_output failed o n rest = rest

unfoldable pub completed_outputs : List StepState → List (String × StepOutput)
completed_outputs [] = []
completed_outputs (s ∷ steps) = with_output s.status s.output s.name (completed_outputs steps)

-- `buildStepContext`. Step names are distinct, so that no entry overwrites another.
unfoldable pub build_step_context : {W : Type 0} → List StepState → W → Env → StepContext W
build_step_context steps wallet env = record {
  outputs = completed_outputs steps;
  wallet = wallet;
  env = env;
}
