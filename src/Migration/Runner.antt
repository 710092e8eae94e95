-- ===== src/Migration/Runner.antt =====
-- `runMigration` of common/migration/runner.ts: a resumable run of a migration's steps. A run is the
-- list of what it does in order (the actions it calls and the states it writes to the state file)
-- with the way it ends. `clock k` is the k-th reading of the time. Printing is left out.
pub mod Rule
pub mod Trace
pub mod Guard
pub mod Order
pub mod Complete
pub mod Runs
pub mod EarlyPause
mod Example
use whm.Prelude.{ℕ, zero, suc, ◌+◌, ◌-◌, ◌*◌, ◌/◌, ◌%◌, ◌^◌, ◌≤◌, ◌<◌, min, String}
use whm.Prelude.{◌≡◌, refl, sym, ap, ◌∙◌, ◌≢◌, ◌↔◌, ◌⊎◌, inl, inr, arith}
use whm.Prelude.{Bool, true, false, not, ◌&&◌, ◌||◌, Option, none, some}
use whm.Prelude.{List, [], ◌∷◌, ◌++◌, map, append-nil, append_assoc}
use whm.Prelude.{ltb, leb, ◌==◌, if◌then◌else◌, ltb→lt, lt→ltb, ==_iff, Bool-cases, Option-cases}
use whm.Prelude.{length, get_elem?, take, drop, replicate, All, All-append}
use whm.Prelude.{length-append, take-append-drop, length-take, length-drop, length-replicate}
use whm.Prelude.{take-append, drop-append}
use whm.Prelude.{str_eq, eq_iff, eq_refl}
use whm.Migration.State.{
  StepOutput, Env, StepContext, Outcome, returned, thrown, MigrationStep, Migration, Status,
  pending, completed, failed, StepState, MigrationState, is_completed, fresh_step, step_names,
  state_names, fresh_steps, create_state, build_step_context,
}

pub data Problem : Type 0 where
  no_steps : Problem
  duplicate_step : String → Problem
  missing_env : String → Problem
  steps_changed : Problem
  step_not_found : String → Problem
  no_state_for_step : Problem

pub data Event : Type 0 where
  -- the action of the named step was called with these outputs, and ended so
  ran : String → List (String × StepOutput) → Outcome → Event
  -- `saveState`
  saved : MigrationState → Event

pub data Exit : Type 0 where
  complete : Exit
  paused : Exit
  -- `process.exit(1)` after a failed step
  exited : Exit
  -- an error thrown out of `runMigration`
  threw : Problem → Exit

pub record Run : Type 0 where
  pub events : List Event
  pub exit : Exit

abbrev pub then_events : List Event → Run → Run
then_events before r = record { events = before ++ r.events; exit = r.exit }

-- `names.find((n, i) => names.indexOf(n) !== i)`: the first name that an earlier step has.
unfoldable pub contains : String → List String → Bool
contains n [] = false
contains n (x ∷ xs) = str_eq x n || contains n xs

find_dupe : List String → List String → Option String
find_dupe seen [] = none
find_dupe seen (n ∷ names) = elim (contains n seen) [
  | true ↦ some n
  | false ↦ find_dupe (n ∷ seen) names
]

-- The checks of `loadMigration`.
check_steps : {W : Type 0} → Migration W → Option Problem
unfolding find_dupe
check_steps m = elim m.steps [
  | [] ↦ some no_steps
  | s ∷ steps ↦ elim (find_dupe [] (step_names (s ∷ steps))) [
    | none ↦ none
    | some n ↦ some (duplicate_step n)
  ]
]

-- `!process.env[pkVar]`: a variable that is unset or empty is missing.
is_set : Option String → Bool
is_set none = false
is_set (some v) = not (str_eq v "")

check_pks : Env → List String → Option Problem
unfolding is_set
check_pks env [] = none
check_pks env (pk ∷ pks) = elim (is_set (env pk)) [
  | true ↦ check_pks env pks
  | false ↦ some (missing_env pk)
]

unfoldable pub names_eq : List String → List String → Bool
names_eq [] [] = true
names_eq [] (y ∷ ys) = false
names_eq (x ∷ xs) [] = false
names_eq (x ∷ xs) (y ∷ ys) = str_eq x y && names_eq xs ys

-- Steps added since the last run are appended as fresh ones, which opens the migration again.
pub extend : MigrationState → List String → MigrationState
extend state added = record state {
  completed_at = elim added [ [] ↦ state.completed_at | n ∷ ns ↦ none ];
  steps = state.steps ++ fresh_steps added;
}

-- Load or create: a stored state must name a prefix of the defined steps.
pub prepare :
    {W : Type 0} → Migration W → String → Option MigrationState → ℕ → Problem ⊎ MigrationState
prepare m environment none now = inr (create_state m environment now)
prepare m environment (some state) now =
    let existing = state_names state.steps in
    let defined = step_names m.steps in
    let added = drop (length existing) defined in
    if names_eq existing (take (length existing) defined)
    then inr (extend state added)
    else inl steps_changed

-- `state.steps.findIndex((s) => s.name === name)`
unfoldable pub find_index : String → List StepState → Option ℕ
find_index n [] = none
find_index n (s ∷ steps) = elim (str_eq s.name n) [
  | true ↦ some 0
  | false ↦ elim (find_index n steps) [ none ↦ none | some i ↦ some (suc i) ]
]

unfoldable pub reset : List StepState → List StepState
reset [] = []
reset (s ∷ steps) = fresh_step s.name ∷ reset steps

-- `--from`: the named step and all after it are reset, and the state is saved. Here and for
-- `--pause-at`, `some` is a text that is not empty: the source's tests of the two take an empty text as
-- an option that is not given, which is `none`.
pub reset_from : Option String → MigrationState → Problem ⊎ (List Event × MigrationState)
reset_from none state = inr ([], state)
reset_from (some from) state = elim (find_index from state.steps) [
  | none ↦ inl (step_not_found from)
  | some i ↦
      let state' = record state { steps = take i state.steps ++ reset (drop i state.steps) } in
      inr (saved state' ∷ [], state')
]

-- `--pause-at` must name a step.
unfoldable pub check_pause : Option String → List StepState → Option Problem
check_pause none steps = none
check_pause (some n) steps = elim (find_index n steps) [
  | none ↦ some (step_not_found n)
  | some i ↦ none
]

abbrev is_pause : Option String → String → Bool
is_pause none n = false
is_pause (some p) n = str_eq n p

-- What one run holds fixed.
pub record Setting (W : Type 0) : Type 0 where
  pub pause_at : Option String
  pub wallet : W
  pub env : Env
  pub clock : ℕ → ℕ

-- What the loop makes of a step's state: before the action, and after it returned or threw.
abbrev pub begun : StepState → ℕ → StepState
begun s t = record s { started_at = some t; status = pending }

abbrev pub succeeded : StepState → ℕ → StepOutput → StepState
succeeded s t out = record s {
  status = completed;
  output = some out;
  error = none;
  completed_at = some t;
}

abbrev pub broken : StepState → String → StepState
broken s message = record s { status = failed; error = some message }

abbrev pub with_steps : MigrationState → List StepState → MigrationState
with_steps state steps = record state { steps = steps }

abbrev pub stop : Problem → Run
stop p = record { events = []; exit = threw p }

-- The end of `runMigration`: the migration is marked complete and saved.
abbrev pub finish : ℕ → MigrationState → Run
finish now state = record {
  events = saved (record state { completed_at = some now }) ∷ [];
  exit = complete;
}

-- The loop over the steps. `before` are the states of the steps passed, `rest` those of the steps
-- to come, and `k` counts the readings of the clock.
unfoldable pub loop :
    {W : Type 0}
    → Setting W
    → MigrationState
    → ℕ
    → List (MigrationStep W)
    → List StepState
    → List StepState
    → Run
loop w state k [] before rest = finish (w.clock k) (with_steps state (before ++ rest))
loop w state k (step ∷ steps) before [] = stop no_state_for_step
loop w state k (step ∷ steps) before (s ∷ rest) = elim (is_completed s.status) [
  | true ↦ elim (is_pause w.pause_at step.name) [
    | true ↦ finish (w.clock k) (with_steps state (before ++ s ∷ rest))
    | false ↦ loop w state k steps (before ++ s ∷ []) rest
  ]
  | false ↦
      let started = begun s (w.clock k) in
      let seen = build_step_context (before ++ started ∷ rest) w.wallet w.env in
      elim (step.action seen) [
        | returned out ↦
            let done = succeeded started (w.clock (suc k)) out in
            let now =
              ran step.name seen.outputs (returned out)
              ∷ saved (with_steps state (before ++ done ∷ rest))
              ∷ [] in
            elim (is_pause w.pause_at step.name) [
              | true ↦ record { events = now; exit = paused }
              | false ↦
                  then_events now (loop w state (suc (suc k)) steps (before ++ done ∷ []) rest)
            ]
        | thrown message ↦ record {
          events =
              ran step.name seen.outputs (thrown message)
              ∷ saved (with_steps state (before ++ broken started message ∷ rest))
              ∷ [];
          exit = exited;
        }
      ]
]

-- All that comes before the loop but for `--pause-at`: the state to start from, and what was saved.
pub opening :
    {W : Type 0}
    → Migration W
    → (environment : String) (env : Env) → Option MigrationState
    → (from : Option String) (now : ℕ) → Problem ⊎ (List Event × MigrationState)
unfolding check_steps check_pks
opening m environment env stored from now = elim (check_steps m) [
  | some p ↦ inl p
  | none ↦ elim (check_pks env m.pks) [
    | some p ↦ inl p
    | none ↦ elim (prepare m environment stored now) [
      | inl p ↦ inl p
      | inr state ↦ reset_from from state
    ]
  ]
]

-- From the state that `--from` left.
pub proceed : {W : Type 0} → Migration W → Setting W → List Event × MigrationState → Run
unfolding check_pause
proceed m w (events, state) = then_events events (elim (check_pause w.pause_at state.steps) [
  | some p ↦ stop p
  | none ↦ loop w state 1 m.steps [] state.steps
])

abbrev pub setting : {W : Type 0} → Migration W → Env → Option String → (ℕ → ℕ) → Setting W
setting m env pause_at clock = record {
  pause_at = pause_at;
  wallet = m.setup env;
  env = env;
  clock = clock;
}

-- `runMigration`: the stored state, the environment and the two options to what the run does.
pub run_migration :
    {W : Type 0}
    → Migration W
    → (environment : String) (env : Env) → Option MigrationState
    → (from pause_at : Option String) → (clock : ℕ → ℕ) → Run
unfolding proceed
run_migration m environment env stored from pause_at clock =
    elim (opening m environment env stored from (clock 0)) [
      | inl p ↦ stop p
      | inr r ↦ proceed m (setting m env pause_at clock) r
    ]
