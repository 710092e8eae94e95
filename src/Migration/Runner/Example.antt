-- ===== src/Migration/Runner/Example.antt =====
-- Runs of a migration of three steps, resumed after the first, and instances of the theorems.
use whm.Prelude.{ℕ, ◌+◌, String}
use whm.Prelude.{◌≡◌, refl, ◌≢◌, inl, inr}
use whm.Prelude.{none, some}
use whm.Prelude.{List, [], ◌∷◌, ◌++◌}
use whm.Migration.State.{
  Env, StepContext, Outcome, returned, thrown, MigrationStep, Migration, completed, StepState,
  MigrationState, fresh_step, step_names, state_names, fresh_steps, build_step_context,
  completed_outputs,
}
use whm.Migration.Runner.{
  steps_changed, complete, then_events, finish, loop, prepare, opening, reset_from, run_migration,
  setting, names_eq, check_pause, contains,
}
use whm.Migration.Runner.{extend}
use whm.Migration.Runner.Guard.{prepare_lem}
use whm.Migration.Runner.Trace.{Follows}
use whm.Migration.Runner.Order.{Ordered, ran_names}
use whm.Migration.Runner.Complete.{IsComplete, last_saved}
use whm.Migration.Runner.Runs.{run-Follows, run-Ordered, run-IsComplete}
use whm.Migration.Runner.EarlyPause.{run_early_pause}

abbrev step : String → MigrationStep Unit
step n = record { name = n; action = λ c. returned (("address", n) ∷ []) }

-- The second step looks at what the first one left.
abbrev needs_first : StepContext Unit → Outcome
needs_first c = elim c.outputs [ [] ↦ thrown "no address" | o ∷ os ↦ returned [] ]

abbrev plan : Migration Unit
plan = record {
  name = "basejump";
  pks = "PK" ∷ [];
  setup = λ env. tt;
  steps = step "a" ∷ record { name = "b"; action = needs_first } ∷ step "c" ∷ [];
}

abbrev env : Env
env v = some "0x1"

abbrev first_done : StepState
first_done = record (fresh_step "a") {
  status = completed;
  output = some (("address", "a") ∷ []);
  started_at = some 1;
  completed_at = some 2;
}

abbrev stored : MigrationState
stored = record {
  migration = "basejump";
  environment = "prod";
  started_at = 1;
  completed_at = none;
  steps = first_done ∷ fresh_step "b" ∷ [];
}

-- The stored state with the step that was added since.
abbrev resumed : MigrationState
resumed = record stored { steps = first_done ∷ fresh_step "b" ∷ fresh_step "c" ∷ [] }

abbrev clock : ℕ → ℕ
clock k = 100 + k

opens : opening plan "prod" env (some stored) none (clock 0) ≡ inr ([], resumed)
unfolding opening prepare extend reset_from state_names step_names fresh_steps names_eq contains
opens = refl

resumes :
    ran_names (run_migration plan "prod" env (some stored) none none clock).events ≡ "b" ∷ "c" ∷ []
unfolding run_migration opening prepare extend reset_from state_names step_names fresh_steps
    names_eq contains check_pause loop build_step_context completed_outputs ran_names
resumes = refl

completes : (run_migration plan "prod" env (some stored) none none clock).exit ≡ complete
unfolding run_migration opening prepare extend reset_from state_names step_names fresh_steps
    names_eq contains check_pause loop build_step_context completed_outputs
completes = refl

prepare_lem_example :
    ((ns : List String)
      → step_names plan.steps ≡ state_names stored.steps ++ ns
      → prepare plan "prod" (some stored) 7 ≡ inr (extend stored ns))
    × (((ns : List String) → step_names plan.steps ≢ state_names stored.steps ++ ns)
        → prepare plan "prod" (some stored) 7 ≡ inl steps_changed)
prepare_lem_example = prepare_lem plan "prod" 7 stored

run-Follows_example :
    Follows resumed.steps (run_migration plan "prod" env (some stored) none none clock).events
run-Follows_example = run-Follows plan "prod" env (some stored) none none clock [] resumed opens

run-Ordered_example :
    Ordered
      (setting plan env none clock)
      plan.steps
      resumed.steps
      (run_migration plan "prod" env (some stored) none none clock)
run-Ordered_example = run-Ordered plan "prod" env (some stored) none none clock [] resumed opens

run-IsComplete_example :
    IsComplete (last_saved (run_migration plan "prod" env (some stored) none none clock).events)
run-IsComplete_example =
    run-IsComplete plan "prod" env (some stored) none none clock [] resumed opens refl completes

-- A run asked to pause after the step that is completed already.
run_early_pause_example :
    run_migration plan "prod" env (some stored) none (some "a") clock
    ≡ then_events [] (finish 101 resumed)
run_early_pause_example =
    run_early_pause plan "prod" env (some stored) none clock [] resumed [] first_done
      (fresh_step "b" ∷ fresh_step "c" ∷ []) opens refl tt refl
