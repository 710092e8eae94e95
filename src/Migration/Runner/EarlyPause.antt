-- ===== src/Migration/Runner/EarlyPause.antt =====
-- A pause at a step that an earlier run completed.
use whm.Prelude.{ℕ, suc, String}
use whm.Prelude.{◌≡◌, refl, sym, ap, ◌∙◌, inl, inr, arith}
use whm.Prelude.{true, Option, none, some}
use whm.Prelude.{List, [], ◌∷◌, ◌++◌, append_assoc}
use whm.Prelude.{Bool-cases}
use whm.Prelude.{str_eq, eq_iff}
use mathlib.Core.Path.{subst}
use whm.Migration.State.{
  Env, MigrationStep, Migration, completed, StepState, MigrationState, is_completed, step_names,
  state_names,
}
use whm.Migration.Runner.{
  Event, Setting, then_events, with_steps, finish, is_pause, loop, opening, find_index,
  run_migration, setting, check_pause,
}
use whm.Migration.Runner.Trace.{head_name}
use whm.Migration.Runner.Complete.{AllCompleted}
use whm.Migration.Runner.Runs.{run_lem, opening-Opened}

find_index-append :
    (p : String) (done : List StepState) (s : StepState) (more : List StepState)
    → s.name ≡ p
    → (i : ℕ) × (find_index p (done ++ s ∷ more) ≡ some i)
unfolding find_index
find_index-append p [] s more e = (0, ground (arith, eq_iff s.name p))
find_index-append p (d ∷ done) s more e = elim (Bool-cases (str_eq d.name p)) [
  | inl q ↦ (0, rw (find_index, q))
  | inr q ↦ let (i, f) = find_index-append p done s more e in (suc i, rw (find_index, q, f))
]

loop_early :
    {W : Type 0} (w : Setting W) (state : MigrationState) (k : ℕ) (p : String)
    (steps : List (MigrationStep W)) (before done : List StepState) (s : StepState)
    (more : List StepState)
    → w.pause_at ≡ some p
    → s.name ≡ p
    → s.status ≡ completed
    → AllCompleted done
    → step_names steps ≡ state_names (done ++ s ∷ more)
    → loop w state k steps before (done ++ s ∷ more)
      ≡ finish (w.clock k) (with_steps state (before ++ (done ++ s ∷ more)))
unfolding loop
loop_early w state k p [] before [] s more q n c a e = absurd (unfold step_names state_names in cc)
loop_early w state k p [] before (d ∷ done) s more q n c a e =
    absurd (unfold step_names state_names in cc)
loop_early w state k p (step ∷ steps) before [] s more q n c a e =
    let same = (head_name w state step steps s more e).0 in
    let here : is_pause w.pause_at step.name ≡ true = rw q (ground (arith, eq_iff step.name p)) in
    let passed : is_completed s.status ≡ true = ap is_completed c in rw (loop, passed, here)
loop_early w state k p (step ∷ steps) before (d ∷ done) s more q n c (ad, a) e =
    let rest = (head_name w state step steps d (done ++ s ∷ more) e).1 in
    let ih = loop_early w state k p steps (before ++ d ∷ []) done s more q n c a rest in
    let passed : is_completed d.status ≡ true = ap is_completed ad in
    elim (Bool-cases (is_pause w.pause_at step.name)) [
      | inl here ↦ rw (loop, passed, here)
      | inr on ↦ rw (loop, passed, on) (ih ∙ rw (append_assoc before (d ∷ []) (done ++ s ∷ more)))
    ]

-- Where `--pause-at` names a completed step behind completed ones, the run calls no action, writes
-- the unchanged steps with a time of completion, and ends as complete, whatever steps come after.
pub run_early_pause :
    {W : Type 0} (m : Migration W) (environment : String) (env : Env)
    (stored : Option MigrationState) (from : Option String) (clock : ℕ → ℕ) (ev : List Event)
    (st : MigrationState) (done : List StepState) (s : StepState) (more : List StepState)
    → opening m environment env stored from (clock 0) ≡ inr (ev, st)
    → st.steps ≡ done ++ s ∷ more
    → AllCompleted done
    → s.status ≡ completed
    → run_migration m environment env stored from (some s.name) clock
      ≡ then_events ev (finish (clock 1) st)
unfolding check_pause
run_early_pause m environment env stored from clock ev st done s more opened shape a c =
    let start = opening-Opened m environment env stored from (clock 0) ev st opened in
    let names : step_names m.steps ≡ state_names (done ++ s ∷ more) = rw shape at start.names in
    let (i, f) = find_index-append s.name done s more refl in
    let w = setting m env (some s.name) clock in
    let found : find_index s.name st.steps ≡ some i =
      subst (λ (xs : List StepState). find_index s.name xs ≡ some i) (sym shape) f in
    let asked : check_pause (some s.name) st.steps ≡ none = rw (check_pause, found) in
    let left =
      subst
        (λ (xs : List StepState). loop w st 1 m.steps [] xs ≡ finish (clock 1) (with_steps st xs))
        (sym shape) (loop_early w st 1 s.name m.steps [] done s more refl refl c a names) in
    run_lem m environment env stored from (some s.name) clock ev st opened
    ∙ rw asked (ap (then_events ev) left)
