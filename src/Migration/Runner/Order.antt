-- ===== src/Migration/Runner/Order.antt =====
-- Which actions a run calls, and in which order.
use whm.Prelude.{ℕ, String}
use whm.Prelude.{◌≡◌, refl, ap}
use whm.Prelude.{false, none}
use whm.Prelude.{List, [], ◌∷◌, ◌++◌}
use whm.Prelude.{if◌then◌else◌}
use whm.Migration.State.{MigrationStep, StepState, MigrationState, is_completed}
use whm.Migration.Runner.{Event, ran, saved, complete, Run, Setting, is_pause, loop}
use whm.Migration.Runner.Rule.{loop_rule}

-- The steps whose state is not completed, in order.
unfoldable pub todo : {W : Type 0} → List (MigrationStep W) → List StepState → List String
todo [] rest = []
todo (step ∷ steps) [] = []
todo (step ∷ steps) (s ∷ rest) =
    if is_completed s.status then todo steps rest else step.name ∷ todo steps rest

unfoldable pub ran_names : List Event → List String
ran_names [] = []
ran_names (ran n seen o ∷ ev) = n ∷ ran_names ev
ran_names (saved st ∷ ev) = ran_names ev

pub record Starts (xs ys : List String) : Type 0 where
  pub rest : List String
  pub whole : ys ≡ xs ++ rest

-- The actions called are a first part of those to do, and all of them where the run completes.
abbrev pub Ordered :
    {W : Type 0} → Setting W → List (MigrationStep W) → List StepState → Run → Type 0
Ordered w steps rest r =
    Starts (ran_names r.events) (todo steps rest)
    × (w.pause_at ≡ none → r.exit ≡ complete → ran_names r.events ≡ todo steps rest)

module _ {W : Type 0} (w : Setting W) (state : MigrationState) where
  is_pause-none : (n : String) → w.pause_at ≡ none → is_pause w.pause_at n ≡ false
  is_pause-none n e = rw e

  pub loop-Ordered :
      (k : ℕ) (steps : List (MigrationStep W)) (before rest : List StepState)
      → Ordered w steps rest (loop w state k steps before rest)
  unfolding todo ran_names
  loop-Ordered =
      loop_rule w state (λ steps before rest r. Ordered w steps rest r)
        (λ k before rest. (record { rest = []; whole = refl }, λ p e. refl))
        (λ step steps before. (record { rest = []; whole = refl }, λ p e. refl))
        (λ step steps before s rest r c q ih. rw (todo, c) ih)
        (λ k step steps before s rest c q.
          (record { rest = _; whole = refl }, λ p e. absurd (cc (is_pause-none step.name p, q))))
        (λ k step steps before s rest out r c ih.
          rw (todo, c)
            (
              record {
                rest = ih.0.rest;
                whole = ap (λ (l : List String). step.name ∷ l) ih.0.whole;
              },
              λ p e. ap (λ (l : List String). step.name ∷ l) (ih.1 p e),
            ))
        (λ k step steps before s rest out c q.
          rw (todo, c) (record { rest = todo steps rest; whole = refl }, λ p e. absurd (cc)))
        (λ k step steps before s rest message c.
          rw (todo, c) (record { rest = todo steps rest; whole = refl }, λ p e. absurd (cc)))
