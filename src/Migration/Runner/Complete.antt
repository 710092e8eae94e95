-- ===== src/Migration/Runner/Complete.antt =====
-- What a run that ends by completing has written last.
use whm.Prelude.{ℕ, String}
use whm.Prelude.{◌≡◌, refl, arith}
use whm.Prelude.{true, false, Option, none, some}
use whm.Prelude.{List, [], ◌∷◌, append-nil}
use whm.Prelude.{All, All-append}
use whm.Migration.State.{
  StepOutput, Outcome, returned, MigrationStep, completed, StepState, MigrationState, is_completed,
  step_names, state_names,
}
use whm.Migration.Runner.{Event, ran, saved, complete, Run, Setting, is_pause, loop}
use whm.Migration.Runner.Rule.{loop_rule, seen_at}

unfoldable pub last_saved : List Event → Option MigrationState
last_saved [] = none
last_saved (ran n seen o ∷ ev) = last_saved ev
last_saved (saved st ∷ ev) = elim (last_saved ev) [ none ↦ some st | some later ↦ some later ]

abbrev pub AllCompleted : List StepState → Type 0
AllCompleted = All (λ s. s.status ≡ completed)

pub record IsComplete (o : Option MigrationState) : Type 0 where
  pub last : MigrationState
  pub is_last : o ≡ some last
  pub all : AllCompleted last.steps
  pub time : ℕ
  pub marked : last.completed_at ≡ some time

module _ {W : Type 0} (w : Setting W) (state : MigrationState) where
  abbrev pub Completes : List (MigrationStep W) → List StepState → List StepState → Run → Type 0
  Completes steps before rest r =
      w.pause_at ≡ none
      → step_names steps ≡ state_names rest
      → AllCompleted before
      → r.exit ≡ complete
      → IsComplete (last_saved r.events)

  no_names : (rest : List StepState) → [] ≡ state_names rest → rest ≡ []
  unfolding state_names
  no_names [] e = refl
  no_names (s ∷ rest) e = absurd (cc)

  same_tail :
      (step : MigrationStep W) (steps : List (MigrationStep W)) (s : StepState)
      (rest : List StepState)
      → step_names (step ∷ steps) ≡ state_names (s ∷ rest)
      → step_names steps ≡ state_names rest
  unfolding step_names state_names
  same_tail step steps s rest e = cc

  is_completed_status : (s : StepState) → is_completed s.status ≡ true → s.status ≡ completed
  is_completed_status s h = ground arith

  later_IsComplete :
      (n : String) (seen : List (String × StepOutput)) (o : Outcome) (st : MigrationState)
      (ev : List Event)
      → IsComplete (last_saved ev)
      → IsComplete (last_saved (ran n seen o ∷ saved st ∷ ev))
  unfolding last_saved
  later_IsComplete n seen o st ev h = record {
    last = h.last;
    is_last = rw (h.is_last);
    all = h.all;
    time = h.time;
    marked = h.marked;
  }

  pub loop-Completes :
      (k : ℕ) (steps : List (MigrationStep W)) (before rest : List StepState)
      → Completes steps before rest (loop w state k steps before rest)
  unfolding last_saved step_names
  loop-Completes =
      loop_rule w state Completes
        (λ k before rest p e a x. record {
          last = _;
          is_last = refl;
          all = rw (no_names rest e, append-nil) a;
          time = w.clock k;
          marked = refl;
        })
        (λ step steps before p e a x. absurd (cc))
        (λ step steps before s rest r c q ih p e a x.
          ih p (same_tail step steps s rest e)
            (All-append _ before (s ∷ []) a (is_completed_status s c, tt)) x)
        (λ k step steps before s rest c q p e a x.
          let quiet : is_pause w.pause_at step.name ≡ false = rw p in absurd (cc))
        (λ k step steps before s rest out r c ih p e a x.
          later_IsComplete step.name (seen_at w state k before s rest).outputs (returned out) _
            r.events (ih p (same_tail step steps s rest e) (All-append _ before _ a (refl, tt)) x))
        (λ k step steps before s rest out c q p e a x. absurd (cc))
        (λ k step steps before s rest message c p e a x. absurd (cc))
