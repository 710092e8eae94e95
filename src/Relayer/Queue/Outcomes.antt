-- ===== src/Relayer/Queue/Outcomes.antt =====
-- What a promise of the queue says of the work.
use whm.Prelude.{ℕ}
use whm.Prelude.{◌≡◌, refl, ◌↔◌, inl, inr}
use whm.Prelude.{Bool, true, ◌||◌, Option, none, some}
use whm.Prelude.{List, [], ◌∷◌, ◌++◌}
use whm.Prelude.{Bool-cases}
use whm.Relayer.Revert.{Thrown, revert_name, is_done, is_dead}
use whm.Relayer.Queue.{
  Verdict, resolved, rejected, dropped, Queue, failed, reload_nonce, on_error, on_settle,
  is_nonce_low,
}

abbrev pub counts_as_finished : Thrown → Bool
counts_as_finished x = is_done (revert_name x) || is_dead (revert_name x)

same_verdict :
    (l : List (ℕ × Verdict)) (t : ℕ) (v w : Verdict) → l ++ (t, v) ∷ [] ≡ l ++ (t, w) ∷ [] → v ≡ w
same_verdict [] t v w e = cc
same_verdict (x ∷ l) t v w e = same_verdict l t v w (cc)

not_longer : (l : List (ℕ × Verdict)) (x : ℕ × Verdict) → l ≡ l ++ x ∷ [] → ⊥
not_longer [] x e = absurd (cc)
not_longer (y ∷ l) x e = not_longer l x (cc)

reload-resolved :
    (q : Queue) (t : ℕ) (reload : Option ℕ)
    → (reload_nonce q t reload).settled ≡ q.settled ++ (t, resolved) ∷ []
    → ⊥
unfolding reload_nonce
reload-resolved q t none e = absurd (let v = same_verdict q.settled t dropped resolved e in cc)
reload-resolved q t (some n) e = not_longer q.settled (t, resolved) e

-- A submission that throws resolves the promise of its task exactly if the name of the revert says that the
-- work is done or that no retry can do it.
pub on_settle-resolved :
    (q : Queue) (t : ℕ) (x : Thrown) (reload : Option ℕ)
    → ((on_settle q t (failed x reload)).settled ≡ q.settled ++ (t, resolved) ∷ [])
      ↔ (counts_as_finished x ≡ true)
unfolding on_settle on_error
on_settle-resolved q t x reload = elim (Bool-cases (is_done (revert_name x))) [
  | inl done ↦ rw (done) (λ e. refl, λ e. refl)
  | inr undone ↦ elim (Bool-cases (is_dead (revert_name x))) [
    | inl dead ↦ rw (undone, dead) (λ e. refl, λ e. refl)
    | inr alive ↦ elim (Bool-cases (is_nonce_low x)) [
      | inl low ↦
          rw (undone, alive, low) (λ e. absurd (reload-resolved q t reload e), λ e. absurd (cc))
      | inr high ↦
          rw (undone, alive, high)
            (
              λ e. absurd (let v = same_verdict q.settled t rejected resolved e in cc),
              λ e. absurd (cc),
            )
    ]
  ]
]
