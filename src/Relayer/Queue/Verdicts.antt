-- ===== src/Relayer/Queue/Verdicts.antt =====
-- What becomes of the promises that `add` gave, as the submissions end.
use whm.Prelude.{ℕ, zero, suc, ◌+◌}
use whm.Prelude.{◌≡◌, refl, sym, ap, ◌∙◌, inl, inr, arith}
use whm.Prelude.{if◌then◌else◌}
use whm.Prelude.{Option, none, some}
use whm.Prelude.{List, [], ◌∷◌, ◌++◌, append-nil, append_assoc}
use whm.Prelude.{Option-cases}
use whm.Relayer.Queue.Outcomes.{counts_as_finished}
use whm.Relayer.Queue.{
  Verdict, resolved, rejected, dropped, Queue, Attempt, confirmed, failed, Event, add, settle,
  balance, last_balance, check_failed, start, on_error, on_settle, check_balance, end_check,
  end_last_check, fail_check, resume, reload_nonce, is_nonce_low, on_event, step, run,
}

-- What an attempt makes of the promise of its task, if the task leaves the queue by it.
unfoldable pub fate : Attempt → Option Verdict
fate confirmed = some resolved
fate (failed e (some n)) =
    if counts_as_finished e then some resolved else if is_nonce_low e then none else some rejected
fate (failed e none) =
    if counts_as_finished e
    then some resolved
    else if is_nonce_low e
    then some dropped
    else some rejected

abbrev pub verdict_of : Option ℕ → Option Verdict → List (ℕ × Verdict)
verdict_of none v = []
verdict_of (some t) none = []
verdict_of (some t) (some v) = (t, v) ∷ []

-- The fates of the tasks in flight, each as its submission ends.
unfoldable pub verdicts : ℕ → Queue → List Event → List (ℕ × Verdict)
verdicts m q [] = []
verdicts m q (settle a ∷ es) =
    (if q.exited then [] else verdict_of q.in_flight (fate a))
    ++ verdicts m (step m q (settle a)) es
verdicts m q (add t ∷ es) = verdicts m (step m q (add t)) es
verdicts m q (balance f g ∷ es) = verdicts m (step m q (balance f g)) es
verdicts m q (last_balance f g ∷ es) = verdicts m (step m q (last_balance f g)) es
verdicts m q (check_failed ∷ es) = verdicts m (step m q check_failed) es

settled-on_settle :
    (q : Queue) (t : ℕ) (a : Attempt)
    → (on_settle q t a).settled ≡ q.settled ++ verdict_of (some t) (fate a)
unfolding on_settle on_error reload_nonce fate
settled-on_settle q t confirmed = refl
settled-on_settle q t (failed e none) = ground arith
settled-on_settle q t (failed e (some n)) = ground (arith, append-nil q.settled)

settled-start : (q : Queue) → (start q).settled ≡ q.settled
unfolding start
settled-start q = ground arith

settled-settle :
    (m : ℕ) (q : Queue) (a : Attempt)
    → (step m q (settle a)).settled
      ≡ q.settled ++ (if q.exited then [] else verdict_of q.in_flight (fate a))
unfolding step on_event
settled-settle m q a = elim (Option-cases q.in_flight) [
  | inl idle ↦ ground (arith, append-nil q.settled)
  | inr (t, busy) ↦ ground (arith, append-nil q.settled, settled-on_settle q t a)
]

settled-check_balance :
    (m : ℕ) (q : Queue) (f g : ℕ) → (resume (check_balance m q f g)).settled ≡ q.settled
unfolding check_balance start
settled-check_balance m q f g = ground arith

settled-end_check : (m : ℕ) (q : Queue) (c f g : ℕ) → (end_check m q c f g).settled ≡ q.settled
unfolding end_check
settled-end_check m q zero f g = refl
settled-end_check m q (suc k) f g = settled-check_balance m (record q { checking = k }) f g

settled-end_last_check :
    (m : ℕ) (q : Queue) (c f g : ℕ) → (end_last_check m q c f g).settled ≡ q.settled
unfolding end_last_check
settled-end_last_check m q zero f g = refl
settled-end_last_check m q (suc k) f g = settled-check_balance m q f g

settled-fail_check : (q : Queue) (c : ℕ) → (fail_check q c).settled ≡ q.settled
unfolding fail_check
settled-fail_check q zero = refl
settled-fail_check q (suc k) = refl

settled-add : (m : ℕ) (q : Queue) (t : ℕ) → (step m q (add t)).settled ≡ q.settled
unfolding step on_event start
settled-add m q t = ground arith

settled-balance : (m : ℕ) (q : Queue) (f g : ℕ) → (step m q (balance f g)).settled ≡ q.settled
unfolding step on_event
settled-balance m q f g = ground (arith, settled-end_check m q q.checking f g)

settled-last_balance :
    (m : ℕ) (q : Queue) (f g : ℕ) → (step m q (last_balance f g)).settled ≡ q.settled
unfolding step on_event
settled-last_balance m q f g = ground (arith, settled-end_last_check m q q.doomed f g)

settled-check_failed : (m : ℕ) (q : Queue) → (step m q check_failed).settled ≡ q.settled
unfolding step on_event
settled-check_failed m q = ground (arith, settled-fail_check q (q.checking + q.doomed))

pub settled-events :
    (m : ℕ) (q : Queue) (es : List Event) → (run m q es).settled ≡ q.settled ++ verdicts m q es
unfolding run verdicts
settled-events m q [] = sym (append-nil q.settled)
settled-events m q (add t ∷ es) = settled-events m (step m q (add t)) es ∙ rw (settled-add m q t)
settled-events m q (settle a ∷ es) =
    let now = if q.exited then [] else verdict_of q.in_flight (fate a) in
    let later = verdicts m (step m q (settle a)) es in
    settled-events m (step m q (settle a)) es
    ∙ ap (λ (l : List (ℕ × Verdict)). l ++ later) (settled-settle m q a)
    ∙ append_assoc q.settled now later
settled-events m q (balance f g ∷ es) =
    settled-events m (step m q (balance f g)) es ∙ rw (settled-balance m q f g)
settled-events m q (last_balance f g ∷ es) =
    settled-events m (step m q (last_balance f g)) es ∙ rw (settled-last_balance m q f g)
settled-events m q (check_failed ∷ es) =
    settled-events m (step m q check_failed) es ∙ rw (settled-check_failed m q)
