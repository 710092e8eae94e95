-- ===== src/Relayer/Queue/Order.antt =====
-- The tasks of the queue: their order.
use whm.Prelude.{ℕ, zero, suc, ◌+◌}
use whm.Prelude.{◌≡◌, refl, sym, ap, ◌∙◌, inl, inr, arith}
use whm.Prelude.{Bool, true, false, Option, none, some}
use whm.Prelude.{List, [], ◌∷◌, ◌++◌, append-nil, append_assoc}
use whm.Prelude.{Option-cases}
use whm.Relayer.Queue.Verdicts.{verdicts, settled-events}
use whm.Relayer.Queue.{
  Verdict, resolved, rejected, dropped, Queue, Attempt, confirmed, failed, Event, add, settle,
  balance, last_balance, check_failed, start, on_error, on_settle, check_balance, end_check,
  end_last_check, fail_check, resume, on_event, step, run,
}

unfoldable pub ids : List (ℕ × Verdict) → List ℕ
ids [] = []
ids ((t, v) ∷ l) = t ∷ ids l

abbrev pub flying : Option ℕ → List ℕ
flying none = []
flying (some t) = t ∷ []

-- The tasks that were accepted, oldest first, as the queue holds them.
abbrev pub line : Queue → List ℕ
line q = ids q.settled ++ (flying q.in_flight ++ q.pending)

abbrev unless_gone : Bool → ℕ → List ℕ → List ℕ
unless_gone true t later = later
unless_gone false t later = t ∷ later

-- The tasks that were added before the process exited.
unfoldable pub accepted : ℕ → Queue → List Event → List ℕ
accepted m q [] = []
accepted m q (add t ∷ es) = unless_gone q.exited t (accepted m (step m q (add t)) es)
accepted m q (settle a ∷ es) = accepted m (step m q (settle a)) es
accepted m q (balance f g ∷ es) = accepted m (step m q (balance f g)) es
accepted m q (last_balance f g ∷ es) = accepted m (step m q (last_balance f g)) es
accepted m q (check_failed ∷ es) = accepted m (step m q check_failed) es

ids-append :
    (l : List (ℕ × Verdict)) (t : ℕ) (v : Verdict) → ids (l ++ (t, v) ∷ []) ≡ ids l ++ t ∷ []
unfolding ids
ids-append [] t v = refl
ids-append ((s, w) ∷ l) t v = ap (λ (r : List ℕ). s ∷ r) (ids-append l t v)

line-start : (q : Queue) → line (start q) ≡ line q
unfolding start
line-start q = ground arith

line-close :
    (q : Queue) (t : ℕ) (v : Verdict)
    → ids (q.settled ++ (t, v) ∷ []) ++ q.pending ≡ ids q.settled ++ (t ∷ q.pending)
line-close q t v = rw (ids-append q.settled t v) (append_assoc (ids q.settled) (t ∷ []) q.pending)

line-on_settle :
    (q : Queue) (t : ℕ) (a : Attempt) → q.in_flight ≡ some t → line (on_settle q t a) ≡ line q
unfolding on_settle on_error
line-on_settle q t confirmed e = rw e (line-close q t resolved)
line-on_settle q t (failed x none) e =
    rw e (ground (arith, line-close q t resolved, line-close q t rejected, line-close q t dropped))
line-on_settle q t (failed x (some n)) e =
    rw e (ground (arith, line-close q t resolved, line-close q t rejected))

line-check_balance : (m : ℕ) (q : Queue) (f g : ℕ) → line (resume (check_balance m q f g)) ≡ line q
unfolding check_balance start
line-check_balance m q f g = ground arith

-- An `add` puts its task at the end of the line, and no other event moves or drops a task.
line-add :
    (m : ℕ) (q : Queue) (t : ℕ) → q.exited ≡ false → line (step m q (add t)) ≡ line q ++ t ∷ []
unfolding step on_event start
line-add m q t e = rw e (
    line-start (record q { pending = q.pending ++ t ∷ [] })
    ∙ sym (
        append_assoc (ids q.settled) (flying q.in_flight ++ q.pending) (t ∷ [])
        ∙ ap (λ (l : List ℕ). ids q.settled ++ l)
            (append_assoc (flying q.in_flight) q.pending (t ∷ []))))

step-exited : (m : ℕ) (q : Queue) (e : Event) → q.exited ≡ true → step m q e ≡ q
unfolding step
step-exited m q e h = rw (step, h)

line-settle : (m : ℕ) (q : Queue) (a : Attempt) → line (step m q (settle a)) ≡ line q
unfolding step on_event
line-settle m q a = elim (Option-cases q.in_flight) [
  | inl idle ↦ ground arith
  | inr (t, busy) ↦ ground (arith, line-on_settle q t a busy)
]

line-end_check : (m : ℕ) (q : Queue) (c f g : ℕ) → line (end_check m q c f g) ≡ line q
unfolding end_check
line-end_check m q zero f g = refl
line-end_check m q (suc k) f g = line-check_balance m (record q { checking = k }) f g

line-balance : (m : ℕ) (q : Queue) (f g : ℕ) → line (step m q (balance f g)) ≡ line q
unfolding step on_event
line-balance m q f g = ground (arith, line-end_check m q q.checking f g)

line-end_last_check : (m : ℕ) (q : Queue) (c f g : ℕ) → line (end_last_check m q c f g) ≡ line q
unfolding end_last_check
line-end_last_check m q zero f g = refl
line-end_last_check m q (suc k) f g = line-check_balance m q f g

line-last_balance : (m : ℕ) (q : Queue) (f g : ℕ) → line (step m q (last_balance f g)) ≡ line q
unfolding step on_event
line-last_balance m q f g = ground (arith, line-end_last_check m q q.doomed f g)

line-fail_check : (q : Queue) (c : ℕ) → line (fail_check q c) ≡ line q
unfolding fail_check
line-fail_check q zero = refl
line-fail_check q (suc k) = refl

line-check_failed : (m : ℕ) (q : Queue) → line (step m q check_failed) ≡ line q
unfolding step on_event
line-check_failed m q = ground (arith, line-fail_check q (q.checking + q.doomed))

line-accepted :
    (m : ℕ) (q : Queue) (t : ℕ) (later : List ℕ) (gone : Bool)
    → q.exited ≡ gone
    → line (step m q (add t)) ++ later ≡ line q ++ unless_gone gone t later
line-accepted m q t later true e = ap (λ (r : Queue). line r ++ later) (step-exited m q (add t) e)
line-accepted m q t later false e =
    ap (λ (l : List ℕ). l ++ later) (line-add m q t e) ∙ append_assoc (line q) (t ∷ []) later

line-events : (m : ℕ) (q : Queue) (es : List Event) → line (run m q es) ≡ line q ++ accepted m q es
unfolding run accepted
line-events m q [] = sym (append-nil (line q))
line-events m q (add t ∷ es) =
    line-events m (step m q (add t)) es
    ∙ line-accepted m q t (accepted m (step m q (add t)) es) q.exited refl
line-events m q (settle a ∷ es) = line-events m (step m q (settle a)) es ∙ rw (line-settle m q a)
line-events m q (balance f g ∷ es) =
    line-events m (step m q (balance f g)) es ∙ rw (line-balance m q f g)
line-events m q (last_balance f g ∷ es) =
    line-events m (step m q (last_balance f g)) es ∙ rw (line-last_balance m q f g)
line-events m q (check_failed ∷ es) =
    line-events m (step m q check_failed) es ∙ rw (line-check_failed m q)

-- From any queue, whatever events come: the tasks that have left the queue, the one in flight and those
-- pending are, in this order, those that were there at first and then the tasks added before the process
-- exited, each once and in the order of the calls. A task leaves the queue only when its submission ends,
-- and then its promise is resolved if the submission was mined or failed for a reason that counts as
-- finished, stays open if it failed with a nonce too low and the reload of the nonce threw, and is
-- rejected if it failed otherwise; with a nonce too low and a reload that passes, it stays in line.
pub line-run :
    (m : ℕ) (q : Queue) (es : List Event)
    → (line (run m q es) ≡ line q ++ accepted m q es)
      × ((run m q es).settled ≡ q.settled ++ verdicts m q es)
line-run m q es = (line-events m q es, settled-events m q es)
