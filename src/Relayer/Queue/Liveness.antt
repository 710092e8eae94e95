-- ===== src/Relayer/Queue/Liveness.antt =====
-- Whether a waiting task is sure to be taken up.
use whm.Prelude.{ℕ, zero, suc, ◌+◌}
use whm.Prelude.{◌≡◌, refl, arith}
use whm.Prelude.{Bool, true, false, not, ◌||◌, Option, none, some}
use whm.Prelude.{List, [], ◌∷◌, ◌++◌}
use whm.Prelude.{ltb, if◌then◌else◌}
use whm.Relayer.Queue.{
  Queue, Attempt, confirmed, Event, add, settle, balance, last_balance, check_failed, start,
  on_error, on_settle, check_balance, end_check, end_last_check, fail_check, resume, on_event, step,
  run, init,
}

unfoldable pub idle : Option ℕ → Bool
idle none = true
idle (some t) = false

unfoldable pub nothing : List ℕ → Bool
nothing [] = true
nothing (t ∷ ts) = false

-- The process has ended, a submission is in flight, no task waits, or a check after which `drain` is
-- called again is awaited.
abbrev pub is_working : Queue → Bool
is_working q =
    q.exited || not (idle q.in_flight) || nothing q.pending || ltb 0 (q.checking + q.doomed)

start-is_working : (q : Queue) → is_working (start q) ≡ true
unfolding start idle nothing
start-is_working q = ground arith

on_settle-is_working : (q : Queue) (t : ℕ) (a : Attempt) → is_working (on_settle q t a) ≡ true
unfolding on_settle on_error
on_settle-is_working q t a = ground arith

unless_exited-is_working :
    (q r : Queue) (gone : Bool)
    → q.exited ≡ gone
    → (gone ≡ false → is_working r ≡ true)
    → is_working (if gone then q else r) ≡ true
unless_exited-is_working q r true e h = ground arith
unless_exited-is_working q r false e h = h refl

resume-is_working : (q : Queue) → is_working (resume q) ≡ true
resume-is_working q = unless_exited-is_working q (start q) q.exited refl (λ e. start-is_working q)

settle_or_skip-is_working :
    (q : Queue) (a : Attempt) (o : Option ℕ)
    → is_working q ≡ true
    → is_working (elim o [ none ↦ q | some t ↦ on_settle q t a ]) ≡ true
settle_or_skip-is_working q a none h = h
settle_or_skip-is_working q a (some t) h = on_settle-is_working q t a

end_check-is_working :
    (m : ℕ) (q : Queue) (c f g : ℕ) → is_working q ≡ true → is_working (end_check m q c f g) ≡ true
unfolding end_check
end_check-is_working m q zero f g h = h
end_check-is_working m q (suc k) f g h =
    resume-is_working (check_balance m (record q { checking = k }) f g)

end_last_check-is_working :
    (m : ℕ) (q : Queue) (c f g : ℕ)
    → is_working q ≡ true
    → is_working (end_last_check m q c f g) ≡ true
unfolding end_last_check
end_last_check-is_working m q zero f g h = h
end_last_check-is_working m q (suc k) f g h = refl

fail_check-is_working :
    (q : Queue) (c : ℕ) → is_working q ≡ true → is_working (fail_check q c) ≡ true
unfolding fail_check
fail_check-is_working q zero h = h
fail_check-is_working q (suc k) h = refl

on_event-is_working :
    (m : ℕ) (q : Queue) (e : Event) → is_working q ≡ true → is_working (on_event m q e) ≡ true
unfolding on_event
on_event-is_working m q (add t) h = start-is_working (record q { pending = q.pending ++ t ∷ [] })
on_event-is_working m q (settle a) h = settle_or_skip-is_working q a q.in_flight h
on_event-is_working m q (balance f g) h = end_check-is_working m q q.checking f g h
on_event-is_working m q (last_balance f g) h = end_last_check-is_working m q q.doomed f g h
on_event-is_working m q check_failed h = fail_check-is_working q (q.checking + q.doomed) h

run-is_working :
    (m : ℕ) (q : Queue) (es : List Event) → is_working q ≡ true → is_working (run m q es) ≡ true
unfolding run step
run-is_working m q [] h = h
run-is_working m q (e ∷ es) h =
    run-is_working m (step m q e) es
      (unless_exited-is_working q (on_event m q e) q.exited refl (λ x. on_event-is_working m q e h))

-- After any events from the start of the process: if it has not ended and a task waits, then a submission
-- is in flight or a check is awaited after which the queue is drained again. So a task never waits
-- on a queue that does nothing, and an end of the one event or the other takes it up.
pub run-init-is_working : (m n : ℕ) (es : List Event) → is_working (run m (init n) es) ≡ true
unfolding idle nothing
run-init-is_working m n es = run-is_working m (init n) es refl

-- The events of a good day: for each of k tasks the submission is mined, and the wallet can pay.
unfoldable pub good_day : ℕ → ℕ → ℕ → List Event
good_day zero f g = []
good_day (suc k) f g = settle confirmed ∷ balance f g ∷ good_day k f g
