-- ===== src/Scan/BoundedQueue/Waiting.antt =====
-- agents/scan/src/utils/queue.ts: who may be left waiting.
use whm.Prelude.{ℕ, zero, suc, ◌+◌, ◌≤◌, ◌<◌}
use whm.Prelude.{◌≡◌, refl, ap, arith}
use whm.Prelude.{Bool, true, false, not, ◌&&◌}
use whm.Prelude.{List, [], ◌∷◌, ◌++◌}
use whm.Prelude.{leb, if_elim}
use whm.Prelude.{length}
use whm.Prelude.{length-append}
use whm.Scan.BoundedQueue.{Queue, Event, push, take_one, run_push, run_take, close, empty}
use whm.Scan.BoundedQueue.{
  wake_take, wake_push, attempt_push, attempt_take, resume_push, resume_take, close_queue, step,
  run,
}

still_open : (closed : Bool) (n : ℕ) → (closed ≡ true → n ≡ 0) → 0 < n → closed ≡ false
still_open true n none_left some_waiter = absurd (omega (arith, none_left refl))
still_open false n none_left some_waiter = refl

module _ {A : Type 0} (max_size : ℕ) where
  -- For each item that a waiting take could have, and each place that a waiting push could have, there is a woken caller
  -- that has not run yet. `items` and `places` are what is not accounted for.
  record NoneLost (items places : ℕ) (q : Queue A) : Type 0 where
    pub takes : 0 < q.take_waiters → length q.buffer ≤ q.woken_takes + items
    pub pushes :
        0 < length q.push_waiters → max_size ≤ length q.buffer + length q.woken_pushes + places
    pub shut_takes : q.closed ≡ true → q.take_waiters ≡ 0
    pub shut_pushes : q.closed ≡ true → length q.push_waiters ≡ 0

  wake_take-NoneLost :
      (n : ℕ) (q : Queue A) → q.take_waiters ≡ n → NoneLost 1 0 q → NoneLost 0 0 (wake_take n q)
  unfolding wake_take
  wake_take-NoneLost zero q e h = record {
    takes = λ some_waiter. absurd (omega arith);
    pushes = h.pushes;
    shut_takes = h.shut_takes;
    shut_pushes = h.shut_pushes;
  }
  wake_take-NoneLost (suc n) q e h = record {
    takes = λ some_waiter. omega (arith, h.takes (omega arith));
    pushes = h.pushes;
    shut_takes = λ shut. absurd (omega (arith, h.shut_takes shut));
    shut_pushes = h.shut_pushes;
  }

  wake_push-NoneLost :
      (xs : List A) (q : Queue A)
      → q.push_waiters ≡ xs
      → NoneLost 0 1 q
      → NoneLost 0 0 (wake_push xs q)
  unfolding wake_push
  wake_push-NoneLost [] q e h = record {
    takes = h.takes;
    pushes = λ some_waiter. let none_left = ap (λ (l : List A). length l) e in absurd (omega arith);
    shut_takes = h.shut_takes;
    shut_pushes = h.shut_pushes;
  }
  wake_push-NoneLost (x ∷ xs) q e h =
      let waiting = ap (λ (l : List A). length l) e in
      record {
        takes = h.takes;
        pushes = λ some_waiter.
            omega (arith, h.pushes (omega arith), length-append q.woken_pushes (x ∷ []));
        shut_takes = h.shut_takes;
        shut_pushes = λ shut. absurd (omega (arith, h.shut_pushes shut));
      }

  attempt_push-NoneLost :
      (x : A) (q : Queue A) → NoneLost 0 1 q → NoneLost 0 0 (attempt_push max_size x q)
  unfolding attempt_push
  attempt_push-NoneLost x q h =
      if_elim (NoneLost 0 0) (leb max_size (length q.buffer) && not q.closed) _ _
        (λ waits. record {
          takes = h.takes;
          pushes = λ some_waiter. ground arith;
          shut_takes = h.shut_takes;
          shut_pushes = λ shut. ground arith;
        })
        (λ goes.
          if_elim (NoneLost 0 0) q.closed q _
            (λ shut. record {
              takes = h.takes;
              pushes = λ some_waiter. absurd (omega (arith, h.shut_pushes shut));
              shut_takes = h.shut_takes;
              shut_pushes = h.shut_pushes;
            })
            (λ not_shut.
              wake_take-NoneLost q.take_waiters
                (record q { buffer = q.buffer ++ x ∷ []; entered = q.entered ++ x ∷ [] }) refl
                (record {
                  takes = λ some_waiter.
                      omega (arith, h.takes some_waiter, length-append q.buffer (x ∷ []));
                  pushes = λ some_waiter.
                      omega (arith, h.pushes some_waiter, length-append q.buffer (x ∷ []));
                  shut_takes = h.shut_takes;
                  shut_pushes = h.shut_pushes;
                })))

  attempt_take-NoneLost :
      (xs : List A) (q : Queue A)
      → q.buffer ≡ xs
      → NoneLost 1 0 q
      → NoneLost 0 0 (attempt_take xs q)
  unfolding attempt_take
  attempt_take-NoneLost [] q e h =
      let size = ap (λ (l : List A). length l) e in
      if_elim (NoneLost 0 0) q.closed q _
        (λ shut. record {
          takes = λ some_waiter. omega arith;
          pushes = h.pushes;
          shut_takes = h.shut_takes;
          shut_pushes = h.shut_pushes;
        })
        (λ not_shut. record {
          takes = λ some_waiter. omega arith;
          pushes = h.pushes;
          shut_takes = λ shut. cc;
          shut_pushes = h.shut_pushes;
        })
  attempt_take-NoneLost (x ∷ xs) q e h =
      let size = ap (λ (l : List A). length l) e in
      wake_push-NoneLost q.push_waiters (record q { buffer = xs; taken = q.taken ++ x ∷ [] }) refl
        (record {
          takes = λ some_waiter. omega (arith, h.takes some_waiter);
          pushes = λ some_waiter. omega (arith, h.pushes some_waiter);
          shut_takes = h.shut_takes;
          shut_pushes = h.shut_pushes;
        })

  resume_push-NoneLost :
      (xs : List A) (q : Queue A)
      → q.woken_pushes ≡ xs
      → NoneLost 0 0 q
      → NoneLost 0 0 (resume_push max_size xs q)
  unfolding resume_push
  resume_push-NoneLost [] q e h = h
  resume_push-NoneLost (x ∷ xs) q e h =
      let woken = ap (λ (l : List A). length l) e in
      attempt_push-NoneLost x (record q { woken_pushes = xs })
        (record {
          takes = h.takes;
          pushes = λ some_waiter. omega (arith, h.pushes some_waiter);
          shut_takes = h.shut_takes;
          shut_pushes = h.shut_pushes;
        })

  resume_take-NoneLost :
      (n : ℕ) (q : Queue A) → q.woken_takes ≡ n → NoneLost 0 0 q → NoneLost 0 0 (resume_take n q)
  unfolding resume_take
  resume_take-NoneLost zero q e h = h
  resume_take-NoneLost (suc n) q e h =
      attempt_take-NoneLost q.buffer (record q { woken_takes = n }) refl
        (record {
          takes = λ some_waiter. omega (arith, h.takes some_waiter);
          pushes = h.pushes;
          shut_takes = h.shut_takes;
          shut_pushes = h.shut_pushes;
        })

  weaken : (items places : ℕ) (q : Queue A) → NoneLost 0 0 q → NoneLost items places q
  weaken items places q h = record {
    takes = λ some_waiter. omega (arith, h.takes some_waiter);
    pushes = λ some_waiter. omega (arith, h.pushes some_waiter);
    shut_takes = h.shut_takes;
    shut_pushes = h.shut_pushes;
  }

  step-NoneLost : (e : Event A) (q : Queue A) → NoneLost 0 0 q → NoneLost 0 0 (step max_size e q)
  unfolding step close_queue
  step-NoneLost (push x) q h = attempt_push-NoneLost x q (weaken 0 1 q h)
  step-NoneLost take_one q h = attempt_take-NoneLost q.buffer q refl (weaken 1 0 q h)
  step-NoneLost run_push q h = resume_push-NoneLost q.woken_pushes q refl h
  step-NoneLost run_take q h = resume_take-NoneLost q.woken_takes q refl h
  step-NoneLost close q h = record {
    takes = λ some_waiter. absurd (omega arith);
    pushes = λ some_waiter. absurd (omega arith);
    shut_takes = λ shut. refl;
    shut_pushes = λ shut. refl;
  }

  run-NoneLost :
      (es : List (Event A)) (q : Queue A) → NoneLost 0 0 q → NoneLost 0 0 (run max_size es q)
  unfolding run
  run-NoneLost [] q h = h
  run-NoneLost (e ∷ es) q h = run-NoneLost es (step max_size e q) (step-NoneLost e q h)

  -- Once every woken caller has gone on.
  abbrev pub IsSettled : Queue A → Type 0
  IsSettled q = (q.woken_takes ≡ 0) × (length q.woken_pushes ≡ 0)

  -- Who waits has nothing to go on with.
  pub record RightlyWaiting (q : Queue A) : Type 0 where
    pub takes : 0 < q.take_waiters → (length q.buffer ≡ 0) × (q.closed ≡ false)
    pub pushes : 0 < length q.push_waiters → (max_size ≤ length q.buffer) × (q.closed ≡ false)

  -- Whatever happened to a queue that was empty at the start, once every woken caller has gone on, a take waits only while
  -- the buffer is empty and a push only while it is full, and nobody waits on a queue that is closed.
  pub run-RightlyWaiting :
      (es : List (Event A))
      → IsSettled (run max_size es empty)
      → RightlyWaiting (run max_size es empty)
  run-RightlyWaiting es (no_takes, no_pushes) =
      let start : NoneLost 0 0 empty =
        unfold empty in
        record {
          takes = λ some_waiter. absurd (omega arith);
          pushes = λ some_waiter. absurd (omega arith);
          shut_takes = λ shut. refl;
          shut_pushes = λ shut. refl;
        } in
      let h = run-NoneLost es empty start in
      record {
        takes = λ some_waiter.
            (omega (arith, h.takes some_waiter), still_open _ _ h.shut_takes some_waiter);
        pushes = λ some_waiter.
            (omega (arith, h.pushes some_waiter), still_open _ _ h.shut_pushes some_waiter);
      }
