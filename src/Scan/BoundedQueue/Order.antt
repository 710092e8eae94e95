-- ===== src/Scan/BoundedQueue/Order.antt =====
-- agents/scan/src/utils/queue.ts: what comes out of the queue, and how much it holds.
use whm.Prelude.{ℕ, zero, suc, ◌≤◌}
use whm.Prelude.{◌≡◌, refl, sym, ap, ◌∙◌, arith}
use whm.Prelude.{not, ◌&&◌}
use whm.Prelude.{List, [], ◌∷◌, ◌++◌, append_assoc}
use whm.Prelude.{leb, if_elim}
use whm.Prelude.{length}
use whm.Prelude.{length-append}
use whm.Scan.BoundedQueue.{Queue, Event, push, take_one, run_push, run_take, close, empty}
use whm.Scan.BoundedQueue.{
  wake_take, wake_push, attempt_push, attempt_take, resume_push, resume_take, close_queue, step,
  run,
}

module _ {A : Type 0} (max_size : ℕ) where
  -- What was taken and what is held are what went in, in this order.
  pub record InOrder (q : Queue A) : Type 0 where
    pub order : q.taken ++ q.buffer ≡ q.entered
    pub bounded : length q.buffer ≤ max_size

  wake_take-InOrder : (n : ℕ) (q : Queue A) → InOrder q → InOrder (wake_take n q)
  unfolding wake_take
  wake_take-InOrder zero q h = h
  wake_take-InOrder (suc n) q h = record { order = h.order; bounded = h.bounded }

  wake_push-InOrder : (xs : List A) (q : Queue A) → InOrder q → InOrder (wake_push xs q)
  unfolding wake_push
  wake_push-InOrder [] q h = h
  wake_push-InOrder (x ∷ xs) q h = record { order = h.order; bounded = h.bounded }

  attempt_push-InOrder : (x : A) (q : Queue A) → InOrder q → InOrder (attempt_push max_size x q)
  unfolding attempt_push
  attempt_push-InOrder x q h =
      if_elim InOrder (leb max_size (length q.buffer) && not q.closed) _ _
        (λ waits. record { order = h.order; bounded = h.bounded })
        (λ goes.
          if_elim InOrder q.closed q _ (λ shut. h)
            (λ not_shut.
              wake_take-InOrder q.take_waiters
                (record q { buffer = q.buffer ++ x ∷ []; entered = q.entered ++ x ∷ [] })
                (record {
                  order =
                      sym (append_assoc q.taken q.buffer (x ∷ []))
                      ∙ ap (λ (l : List A). l ++ x ∷ []) h.order;
                  bounded = ground (arith, length-append q.buffer (x ∷ []));
                })))

  attempt_take-InOrder :
      (xs : List A) (q : Queue A) → q.buffer ≡ xs → InOrder q → InOrder (attempt_take xs q)
  unfolding attempt_take
  attempt_take-InOrder [] q e h =
      if_elim InOrder q.closed q _ (λ shut. h)
        (λ not_shut. record { order = h.order; bounded = h.bounded })
  attempt_take-InOrder (x ∷ xs) q e h =
      wake_push-InOrder q.push_waiters (record q { buffer = xs; taken = q.taken ++ x ∷ [] })
        (record {
          order =
              append_assoc q.taken (x ∷ []) xs
              ∙ (ap (λ (l : List A). q.taken ++ l) (sym e) ∙ h.order);
          bounded = let size = ap (λ (l : List A). length l) e in let b = h.bounded in omega arith;
        })

  resume_push-InOrder :
      (xs : List A) (q : Queue A) → InOrder q → InOrder (resume_push max_size xs q)
  unfolding resume_push
  resume_push-InOrder [] q h = h
  resume_push-InOrder (x ∷ xs) q h =
      attempt_push-InOrder x (record q { woken_pushes = xs })
        (record { order = h.order; bounded = h.bounded })

  resume_take-InOrder : (n : ℕ) (q : Queue A) → InOrder q → InOrder (resume_take n q)
  unfolding resume_take
  resume_take-InOrder zero q h = h
  resume_take-InOrder (suc n) q h =
      attempt_take-InOrder q.buffer (record q { woken_takes = n }) refl
        (record { order = h.order; bounded = h.bounded })

  step-InOrder : (e : Event A) (q : Queue A) → InOrder q → InOrder (step max_size e q)
  unfolding step close_queue
  step-InOrder (push x) q h = attempt_push-InOrder x q h
  step-InOrder take_one q h = attempt_take-InOrder q.buffer q refl h
  step-InOrder run_push q h = resume_push-InOrder q.woken_pushes q h
  step-InOrder run_take q h = resume_take-InOrder q.woken_takes q h
  step-InOrder close q h = record { order = h.order; bounded = h.bounded }

  run_keeps : (es : List (Event A)) (q : Queue A) → InOrder q → InOrder (run max_size es q)
  unfolding run
  run_keeps [] q h = h
  run_keeps (e ∷ es) q h = run_keeps es (step max_size e q) (step-InOrder e q h)

  -- Whatever pushes, takes and rounds of woken callers come, and whenever the queue is closed: a queue that was empty at
  -- the start has given out what went in, in the same order, but for what it still holds, which is no
  -- more than its maximal size.
  pub run-InOrder : (es : List (Event A)) → InOrder (run max_size es empty)
  run-InOrder es =
      run_keeps es empty (unfold empty in record { order = refl; bounded = omega arith })
