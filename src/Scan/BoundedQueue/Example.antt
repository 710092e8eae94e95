-- ===== src/Scan/BoundedQueue/Example.antt =====
-- A queue of two places: a take that comes first, three pushes, a take, a close.
use whm.Prelude.{ℕ}
use whm.Prelude.{◌≡◌, refl}
use whm.Prelude.{List, [], ◌∷◌}
use whm.Scan.BoundedQueue.{Event, push, take_one, run_push, run_take, empty, run}
use whm.Scan.BoundedQueue.{
  wake_take, wake_push, attempt_push, attempt_take, resume_push, resume_take, step,
}
use whm.Scan.BoundedQueue.Order.{InOrder, run-InOrder}
use whm.Scan.BoundedQueue.Waiting.{IsSettled, RightlyWaiting, run-RightlyWaiting}

abbrev events : List (Event ℕ)
events =
    take_one ∷ push 10 ∷ run_take ∷ push 11 ∷ push 12 ∷ push 13 ∷ take_one ∷ run_push ∷ push 14 ∷ []

run-InOrder_example : InOrder 2 (run 2 events empty)
run-InOrder_example = run-InOrder 2 events

events-IsSettled : IsSettled 2 (run 2 events empty)
unfolding run empty step attempt_push attempt_take resume_push resume_take wake_take wake_push
events-IsSettled = (refl, refl)

run-RightlyWaiting_example : RightlyWaiting 2 (run 2 events empty)
run-RightlyWaiting_example = run-RightlyWaiting 2 events events-IsSettled

taken_so_far : (run 2 events empty).taken ≡ 10 ∷ 11 ∷ []
unfolding run empty step attempt_push attempt_take resume_push resume_take wake_take wake_push
taken_so_far = refl

one_waits : (run 2 events empty).push_waiters ≡ 14 ∷ []
unfolding run empty step attempt_push attempt_take resume_push resume_take wake_take wake_push
one_waits = refl
