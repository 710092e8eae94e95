-- ===== src/Scan/BoundedQueue.antt =====
-- agents/scan/src/utils/queue.ts: `BoundedQueue`, between two points at which a caller waits. Callers that wait, and callers
-- whose promise was resolved and that have not run since, are part of the state; `run_push` and
-- `run_take` let the first of the latter go round its loop.
mod Order
mod Waiting
mod Example
use whm.Prelude.{ℕ, zero, suc, ◌+◌, ◌-◌, ◌*◌, ◌/◌, ◌%◌, ◌^◌, ◌≤◌, ◌<◌, min, String}
use whm.Prelude.{◌≡◌, refl, sym, ap, ◌∙◌, ◌≢◌, ◌↔◌, ◌⊎◌, inl, inr, arith}
use whm.Prelude.{Bool, true, false, not, ◌&&◌, ◌||◌, Option, none, some}
use whm.Prelude.{List, [], ◌∷◌, ◌++◌, map, append-nil, append_assoc}
use whm.Prelude.{ltb, leb, ◌==◌, if◌then◌else◌, ltb→lt, lt→ltb, ==_iff, Bool-cases, Option-cases}
use whm.Prelude.{length, get_elem?, take, drop, replicate, All, All-append}
use whm.Prelude.{length-append, take-append-drop, length-take, length-drop, length-replicate}
use whm.Prelude.{take-append, drop-append}
use whm.Prelude.{str_eq, eq_iff, eq_refl}

pub record Queue (A : Type 0) : Type 0 where
  pub buffer : List A
  -- The items of the pushes that wait.
  pub push_waiters : List A
  pub take_waiters : ℕ
  pub closed : Bool
  pub woken_pushes : List A
  pub woken_takes : ℕ
  -- What went into the buffer and what was taken, since the start.
  pub entered : List A
  pub taken : List A

pub data Event (A : Type 0) : Type 0 where
  push : A → Event A
  take_one : Event A
  run_push : Event A
  run_take : Event A
  close : Event A

module _ {A : Type 0} where
  unfoldable pub empty : Queue A
  empty = record {
    buffer = [];
    push_waiters = [];
    take_waiters = 0;
    closed = false;
    woken_pushes = [];
    woken_takes = 0;
    entered = [];
    taken = [];
  }

  -- `this.takeWaiters.shift()?.()`, over the waiters.
  unfoldable pub wake_take : ℕ → Queue A → Queue A
  wake_take zero q = q
  wake_take (suc n) q = record q { take_waiters = n; woken_takes = q.woken_takes + 1 }

  -- `this.pushWaiters.shift()?.()`
  unfoldable pub wake_push : List A → Queue A → Queue A
  wake_push [] q = q
  wake_push (x ∷ xs) q = record q { push_waiters = xs; woken_pushes = q.woken_pushes ++ x ∷ [] }

  -- From the test of the loop in `push` to the return, or to the next wait.
  unfoldable pub attempt_push : ℕ → A → Queue A → Queue A
  attempt_push max_size x q =
      if leb max_size (length q.buffer) && not q.closed
      then record q { push_waiters = q.push_waiters ++ x ∷ [] }
      else if q.closed
      then q
      else wake_take q.take_waiters
          (record q { buffer = q.buffer ++ x ∷ []; entered = q.entered ++ x ∷ [] })

  -- The same of `take`; the result of `take` is the next of `taken`, or null.
  unfoldable pub attempt_take : List A → Queue A → Queue A
  attempt_take [] q = if q.closed then q else record q { take_waiters = q.take_waiters + 1 }
  attempt_take (x ∷ xs) q =
      wake_push q.push_waiters (record q { buffer = xs; taken = q.taken ++ x ∷ [] })

  unfoldable pub resume_push : ℕ → List A → Queue A → Queue A
  resume_push max_size [] q = q
  resume_push max_size (x ∷ xs) q = attempt_push max_size x (record q { woken_pushes = xs })

  unfoldable pub resume_take : ℕ → Queue A → Queue A
  resume_take zero q = q
  resume_take (suc n) q = attempt_take q.buffer (record q { woken_takes = n })

  unfoldable pub close_queue : Queue A → Queue A
  close_queue q = record q {
    closed = true;
    push_waiters = [];
    take_waiters = 0;
    woken_pushes = q.woken_pushes ++ q.push_waiters;
    woken_takes = q.woken_takes + q.take_waiters;
  }

  unfoldable pub step : ℕ → Event A → Queue A → Queue A
  step max_size (push x) q = attempt_push max_size x q
  step max_size take_one q = attempt_take q.buffer q
  step max_size run_push q = resume_push max_size q.woken_pushes q
  step max_size run_take q = resume_take q.woken_takes q
  step max_size close q = close_queue q

  unfoldable pub run : ℕ → List (Event A) → Queue A → Queue A
  run max_size [] q = q
  run max_size (e ∷ es) q = run max_size es (step max_size e q)
