-- ===== src/Relayer/Queue.antt =====
-- agents/relayer/src/engine/queue.ts: the serialised, nonce-managed submission queue. The queue is
-- the state between two points at which the process waits; what it waits for comes as an event: a
-- caller's `add`, the end of the submission in flight, and the end of a balance check. A task is
-- its number, and `settled` the tasks that left the queue, oldest first. Node ends the process on a
-- rejection that nothing handles, and nothing handles one of `drain`.
pub mod Order
pub mod Nonces
pub mod Liveness
pub mod Outcomes
pub mod Verdicts
mod Example
use whm.Prelude.{ℕ, zero, suc, ◌+◌, ◌-◌, ◌*◌, ◌/◌, ◌%◌, ◌^◌, ◌≤◌, ◌<◌, min, String}
use whm.Prelude.{◌≡◌, refl, sym, ap, ◌∙◌, ◌≢◌, ◌↔◌, ◌⊎◌, inl, inr, arith}
use whm.Prelude.{Bool, true, false, not, ◌&&◌, ◌||◌, Option, none, some}
use whm.Prelude.{List, [], ◌∷◌, ◌++◌, map, append-nil, append_assoc}
use whm.Prelude.{ltb, leb, ◌==◌, if◌then◌else◌, ltb→lt, lt→ltb, ==_iff, Bool-cases, Option-cases}
use whm.Prelude.{length, get_elem?, take, drop, replicate, All, All-append}
use whm.Prelude.{length-append, take-append-drop, length-take, length-drop, length-replicate}
use whm.Prelude.{take-append, drop-append}
use whm.Prelude.{str_eq, eq_iff, eq_refl}
use whm.Prelude.Text.{codes}
use whm.Relayer.Revert.{Text, Thrown, message_of, revert_name, includes, is_done, is_dead}

-- What became of the promise that `add` gave its caller. `dropped`: the reload of the nonce threw
-- inside the handler, and the promise stays open.
pub data Verdict : Type 0 where
  resolved rejected dropped : Verdict

pub record Queue : Type 0 where
  pub pending : List ℕ
  -- `processing`, and the task that `drain` has taken
  pub in_flight : Option ℕ
  pub nonce : ℕ
  -- balance checks that are awaited, each followed by a call of `drain`
  pub checking : ℕ
  -- those of them after which `drain` rejects, since its handler threw
  pub doomed : ℕ
  pub warned : Bool
  pub exited : Bool
  pub settled : List (ℕ × Verdict)
  -- the nonces under which a submission was mined, oldest first
  pub mined : List ℕ

-- How `task.submit` ends, and how a reload of the nonce would.
pub data Attempt : Type 0 where
  confirmed : Attempt
  failed : Thrown → (reload : Option ℕ) → Attempt

pub data Event : Type 0 where
  add : ℕ → Event
  settle : Attempt → Event
  -- a balance and a gas price, after an orderly `drain` or one that rejects; or a read that threw
  balance : ℕ → ℕ → Event
  last_balance : ℕ → ℕ → Event
  check_failed : Event

abbrev pub min_gas : ℕ
min_gas = 1_000_000

-- `drain` up to its first `await`: take the head unless a task is in flight.
unfoldable pub start : Queue → Queue
start q = elim q.in_flight [
  | some t ↦ q
  | none ↦ elim q.pending [ [] ↦ q | t ∷ ts ↦ record q { pending = ts; in_flight = some t } ]
]

-- The task leaves `drain`, and the balance check of `finally` begins.
abbrev pub leave : Queue → Queue
leave q = record q { in_flight = none; checking = q.checking + 1 }

abbrev pub close : Queue → ℕ → Verdict → Queue
close q t v = leave (record q { settled = q.settled ++ (t, v) ∷ [] })

-- "nonce too low": reload, and put the task back at the head.
unfoldable pub reload_nonce : Queue → ℕ → Option ℕ → Queue
reload_nonce q t none = record q {
  settled = q.settled ++ (t, dropped) ∷ [];
  in_flight = none;
  doomed = q.doomed + 1;
}
reload_nonce q t (some n) = leave (record q { nonce = n; pending = t ∷ q.pending })

unfoldable pub is_nonce_low : Thrown → Bool
is_nonce_low e = includes (message_of e) (codes "nonce too low")

-- The `catch` of `drain`.
unfoldable pub on_error : Queue → ℕ → Thrown → Option ℕ → Queue
unfolding reload_nonce
on_error q t e reload =
    if is_done (revert_name e)
    then close q t resolved
    else if is_dead (revert_name e)
    then close q t resolved
    else if is_nonce_low e
    then reload_nonce q t reload
    else close q t rejected

unfoldable pub on_settle : Queue → ℕ → Attempt → Queue
on_settle q t confirmed =
    close (record q { nonce = q.nonce + 1; mined = q.mined ++ q.nonce ∷ [] }) t resolved
on_settle q t (failed e reload) = on_error q t e reload

-- `checkBalance`: exit below the cost of one submission, warn once below the multiple of it.
unfoldable pub check_balance : ℕ → Queue → ℕ → ℕ → Queue
check_balance warn_multiplier q funds gas_price =
    let min_balance = gas_price * min_gas in
    if ltb funds min_balance
    then record q { exited = true }
    else record q { warned = ltb funds (min_balance * warn_multiplier) }

-- After the check the process has exited, or `drain` is called.
abbrev pub resume : Queue → Queue
resume q = if q.exited then q else start q

-- One of the checks that are awaited ends.
unfoldable pub end_check : ℕ → Queue → ℕ → ℕ → ℕ → Queue
end_check m q zero funds gas_price = q
end_check m q (suc k) funds gas_price =
    resume (check_balance m (record q { checking = k }) funds gas_price)

-- As `end_check`, and then the rejection ends the process.
unfoldable pub end_last_check : ℕ → Queue → ℕ → ℕ → ℕ → Queue
end_last_check m q zero funds gas_price = q
end_last_check m q (suc k) funds gas_price = record (resume (check_balance m q funds gas_price)) {
  doomed = k;
  exited = true;
}

-- A read that throws makes `drain` reject.
unfoldable pub fail_check : Queue → ℕ → Queue
fail_check q zero = q
fail_check q (suc k) = record q { exited = true }

-- `add` pushes and calls `drain`; an event that nothing waits for cannot happen.
unfoldable pub on_event : ℕ → Queue → Event → Queue
on_event m q (add t) = start (record q { pending = q.pending ++ t ∷ [] })
on_event m q (settle a) = elim q.in_flight [ none ↦ q | some t ↦ on_settle q t a ]
on_event m q (balance funds gas_price) = end_check m q q.checking funds gas_price
on_event m q (last_balance funds gas_price) = end_last_check m q q.doomed funds gas_price
on_event m q check_failed = fail_check q (q.checking + q.doomed)

unfoldable pub step : ℕ → Queue → Event → Queue
step m q e = if q.exited then q else on_event m q e

unfoldable pub run : ℕ → Queue → List Event → Queue
run m q [] = q
run m q (e ∷ es) = run m (step m q e) es

-- `init`: the wallet can pay, and the nonce is loaded.
abbrev pub init : ℕ → Queue
init n = record {
  pending = [];
  in_flight = none;
  nonce = n;
  checking = 0;
  doomed = 0;
  warned = false;
  exited = false;
  settled = [];
  mined = [];
}
