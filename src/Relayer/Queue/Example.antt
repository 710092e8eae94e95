-- ===== src/Relayer/Queue/Example.antt =====
-- A day of the queue: two tasks, one of which meets a stale nonce, and instances of the theorems.
use whm.Prelude.{◌≡◌, refl, ◌↔◌, arith}
use whm.Prelude.{true, false, none, some}
use whm.Prelude.{List, [], ◌∷◌, ◌++◌}
use whm.Prelude.Text.{codes, bytes_eq}
use whm.Relayer.Revert.{
  has, some_fragment, includes, starts_with, Thrown, base, revert_name, is_done, is_dead,
  name_or_reason,
}
use whm.Relayer.Queue.{
  resolved, Queue, confirmed, failed, Event, add, settle, balance, start, reload_nonce, on_error,
  on_settle, check_balance, end_check, on_event, step, run, init, is_nonce_low,
}
use whm.Relayer.Queue.Order.{line, accepted, line-run}
use whm.Relayer.Queue.Verdicts.{verdicts}
use whm.Relayer.Queue.Nonces.{ReloadsOk}
use whm.Relayer.Queue.Liveness.{is_working, run-init-is_working}
use whm.Relayer.Queue.Outcomes.{counts_as_finished, on_settle-resolved}

abbrev stale_nonce : Thrown
stale_nonce = base none (codes "execution failed: nonce too low")

abbrev already_done : Thrown
already_done =
    base (some (record { error_name = some (codes "AlreadyRedeemed"); reason = none })) []

-- Two tasks are added; the first is put back once and then mined, the second was done by another.
abbrev day : List Event
day =
    add 7
    ∷ add 8
    ∷ settle (failed stale_nonce (some 5))
    ∷ balance 9_000_000_000 10
    ∷ settle confirmed
    ∷ balance 9_000_000_000 10
    ∷ settle (failed already_done none)
    ∷ []

abbrev evening : Queue
evening = record {
  pending = [];
  in_flight = none;
  nonce = 6;
  checking = 1;
  doomed = 0;
  warned = false;
  exited = false;
  settled = (7, resolved) ∷ (8, resolved) ∷ [];
  mined = 5 ∷ [];
}

run-day : run 3 (init 4) day ≡ evening
unfolding run step on_event start on_settle on_error reload_nonce end_check check_balance
    is_nonce_low revert_name name_or_reason is_done is_dead has some_fragment includes starts_with
    bytes_eq
run-day = refl

line-run_example :
    (line (run 3 (init 4) day) ≡ line (init 4) ++ accepted 3 (init 4) day)
    × ((run 3 (init 4) day).settled ≡ [] ++ verdicts 3 (init 4) day)
line-run_example = line-run 3 (init 4) day

day-ReloadsOk : ReloadsOk 3 (init 4) day
unfolding run step on_event start on_settle on_error reload_nonce end_check check_balance
    is_nonce_low
day-ReloadsOk = ground arith

run-init-is_working_example : is_working (run 3 (init 4) day) ≡ true
run-init-is_working_example = run-init-is_working 3 4 day

on_settle-resolved_example :
    ((on_settle (init 4) 7 (failed already_done none)).settled ≡ (7, resolved) ∷ [])
    ↔ (counts_as_finished already_done ≡ true)
on_settle-resolved_example = on_settle-resolved (init 4) 7 already_done none
