-- ===== src/Relayer/Queue/Nonces.antt =====
-- The nonces of the mined submissions.
use whm.Prelude.{ℕ, zero, suc, ◌+◌, ◌≤◌, ◌<◌}
use whm.Prelude.{◌≡◌, arith}
use whm.Prelude.{Bool, true, false, Option, none, some}
use whm.Prelude.{List, [], ◌∷◌, ◌++◌}
use whm.Prelude.{if◌then◌else◌}
use whm.Prelude.{All, All-append}
use whm.Relayer.Queue.{
  Queue, Attempt, confirmed, failed, Event, add, settle, balance, last_balance, check_failed, start,
  on_error, on_settle, check_balance, end_check, end_last_check, fail_check, on_event, step, run,
}

abbrev pub Ascending : List ℕ → Type 0
Ascending [] = Unit {0}
Ascending (x ∷ xs) = All (λ y. x < y) xs × Ascending xs

-- `getTransactionCount` is not behind the transactions that the queue has had mined.
abbrev pub ReloadOk : Queue → Event → Type 0
ReloadOk q (settle (failed x (some n))) = q.nonce ≤ n
ReloadOk q _ = Unit {0}

abbrev pub ReloadsOk : ℕ → Queue → List Event → Type 0
ReloadsOk m q [] = Unit {0}
ReloadsOk m q (e ∷ es) = ReloadOk q e × ReloadsOk m (step m q e) es

pub record NoncesOk (q : Queue) : Type 0 where
  pub ascending : Ascending q.mined
  pub used : All (λ n. n < q.nonce) q.mined

All-below : (a b : ℕ) (xs : List ℕ) → a ≤ b → All (λ n. n < a) xs → All (λ n. n < b) xs
All-below a b [] h p = tt
All-below a b (x ∷ xs) h (p, ps) = (omega arith, All-below a b xs h ps)

Ascending-snoc :
    (xs : List ℕ) (n : ℕ) → Ascending xs → All (λ x. x < n) xs → Ascending (xs ++ n ∷ [])
Ascending-snoc [] n h p = (tt, tt)
Ascending-snoc (x ∷ xs) n (h, hs) (p, ps) =
    (All-append (λ y. x < y) xs (n ∷ []) h (p, tt), Ascending-snoc xs n hs ps)

-- The parts of the queue that the invariant reads.
same_nonces : (q r : Queue) → NoncesOk q → r.mined ≡ q.mined → q.nonce ≤ r.nonce → NoncesOk r
same_nonces q r h e l = record {
  ascending = rw e h.ascending;
  used = rw e (All-below q.nonce r.nonce q.mined l h.used);
}

on_settle-NoncesOk :
    (q : Queue) (t : ℕ) (a : Attempt)
    → ReloadOk q (settle a)
    → NoncesOk q
    → NoncesOk (on_settle q t a)
on_settle-NoncesOk q t confirmed ok h =
    unfold on_settle in
    record {
      ascending = Ascending-snoc q.mined q.nonce h.ascending h.used;
      used =
          All-append _ q.mined (q.nonce ∷ [])
            (All-below q.nonce (q.nonce + 1) q.mined (omega arith) h.used) (omega arith, tt);
    }
on_settle-NoncesOk q t (failed x none) ok h =
    same_nonces q _ h (unfold on_settle on_error in ground arith)
      (unfold on_settle on_error in ground arith)
on_settle-NoncesOk q t (failed x (some n)) ok h =
    same_nonces q _ h (unfold on_settle on_error in ground arith)
      (unfold on_settle on_error in ground arith)

end_check-keeps :
    (m : ℕ) (q : Queue) (c f g : ℕ)
    → ((end_check m q c f g).mined ≡ q.mined) × (q.nonce ≤ (end_check m q c f g).nonce)
unfolding end_check check_balance start
end_check-keeps m q zero f g = ground arith
end_check-keeps m q (suc k) f g = ground arith

end_last_check-keeps :
    (m : ℕ) (q : Queue) (c f g : ℕ)
    → ((end_last_check m q c f g).mined ≡ q.mined) × (q.nonce ≤ (end_last_check m q c f g).nonce)
unfolding end_last_check check_balance start
end_last_check-keeps m q zero f g = ground arith
end_last_check-keeps m q (suc k) f g = ground arith

fail_check-keeps :
    (q : Queue) (c : ℕ) → ((fail_check q c).mined ≡ q.mined) × (q.nonce ≤ (fail_check q c).nonce)
unfolding fail_check
fail_check-keeps q zero = ground arith
fail_check-keeps q (suc k) = ground arith

settle_or_skip-NoncesOk :
    (q : Queue) (a : Attempt) (o : Option ℕ)
    → ReloadOk q (settle a)
    → NoncesOk q
    → NoncesOk (elim o [ none ↦ q | some t ↦ on_settle q t a ])
settle_or_skip-NoncesOk q a none ok h = h
settle_or_skip-NoncesOk q a (some t) ok h = on_settle-NoncesOk q t a ok h

on_event-NoncesOk :
    (m : ℕ) (q : Queue) (e : Event) → ReloadOk q e → NoncesOk q → NoncesOk (on_event m q e)
unfolding on_event
on_event-NoncesOk m q (add t) ok h =
    same_nonces q _ h (unfold start in ground arith) (unfold start in ground arith)
on_event-NoncesOk m q (settle a) ok h = settle_or_skip-NoncesOk q a q.in_flight ok h
on_event-NoncesOk m q (balance f g) ok h =
    let (same, more) = end_check-keeps m q q.checking f g in same_nonces q _ h same more
on_event-NoncesOk m q (last_balance f g) ok h =
    let (same, more) = end_last_check-keeps m q q.doomed f g in same_nonces q _ h same more
on_event-NoncesOk m q check_failed ok h =
    let (same, more) = fail_check-keeps q (q.checking + q.doomed) in same_nonces q _ h same more

unless_exited-NoncesOk :
    (q r : Queue) (gone : Bool) → NoncesOk q → NoncesOk r → NoncesOk (if gone then q else r)
unless_exited-NoncesOk q r true h k = h
unless_exited-NoncesOk q r false h k = k

-- If each reload of the nonce gives at least the nonce the queue has by then, then from a queue whose
-- mined nonces ascend and lie below its nonce, any events lead to a queue of which the same is true: the
-- mined submissions have strictly ascending nonces, and the next one has a nonce that was not used.
pub run-NoncesOk :
    (m : ℕ) (q : Queue) (es : List Event) → ReloadsOk m q es → NoncesOk q → NoncesOk (run m q es)
unfolding run step
run-NoncesOk m q [] ok h = h
run-NoncesOk m q (e ∷ es) (ok, oks) h =
    run-NoncesOk m (step m q e) es oks
      (unless_exited-NoncesOk q (on_event m q e) q.exited h (on_event-NoncesOk m q e ok h))
