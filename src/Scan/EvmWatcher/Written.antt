-- ===== src/Scan/EvmWatcher/Written.antt =====
-- agents/scan/src/chains/evm/watcher.ts: what a write leaves in the store, in every outcome.
use whm.Prelude.{◌≡◌, refl, sym, ◌∙◌, inl, inr}
use whm.Prelude.{Bool, true, false}
use whm.Prelude.{List, [], ◌∷◌, map}
use whm.Prelude.{Bool-cases}
use whm.Prelude.{In}
use whm.Scan.Route.{Text, EventRow}
use whm.Scan.Store.{RawEvent, is_same, is_stored, Store, insert_event}
use whm.Scan.Store.Stored.{is_stored-insert_event, is_stored-insert_event_self}
use whm.Scan.EvmWatcher.Lookups.{Times}
use whm.Scan.EvmWatcher.Sweep.{
  RawLog, Watch, Node, Config, State, raw_event, insert_until, insert_logs, put_store,
}
use whm.Scan.EvmWatcher.Sweep.{write}

-- A row is kept under the log's transaction and index.
unfoldable pub is_logged : List EventRow → RawLog → Bool
is_logged rows l = is_stored rows (raw_event [] [] l)

-- Which timestamp and which sender the row was given does not matter.
is_stored-raw_event :
    (rows : List EventRow) (times : Times) (from : List (Text × Text)) (l : RawLog)
    → is_stored rows (raw_event times from l) ≡ is_logged rows l
unfolding is_logged is_stored is_same raw_event
is_stored-raw_event [] times from l = refl
is_stored-raw_event (row ∷ rows) times from l = rw (is_stored-raw_event rows times from l) refl

module _ (accepts : RawEvent → Bool) (chain : Text) where
  is_stored-insert_until :
      (x : RawEvent) (es : List RawEvent) (store : Store)
      → is_stored store.0 x ≡ true
      → is_stored (insert_until accepts chain es store).0.0 x ≡ true
  unfolding insert_until
  is_stored-insert_until x [] store h = h
  is_stored-insert_until x (e ∷ es) store h = elim (Bool-cases (accepts e)) [
    | inl fine ↦ rw fine (
        is_stored-insert_until x es (insert_event chain e store)
          (is_stored-insert_event chain x e store h))
    | inr refusal ↦ rw refusal h
  ]

  insert_until-In :
      (times : Times) (from : List (Text × Text)) (l : RawLog) (logs : List RawLog) (store : Store)
      → In l logs
      → (insert_until accepts chain (map (raw_event times from) logs) store).1 ≡ true
      → is_stored
          (insert_until accepts chain (map (raw_event times from) logs) store).0.0
          (raw_event times from l)
        ≡ true
  unfolding insert_until
  insert_until-In times from l [] store i h = absurd i
  insert_until-In times from l (k ∷ logs) store i h =
      let e = raw_event times from k in
      let later = map (raw_event times from) logs in
      elim (Bool-cases (accepts e)) [
        | inl fine ↦ elim i [
          | inl same ↦
              rw (fine, same)
                (is_stored-insert_until e later (insert_event chain e store)
                  (is_stored-insert_event_self chain e store))
          | inr behind ↦
              rw fine (
                insert_until-In times from l logs (insert_event chain e store) behind
                  (rw fine at h))
        ]
        | inr refusal ↦ let bad = (rw refusal at h) in cc
      ]

module _ (cfg : Config) (node : Node) (accepts : RawEvent → Bool) where
  -- Nothing that was logged is lost, and of what is written all is logged, unless the write throws.
  pub record Kept (logs : List RawLog) (before : State) (after : State × Bool) : Type 0 where
    pub grown :
        (l : RawLog) → is_logged before.store.0 l ≡ true → is_logged after.0.store.0 l ≡ true
    pub same_cursors : after.0.cursors ≡ before.cursors
    pub all_in : after.1 ≡ true → (l : RawLog) → In l logs → is_logged after.0.store.0 l ≡ true

  insert_logs-Kept :
      (logs : List RawLog) (st : State) (t : Times × Bool) (s : List (Text × Text) × Bool)
      → Kept logs st (insert_logs cfg node accepts logs st t s)
  unfolding insert_logs put_store is_logged
  insert_logs-Kept logs st (times, false) (from, told) = record {
    grown = λ l h. h;
    same_cursors = refl;
    all_in = λ f. cc;
  }
  insert_logs-Kept logs st (times, true) (from, false) = record {
    grown = λ l h. h;
    same_cursors = refl;
    all_in = λ f. cc;
  }
  insert_logs-Kept logs st (times, true) (from, true) =
      let es = map (raw_event times from) logs in
      record {
        grown = λ l h. is_stored-insert_until accepts cfg.name (raw_event [] [] l) es st.store h;
        same_cursors = refl;
        all_in = λ done l i.
            sym (is_stored-raw_event _ times from l)
            ∙ insert_until-In accepts cfg.name times from l logs st.store i done;
      }

  pub write-Kept :
      (w : Watch) (logs : List RawLog) (st : State)
      → Kept logs st (write cfg node accepts w logs st)
  unfolding write
  write-Kept w [] st = record { grown = λ l h. h; same_cursors = refl; all_in = λ f l i. absurd i }
  write-Kept w (l ∷ logs) st = insert_logs-Kept (l ∷ logs) st _ _
