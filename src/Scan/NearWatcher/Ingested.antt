-- ===== src/Scan/NearWatcher/Ingested.antt =====
-- agents/scan/src/chains/near/watcher.ts: which events are inserted once a cursor is past their transaction.
use whm.Prelude.{ℕ, ◌+◌, ◌≤◌, ◌<◌}
use whm.Prelude.{◌≡◌, sym, ap, ◌∙◌, ◌⊎◌, inl, inr, arith}
use whm.Prelude.{Bool, true, false, not, ◌||◌, Option, some}
use whm.Prelude.{List, [], ◌∷◌}
use whm.Prelude.{Bool-cases, if_elim}
use whm.Prelude.{All, In}
use mathlib.Core.Path.{subst}
use whm.Prelude.Text.{bytes_eq, codes}
use whm.Scan.NearWatcher.{
  Text, Row, Found, Tx, finished, NearLog, Watch, RawEvent, has, any_of, or_at, or_empty,
  hold_blocks, is_kept_by, event_of, extract_from, extract, is_held,
}
use whm.Scan.NearWatcher.Gathered.{FoundBy}
use whm.Scan.NearWatcher.Caught.{Taken}

pub All-at : {A : Type 0} (P : A → Type 0) (x : A) (xs : List A) → All P xs → In x xs → P x
All-at P x [] all here = elim here [ ]
All-at P x (y ∷ xs) all (inl same) = subst P (sym same) all.0
All-at P x (y ∷ xs) all (inr later) = All-at P x xs all.1 later

any_of-In :
    {A : Type 0} (test : A → Bool) (x : A) (xs : List A)
    → In x xs
    → test x ≡ true
    → any_of test xs ≡ true
unfolding any_of
any_of-In test x [] here h = elim here [ ]
any_of-In test x (y ∷ xs) (inl same) h =
    let yes : test y ≡ true = ap test (sym same) ∙ h in ground arith
any_of-In test x (y ∷ xs) (inr later) h = ground (arith, any_of-In test x xs later h)

-- The log is of a contract that the watch keeps; a call only if its method is named.
abbrev pub Keeps : Watch → NearLog → Type 0
Keeps w l =
    (has l.executor w.at ≡ true)
    × ((not (bytes_eq l.standard (codes "call")) || has l.event (or_empty w.calls)) ≡ true)

module _ (near_logs : Tx → List NearLog) (near_topic : NearLog → Text) (watches : List Watch)
    (cursors : Text → ℕ) where
  is_kept_by-Keeps :
      (f : Found) (l : NearLog) (w : Watch) (a : Text)
      → Keeps w l
      → cursors w.id < f.height
      → In a (or_at w.via w.at)
      → has a f.via ≡ true
      → is_kept_by near_logs near_topic watches cursors f l w ≡ true
  unfolding is_kept_by
  is_kept_by-Keeps f l w a keeps past listed via =
      let some_account = any_of-In (λ b. has b f.via) a (or_at w.via w.at) listed via in
      let of_watch = keeps.0 in let of_call = keeps.1 in ground arith

  extract_from-In :
      (tx : Tx) (f : Found) (l : NearLog) (ls : List NearLog)
      → In l ls
      → any_of (is_kept_by near_logs near_topic watches cursors f l) watches ≡ true
      → In
          (event_of near_logs near_topic watches cursors tx l)
          (extract_from near_logs near_topic watches cursors tx f ls)
  unfolding extract_from
  extract_from-In tx f l [] here h = elim here [ ]
  extract_from-In tx f l (k ∷ ls) here h =
      if_elim (In (event_of near_logs near_topic watches cursors tx l))
        (any_of (is_kept_by near_logs near_topic watches cursors f k) watches)
        (event_of near_logs near_topic watches cursors tx k
          ∷ extract_from near_logs near_topic watches cursors tx f ls)
        (extract_from near_logs near_topic watches cursors tx f ls)
        (λ kept. elim here [
          | inl same ↦ inl (ap (event_of near_logs near_topic watches cursors tx) same)
          | inr later ↦ inr (extract_from-In tx f l ls later h)
        ])
        (λ dropped. elim here [
          | inl same ↦
              let yes =
                ap (λ j. any_of (is_kept_by near_logs near_topic watches cursors f j) watches)
                  same in
              absurd (cc)
          | inr later ↦ extract_from-In tx f l ls later h
        ])

  -- The transaction of a row is read, is whole or is taken as it stands, and all that the watch keeps of its
  -- logs is inserted.
  pub record Ingested (transaction : Text → Option Tx) (w : Watch) (r : Row)
      (inserted : List RawEvent) (tip : ℕ) : Type 0 where
    pub tx : Tx
    pub read : transaction r.hash ≡ some tx
    pub whole : (finished tx ≡ true) ⊎ (r.height + hold_blocks ≤ tip)
    pub kept :
        (l : NearLog)
        → In l (near_logs tx)
        → Keeps w l
        → In (event_of near_logs near_topic watches cursors tx l) inserted

  not_held :
      (tip : ℕ) (f : Found) (tx : Tx)
      → is_held near_logs near_topic watches cursors tip f tx ≡ false
      → (finished tx ≡ true) ⊎ (f.height + hold_blocks ≤ tip)
  unfolding is_held
  not_held tip f tx h = elim (Bool-cases (finished tx)) [
    | inl whole ↦ inl whole
    | inr part ↦ inr (ground arith)
  ]

  Taken-Ingested :
      (transaction : Text → Option Tx) (tip : ℕ) (inserted : List RawEvent) (f : Found) (r : Row)
      (w : Watch) (a : Text)
      → Taken near_logs near_topic watches cursors transaction tip inserted f
      → f.hash ≡ r.hash
      → f.height ≡ r.height
      → has a f.via ≡ true
      → In w watches
      → In a (or_at w.via w.at)
      → cursors w.id < r.height
      → Ingested transaction w r inserted tip
  unfolding extract
  Taken-Ingested transaction tip inserted f r w a taken same level via watched listed past =
      record {
        tx = taken.tx;
        read = ap transaction (sym same) ∙ taken.read;
        whole =
            subst (λ n. (finished taken.tx ≡ true) ⊎ (n + hold_blocks ≤ tip)) level
              (not_held tip f taken.tx taken.whole);
        kept = λ l there keeps.
            All-at (λ e. In e inserted) (event_of near_logs near_topic watches cursors taken.tx l)
              (extract near_logs near_topic watches cursors taken.tx f) taken.kept
              (extract_from-In taken.tx f l (near_logs taken.tx) there (
                any_of-In (is_kept_by near_logs near_topic watches cursors f l) w watches watched
                  (is_kept_by-Keeps f l w a keeps (omega (arith, level, past)) listed via)));
      }

  pub found-Ingested :
      (transaction : Text → Option Tx) (tip to : ℕ) (inserted : List RawEvent) (fs : List Found)
      (r : Row) (w : Watch) (a : Text)
      → All
          (λ (f : Found).
            f.height ≤ to → Taken near_logs near_topic watches cursors transaction tip inserted f)
          fs
      → FoundBy a r.hash r.height fs
      → In w watches
      → In a (or_at w.via w.at)
      → cursors w.id < r.height
      → r.height ≤ to
      → Ingested transaction w r inserted tip
  found-Ingested transaction tip to inserted [] r w a all here watched listed past le =
      elim here [ ]
  found-Ingested transaction tip to inserted (f ∷ fs) r w a all (inl first) watched listed past le =
      Taken-Ingested transaction tip inserted f r w a (all.0 (omega (arith, first.1))) first.0
        first.1 first.2 watched listed past
  found-Ingested transaction tip to inserted (f ∷ fs) r w a all (inr later) watched listed past le =
      found-Ingested transaction tip to inserted fs r w a all.1 later watched listed past le
