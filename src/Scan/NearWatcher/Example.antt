-- ===== src/Scan/NearWatcher/Example.antt =====
-- Two transactions of an account, the later of them with a receipt to come.
use whm.Prelude.{ℕ, ◌+◌, ◌≤◌, ◌<◌}
use whm.Prelude.{◌≡◌, refl, ap, inl, inr, arith}
use whm.Prelude.{Bool, true, Option, none, some}
use whm.Prelude.{List, [], ◌∷◌}
use whm.Prelude.{ltb, if◌then◌else◌, if_elim}
use whm.Prelude.{All, In}
use mathlib.Core.Path.{subst}
use whm.Prelude.Text.{bytes_eq, codes}
use whm.Scan.NearWatcher.{
  Text, Row, Tx, NearLog, Watch, has, any_of, every, finished, or_at, or_empty, add_found,
  add_history, least, hold_blocks, Pass, or_hold, chunks, save, top_of, is_before, insert_found,
  ordered, is_kept_by, event_of, extract_from, extract, is_held, take_one, take_all, and_read,
  read_all, on_read, steps, drain, reached, list_under, add_source, sources, oldest, moved,
  on_drained, and_history, gather, on_gathered, tick,
}
use whm.Scan.NearWatcher.Gathered.{AnswersAt, IsAt}
use whm.Scan.NearWatcher.Ingested.{Ingested}
use whm.Scan.NearWatcher.NoneLost.{IsIndexed, tick-Ingested, tick-bounded}

abbrev early : Row
early = record { hash = codes "t1"; height = 11 }

abbrev late : Row
late = record { hash = codes "t2"; height = 12 }

abbrev height_of : Text → ℕ
height_of hash = if bytes_eq hash (codes "t1") then 11 else 12

abbrev ledger : Text → List Row
ledger a = if bytes_eq a (codes "app") then late ∷ early ∷ [] else []

unfoldable past : ℕ → List Row → List Row
past c [] = []
past c (r ∷ rs) = let rest = past c rs in if ltb c r.height then r ∷ rest else rest

abbrev history : Text → ℕ → Option (List Row)
history a after = some (past after (ledger a))

past-All : (P : Row → Type 0) (c : ℕ) (rs : List Row) → All P rs → All P (past c rs)
unfolding past
past-All P c [] all = tt
past-All P c (r ∷ rs) (p, all) =
    if_elim (All P) (ltb c r.height) _ _ (λ newer. (p, past-All P c rs all))
      (λ older. past-All P c rs all)

past-In : (c : ℕ) (r : Row) (rs : List Row) → In r rs → c < r.height → In r (past c rs)
unfolding past
past-In c r [] here newer = elim here [ ]
past-In c r (k ∷ rs) (inl same) newer =
    if_elim (In r) (ltb c k.height) (k ∷ past c rs) (past c rs) (λ kept. inl same)
      (λ dropped. let level = ap (λ (j : Row). j.height) same in absurd (ground arith))
past-In c r (k ∷ rs) (inr later) newer =
    if_elim (In r) (ltb c k.height) (k ∷ past c rs) (past c rs)
      (λ kept. inr (past-In c r rs later newer)) (λ dropped. past-In c r rs later newer)

late-IsAt : IsAt height_of (codes "t2") 12
unfolding bytes_eq
late-IsAt = (refl, omega arith)

early-IsAt : IsAt height_of (codes "t1") 11
unfolding bytes_eq
early-IsAt = (refl, omega arith)

ledger-At : (a : Text) → All (λ (r : Row). IsAt height_of r.hash r.height) (ledger a)
ledger-At a =
    if_elim (All (λ (r : Row). IsAt height_of r.hash r.height)) (bytes_eq a (codes "app"))
      (late ∷ early ∷ []) [] (λ of_app. (late-IsAt, (early-IsAt, tt))) (λ other. tt)

history-At : AnswersAt height_of history
history-At a after rows h =
    let same : past after (ledger a) ≡ rows = cc in
    subst (All (λ (r : Row). IsAt height_of r.hash r.height)) same
      (past-All (λ (r : Row). IsAt height_of r.hash r.height) after (ledger a) (ledger-At a))

all_of : (P : Row → Type 0) (rs : List Row) → ((r : Row) → In r rs → P r) → All P rs
all_of P [] f = tt
all_of P (r ∷ rs) f = (f r (inl refl), all_of P rs (λ k there. f k (inr there)))

history-IsIndexed : IsIndexed history ledger
history-IsIndexed a after rows h =
    let same : past after (ledger a) ≡ rows = cc in
    subst (λ read. All (λ (r : Row). after < r.height → In r read) (ledger a)) same
      (all_of (λ (r : Row). after < r.height → In r (past after (ledger a))) (ledger a)
        (λ r there newer. past-In after r (ledger a) there newer))

abbrev transaction : Text → Option Tx
transaction hash = some (record {
  hash = hash;
  receipts =
      record {
        receipt_id = codes "r";
        receipt_ids = if bytes_eq hash (codes "t1") then [] else codes "s" ∷ [];
      }
      ∷ [];
})

abbrev log : NearLog
log = record {
  standard = codes "nep141";
  event = codes "ft_transfer";
  data_json = codes "{}";
  executor = codes "app";
  predecessor = codes "ann";
  index = 0;
  block_height = 12;
  block_timestamp = 1_000;
}

abbrev near_logs : Tx → List NearLog
near_logs tx = log ∷ []

abbrev near_topic : NearLog → Text
near_topic l = l.event

abbrev watch : Watch
watch = record { id = codes "w"; at = codes "app" ∷ []; via = none; calls = none }

abbrev cursors : Text → ℕ
cursors id = 10

abbrev is_sorted : Text → Text → Bool
is_sorted a b = true

abbrev pass : Pass
pass = record {
  inserted =
      record {
        tx_hash = codes "t1";
        log_index = 0;
        address = codes "app";
        block_number = 12;
        block_timestamp = 1_000;
        topics = codes "ft_transfer" ∷ [];
        data_json = codes "{}";
        sender = codes "ann";
      }
      ∷ [];
  hold = some 11;
}

held_tick :
    tick is_sorted near_logs near_topic (watch ∷ []) cursors transaction history 1
    ≡ moved pass 11 12
unfolding tick sources add_source list_under or_at gather and_history oldest least add_history
    add_found past on_gathered ordered insert_found is_before top_of drain chunks steps on_read
    read_all and_read take_all take_one is_held finished every has extract extract_from any_of
    is_kept_by or_empty event_of or_hold reached on_drained bytes_eq
held_tick = refl

early_listed : In early (ledger (codes "app"))
unfolding bytes_eq
early_listed = inr (inl refl)

app_watched : In (codes "app") (or_at watch.via watch.at)
unfolding or_at
app_watched = inl refl

early_saved : 11 ≤ save 11 10
unfolding save
early_saved = omega arith

tick-Ingested_example :
    Ingested near_logs near_topic (watch ∷ []) cursors transaction watch early pass.inserted 12
tick-Ingested_example =
    tick-Ingested is_sorted near_logs near_topic (watch ∷ []) cursors transaction history 1
      height_of ledger history-At history-IsIndexed (omega arith) pass 11 12 held_tick watch
      (codes "app") early (inl refl) app_watched early_listed (omega arith) early_saved

tick-bounded_example : 12 ≤ 11 + hold_blocks
tick-bounded_example =
    tick-bounded is_sorted near_logs near_topic (watch ∷ []) cursors transaction history 1 height_of
      history-At (omega arith) pass 11 12 held_tick
