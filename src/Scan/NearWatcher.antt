-- ===== src/Scan/NearWatcher.antt =====
-- agents/scan/src/chains/near/watcher.ts: `tick` with `extract`, from the cursors to the cursors. What FastNEAR answers,
-- its receipts read as logs, localeCompare and the digest of an event's name are parameters. The inserts and
-- the saves of the database succeed here. A watch's `id` is the name of its cursor.
mod Sorted
mod Follows
mod Caught
mod Sources
mod Gathered
mod Ingested
mod NoneLost
mod Example
use whm.Prelude.{ℕ, zero, suc, ◌+◌, ◌-◌, ◌*◌, ◌/◌, ◌%◌, ◌^◌, ◌≤◌, ◌<◌, min, String}
use whm.Prelude.{◌≡◌, refl, sym, ap, ◌∙◌, ◌≢◌, ◌↔◌, ◌⊎◌, inl, inr, arith}
use whm.Prelude.{Bool, true, false, not, ◌&&◌, ◌||◌, Option, none, some}
use whm.Prelude.{List, [], ◌∷◌, ◌++◌, map, append-nil, append_assoc}
use whm.Prelude.{
  ltb, leb, ◌==◌, if◌then◌else◌, ltb→lt, lt→ltb, ==_iff, Bool-cases, Option-cases, if_elim,
}
use whm.Prelude.{length, get_elem?, take, drop, replicate, All, All-append}
use whm.Prelude.{length-append, take-append-drop, length-take, length-drop, length-replicate}
use whm.Prelude.{take-append, drop-append}
use whm.Prelude.{str_eq, eq_iff, eq_refl}
use whm.Prelude.Text.{bytes_eq, codes}

abbrev pub Text : Type 0
Text = List ℕ

-- A row of an account's history.
pub record Row : Type 0 where
  pub hash : Text
  pub height : ℕ

-- A transaction found, and the accounts whose history it was found in.
pub record Found : Type 0 where
  pub hash : Text
  pub height : ℕ
  pub via : List Text

pub record Receipt : Type 0 where
  pub receipt_id : Text
  pub receipt_ids : List Text

pub record Tx : Type 0 where
  pub hash : Text
  pub receipts : List Receipt

-- Its `data` is the JSON of the data.
pub record NearLog : Type 0 where
  pub standard : Text
  pub event : Text
  pub data_json : Text
  pub executor : Text
  pub predecessor : Text
  pub index : ℕ
  pub block_height : ℕ
  pub block_timestamp : ℕ

pub record Watch : Type 0 where
  pub id : Text
  pub at : List Text
  pub via : Option (List Text)
  pub calls : Option (List Text)

pub record RawEvent : Type 0 where
  pub tx_hash : Text
  pub log_index : ℕ
  pub address : Text
  pub block_number : ℕ
  pub block_timestamp : ℕ
  pub topics : List Text
  pub data_json : Text
  pub sender : Text

unfoldable pub has : Text → List Text → Bool
has a [] = false
has a (b ∷ bs) = bytes_eq b a || has a bs

unfoldable pub any_of {ℓ} : {A : Type ℓ} → (A → Bool) → List A → Bool
any_of test [] = false
any_of test (x ∷ xs) = test x || any_of test xs

unfoldable pub every {ℓ} : {A : Type ℓ} → (A → Bool) → List A → Bool
every test [] = true
every test (x ∷ xs) = test x && every test xs

-- `finished`: the transaction has every receipt that its receipts name.
unfoldable pub finished : Tx → Bool
finished tx =
    let have = map (λ (r : Receipt). r.receipt_id) tx.receipts in
    every (λ (r : Receipt). every (λ id. has id have) r.receipt_ids) tx.receipts

unfoldable pub or_at : Option (List Text) → List Text → List Text
or_at none at = at
or_at (some via) at = via

unfoldable pub or_empty : Option (List Text) → List Text
or_empty none = []
or_empty (some calls) = calls

-- The `found` map with a row of an account's history.
unfoldable pub add_found : Text → Row → List Found → List Found
add_found account r [] = record { hash = r.hash; height = r.height; via = account ∷ [] } ∷ []
add_found account r (f ∷ fs) =
    let rest = add_found account r fs in
    if bytes_eq f.hash r.hash then record f { via = account ∷ f.via } ∷ fs else f ∷ rest

unfoldable pub add_history : Text → List Row → List Found → List Found
add_history account [] found = found
add_history account (r ∷ rs) found = add_history account rs (add_found account r found)

-- The `reduce` over the cursors of the watches of an account.
unfoldable pub least : ℕ → List ℕ → ℕ
least c [] = c
least c (d ∷ ds) = least (if ltb d c then d else c) ds

abbrev pub hold_blocks : ℕ
hold_blocks = 600

abbrev pub tx_batch : ℕ
tx_batch = 20

-- What a drain has inserted, in order, and where it holds the cursor.
pub record Pass : Type 0 where
  pub inserted : List RawEvent
  pub hold : Option ℕ

-- `hold ??= height`
unfoldable pub or_hold : Option ℕ → ℕ → ℕ
or_hold none height = height
or_hold (some h) height = h

-- The hashes of a step of the loop, which are requested together.
unfoldable pub chunks {ℓ} : {A : Type ℓ} → ℕ → ℕ → List A → List (List A)
chunks zero step xs = []
chunks (suc n) step [] = []
chunks (suc n) step (x ∷ xs) = take step (x ∷ xs) ∷ chunks n step (drop step (x ∷ xs))

-- `throws`: the drain ends there, with what it has inserted.
pub data Drained : Type 0 where
  throws : List RawEvent → Drained
  ended : Pass → Drained

-- The new cursor of a watch.
unfoldable pub save : ℕ → ℕ → ℕ
save to cursor = if leb to cursor then cursor else to

unfoldable pub top_of : List Found → ℕ
top_of [] = 0
top_of (f ∷ []) = f.height
top_of (f ∷ g ∷ fs) = top_of (g ∷ fs)

-- `ha.localeCompare(hb) <= 0`
module _ (is_sorted : Text → Text → Bool) where
  unfoldable pub is_before : Found → Found → Bool
  is_before f g = if f.height == g.height then is_sorted f.hash g.hash else ltb f.height g.height

  unfoldable pub insert_found : Found → List Found → List Found
  insert_found f [] = f ∷ []
  insert_found f (g ∷ gs) =
      let rest = insert_found f gs in if is_before f g then f ∷ g ∷ gs else g ∷ rest

  unfoldable pub ordered : List Found → List Found
  ordered [] = []
  ordered (f ∷ fs) = insert_found f (ordered fs)

module _ (near_logs : Tx → List NearLog) (near_topic : NearLog → Text) (watches : List Watch)
    (cursors : Text → ℕ) where
  unfoldable pub is_kept_by : Found → NearLog → Watch → Bool
  is_kept_by f l w =
      has l.executor w.at
      && (ltb (cursors w.id) f.height
          && (any_of (λ a. has a f.via) (or_at w.via w.at)
              && (not (bytes_eq l.standard (codes "call")) || has l.event (or_empty w.calls))))

  unfoldable pub event_of : Tx → NearLog → RawEvent
  event_of tx l = record {
    tx_hash = tx.hash;
    log_index = l.index;
    address = l.executor;
    block_number = l.block_height;
    block_timestamp = l.block_timestamp;
    topics = near_topic l ∷ [];
    data_json = l.data_json;
    sender = l.predecessor;
  }

  unfoldable pub extract_from : Tx → Found → List NearLog → List RawEvent
  extract_from tx f [] = []
  extract_from tx f (l ∷ ls) =
      let rest = extract_from tx f ls in
      if any_of (is_kept_by f l) watches then event_of tx l ∷ rest else rest

  unfoldable pub extract : Tx → Found → List RawEvent
  extract tx f = extract_from tx f (near_logs tx)

  -- The tests that leave a transaction for the next drain.
  unfoldable pub is_held : ℕ → Found → Tx → Bool
  is_held top f tx = not (finished tx) && ltb (top - f.height) hold_blocks

  -- A transaction of the inner loop.
  unfoldable pub take_one : ℕ → Found → Tx → Pass → Pass
  take_one top f tx p =
      if is_held top f tx
      then record { inserted = p.inserted; hold = some (or_hold p.hold (f.height - 1)) }
      else record { inserted = p.inserted ++ extract tx f; hold = p.hold }

  unfoldable pub take_all : ℕ → List (Found × Tx) → Pass → Pass
  take_all top [] p = p
  take_all top ((f, tx) ∷ rest) p = take_all top rest (take_one top f tx p)

  -- A hash is `none` where the request that it is part of throws.
  module _ (transaction : Text → Option Tx) where
    unfoldable pub and_read :
        Found → Option Tx → Option (List (Found × Tx)) → Option (List (Found × Tx))
    and_read f none rest = none
    and_read f (some tx) none = none
    and_read f (some tx) (some rest) = some ((f, tx) ∷ rest)

    -- `Promise.all` of the requests of a step.
    unfoldable pub read_all : List Found → Option (List (Found × Tx))
    read_all [] = some []
    read_all (f ∷ fs) = and_read f (transaction f.hash) (read_all fs)

    unfoldable pub on_read : ℕ → Pass → (Pass → Drained) → Option (List (Found × Tx)) → Drained
    on_read top p next none = throws p.inserted
    on_read top p next (some read) = next (take_all top read p)

    unfoldable pub steps : ℕ → List (List Found) → Pass → Drained
    steps top [] p = ended p
    steps top (c ∷ cs) p = on_read top p (steps top cs) (read_all c)

    -- From the transactions in history order, `step` of them at a time.
    unfoldable pub drain : ℕ → List Found → Drained
    drain step found =
        steps (top_of found) (chunks (length found) step found)
          (record { inserted = []; hold = none })

-- `hold ?? top`
unfoldable pub reached : ℕ → Pass → ℕ
reached top p = or_hold p.hold top

-- `this.sources.set(a, [...(this.sources.get(a) ?? []), w])`
unfoldable pub list_under : Text → Watch → List (Text × List Watch) → List (Text × List Watch)
list_under a w [] = (a, w ∷ []) ∷ []
list_under a w ((b, ws) ∷ m) =
    let rest = list_under a w m in if bytes_eq b a then (b, ws ++ (w ∷ [])) ∷ m else (b, ws) ∷ rest

-- `sources`: the watches by the accounts whose histories they read.
unfoldable pub add_source : Watch → List Text → List (Text × List Watch) → List (Text × List Watch)
add_source w [] m = m
add_source w (a ∷ accounts) m = add_source w accounts (list_under a w m)

unfoldable pub sources : List Watch → List (Text × List Watch) → List (Text × List Watch)
sources [] m = m
sources (w ∷ ws) m = sources ws (add_source w (or_at w.via w.at) m)

unfoldable pub oldest : (Text → ℕ) → List Watch → ℕ
oldest cursors [] = 0
oldest cursors (w ∷ ws) = least (cursors w.id) (map (λ (v : Watch). cursors v.id) ws)

-- `failed` is a tick that throws, and `moved` ends with the cursors and the tip saved.
pub data Ticked : Type 0 where
  failed : List RawEvent → Ticked
  quiet : Ticked
  moved : Pass → ℕ → ℕ → Ticked

unfoldable pub on_drained : ℕ → Drained → Ticked
on_drained top (throws inserted) = failed inserted
on_drained top (ended p) = moved p (reached top p) top

-- An account's history past a height; `none` where the request throws.
module _ (history : Text → ℕ → Option (List Row)) (cursors : Text → ℕ) where
  unfoldable pub and_history :
      Text
      → Option (List Row)
      → List Found
      → (List Found → Option (List Found))
      → Option (List Found)
  and_history account none found next = none
  and_history account (some rows) found next = next (add_history account rows found)

  unfoldable pub gather : List (Text × List Watch) → List Found → Option (List Found)
  gather [] found = some found
  gather ((account, ws) ∷ more) found =
      and_history account (history account (oldest cursors ws)) found (gather more)

module _ (is_sorted : Text → Text → Bool) (near_logs : Tx → List NearLog)
    (near_topic : NearLog → Text) (watches : List Watch) (cursors : Text → ℕ)
    (transaction : Text → Option Tx) where
  unfoldable pub on_gathered : ℕ → Option (List Found) → Ticked
  on_gathered step none = failed []
  on_gathered step (some []) = quiet
  on_gathered step (some (f ∷ found)) =
      let rows = ordered is_sorted (f ∷ found) in
      on_drained (top_of rows) (drain near_logs near_topic watches cursors transaction step rows)

  -- `tick`, once the rewinds are applied and the cursors loaded.
  unfoldable pub tick : (Text → ℕ → Option (List Row)) → ℕ → Ticked
  tick history concurrency =
      on_gathered (tx_batch * concurrency) (gather history cursors (sources watches []) [])
