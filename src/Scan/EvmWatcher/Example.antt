-- ===== src/Scan/EvmWatcher/Example.antt =====
-- A watch over a chain with three logs: a sweep up to block 25, in ranges of ten blocks.
use whm.Prelude.{ℕ, ◌+◌, ◌≤◌}
use whm.Prelude.{◌≡◌, refl, sym, ap, ◌≢◌, inl, inr, arith}
use whm.Prelude.{true, false, ◌&&◌, none, some}
use whm.Prelude.{List, [], ◌∷◌}
use whm.Prelude.{ltb, leb, if◌then◌else◌, Bool-cases}
use whm.Prelude.{length, In}
use whm.Prelude.Text.{number_key, codes}
use whm.Prelude.Assoc.{contains, uniq, get, without}
use whm.Scan.EvmWatcher.Fetcher.{fetcher}
use whm.Prelude.Assoc.{uniq, get, without}
use whm.Scan.EvmWatcher.Lookups.{
  clear_large, lookup_all, lookup_slices, missing, is_missing, any_refused, is_refused,
}
use whm.Scan.EvmWatcher.Ranges.{one_by_one, fetcher-one_by_one}
use whm.Scan.EvmWatcher.Lookups.{null, found, time_cache_max, block_times}
use whm.Scan.EvmWatcher.Sweep.{
  RawLog, Watch, Node, Config, State, stamp, or_zero, or_from, load_cursor, first_block, tick,
  ingest, cursor_id,
}
use whm.Scan.EvmWatcher.Stamps.{known_time, filled_cache, stamp-block_times}
use whm.Scan.EvmWatcher.Covered.{IsComplete, Covered, Swept, tick-Swept}
use whm.Scan.EvmWatcher.Indexed.{IsIndexed, ingest-IsIndexed}

abbrev log_at : ℕ → ℕ → RawLog
log_at block index = record {
  address = codes "0xAb";
  topics = codes "0x01" ∷ [];
  payload = codes "0x";
  block_number = block;
  transaction_hash = codes "0xf0";
  log_index = index;
}

abbrev all_logs : List RawLog
all_logs = log_at 12 0 ∷ log_at 12 1 ∷ log_at 23 2 ∷ []

in_range : ℕ → ℕ → List RawLog → List RawLog
in_range from to [] = []
in_range from to (l ∷ ls) =
    let rest = in_range from to ls in
    if leb from l.block_number && leb l.block_number to then l ∷ rest else rest

abbrev node : Node
node = record {
  get_logs = λ at_addresses topics from to. some (in_range from to all_logs);
  get_block = λ n. found (1_700_000_000 + n);
  get_transaction = λ h. null;
}

abbrev cfg : Config
cfg = record {
  name = codes "base";
  chunk_size = 10;
  concurrency = 2;
  confirmations = 5;
  subscribed = true;
}

abbrev watch : Watch
watch = record {
  role = codes "manager";
  id = none;
  from = 3;
  at_addresses = codes "0xab" ∷ [];
  topics = [];
  sender = false;
}

abbrev other_watch : Watch
other_watch = record watch { role = codes "core" }

abbrev fresh : State
fresh = record { store = ([], 1); cursors = []; times = [] }

abbrev logs_of : ℕ → List RawLog
logs_of b = in_range b b all_logs

in_range_wider :
    (from to b : ℕ) (ls : List RawLog) (l : RawLog)
    → from ≤ b
    → b ≤ to
    → In l (in_range b b ls)
    → In l (in_range from to ls)
unfolding in_range
in_range_wider from to b [] l p q i = i
in_range_wider from to b (k ∷ ls) l p q i =
    elim (Bool-cases (leb b k.block_number && leb k.block_number b)) [
      | inl hit ↦
          let wide : (leb from k.block_number && leb k.block_number to) ≡ true = ground arith in
          rw wide (elim (rw hit at i) [
            | inl same ↦ inl same
            | inr behind ↦ inr (in_range_wider from to b ls l p q behind)
          ])
      | inr miss ↦
          let rest = in_range_wider from to b ls l p q (rw miss at i) in
          elim (Bool-cases (leb from k.block_number && leb k.block_number to)) [
            | inl more ↦ rw more (inr rest)
            | inr none_here ↦ rw none_here rest
          ]
    ]

node-IsComplete : IsComplete cfg node (λ e. true) watch logs_of
node-IsComplete from to b logs e lo hi l i =
    let same : in_range from to all_logs ≡ logs = cc in
    rw (sym same) (in_range_wider from to b all_logs l lo hi i)

others-differ : cursor_id other_watch ≢ cursor_id watch
unfolding cursor_id
others-differ e = absurd (omega (arith, ap length e))

fresh-IsIndexed : IsIndexed cfg node (λ e. true) watch logs_of fresh
unfolding IsIndexed Covered first_block load_cursor or_from
fresh-IsIndexed b lo hi l i = absurd (omega arith)

answers_all : (block_times node.get_block 2 (12 ∷ 12 ∷ 23 ∷ []) []).1 ≡ true
unfolding block_times clear_large lookup_all lookup_slices missing uniq is_missing get any_refused
    is_refused without
answers_all = refl

fetcher-one_by_one_example :
    fetcher (node.get_logs [] []) 10 25 2 3 ≡ one_by_one (node.get_logs [] []) 10 25 24 3
fetcher-one_by_one_example = fetcher-one_by_one (node.get_logs [] []) 10 25 2 3 (omega arith)

stamp-block_times_example : stamp (block_times node.get_block 2 (12 ∷ 12 ∷ 23 ∷ []) []).0 23 ≡ (
    if ltb time_cache_max (length (filled_cache node.get_block 2 (12 ∷ 12 ∷ 23 ∷ []) []))
    then 0
    else or_zero (known_time node.get_block [] 23))
stamp-block_times_example =
    stamp-block_times node.get_block 2 (12 ∷ 12 ∷ 23 ∷ []) [] (omega arith) 23
      (unfold contains in refl) answers_all

tick-Swept_example :
    Swept cfg node
      (λ e. true)
      watch
      logs_of
      node-IsComplete
      25
      (first_block watch [])
      fresh
      (tick cfg node (λ e. true) watch 25 fresh)
tick-Swept_example =
    tick-Swept cfg node (λ e. true) watch logs_of node-IsComplete 25 fresh (omega arith)
      (omega arith)

ingest-IsIndexed_example :
    IsIndexed cfg node
      (λ e. true)
      watch
      logs_of
      (ingest cfg node (λ e. true) (watch ∷ other_watch ∷ []) [] 1000 900 (some 30) none fresh).0
ingest-IsIndexed_example =
    ingest-IsIndexed cfg node (λ e. true) watch logs_of node-IsComplete (omega arith) (omega arith)
      (watch ∷ other_watch ∷ []) [] 1000 900 (some 30) none fresh
      (inl refl, (inr others-differ, tt)) fresh-IsIndexed
