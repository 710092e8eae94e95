-- ===== src/Utxo/Worker.antt =====
-- agents/utxo/src/apps/relayer/worker.ts: one chain's pass over its open withdrawals. What NEAR answers is a
-- parameter, `none` where the call throws; `store.fail` is taken to pass. A pass is the calls of the
-- store that it makes, in order.
pub mod Closes
pub mod Groups
mod Example
use whm.Prelude.{ℕ, zero, suc, ◌+◌, ◌-◌, ◌*◌, ◌/◌, ◌%◌, ◌^◌, ◌≤◌, ◌<◌, min, String}
use whm.Prelude.{◌≡◌, refl, sym, ap, ◌∙◌, ◌≢◌, ◌↔◌, ◌⊎◌, inl, inr, arith}
use whm.Prelude.{Bool, true, false, not, ◌&&◌, ◌||◌, Option, none, some}
use whm.Prelude.{List, [], ◌∷◌, ◌++◌, map, append-nil, append_assoc}
use whm.Prelude.{ltb, leb, ◌==◌, if◌then◌else◌, ltb→lt, lt→ltb, ==_iff, Bool-cases, Option-cases}
use whm.Prelude.{length, get_elem?, take, drop, replicate, All, All-append}
use whm.Prelude.{length-append, take-append-drop, length-take, length-drop, length-replicate}
use whm.Prelude.{take-append, drop-append}
use whm.Prelude.{str_eq, eq_iff, eq_refl}
use whm.Prelude.Text.{bytes_eq}
use whm.Utxo.Coins.{Coin, ConnectorConfig, pick_coin}

abbrev pub Text : Type 0
Text = List ℕ

-- An open record, as far as a pass reads it.
pub record Withdrawal : Type 0 where
  pub sequence : ℕ
  pub account : Text
  pub address : Text

-- What an account's turn meets: its balance, whether it exists or could be created, the connector's coins, the
-- relay transaction, and the balance behind it.
pub record Answers : Type 0 where
  pub held : Option ℕ
  pub ensured : Bool
  pub coins : Option (List Coin)
  pub relayed : Option Text
  pub left : Option ℕ
  -- Whether the store closes a record.
  pub closes : Withdrawal → Bool

pub data Call : Type 0 where
  closed : Withdrawal → Text → Call
  failed : Withdrawal → Call

-- The calls of the store, and whether the end was reached.
abbrev pub Turn : Type 0
Turn = List Call × Bool

-- `for (const w of records) await this.store.withdrawn(w, tx)`
unfoldable pub close_all : Answers → Text → List Withdrawal → Turn
close_all a tx [] = ([], true)
close_all a tx (w ∷ ws) =
    let rest = close_all a tx ws in
    if a.closes w then (closed w tx ∷ rest.0, rest.1) else ([], false)

module _ (in_order : List ℕ → List ℕ → Bool) (config : ConnectorConfig)
    (min_withdraw miner_fee : ℕ) where
  -- From the balance behind the relay on.
  unfoldable pub settle : Answers → Text → Option ℕ → List Withdrawal → Turn
  settle a tx none records = ([], false)
  settle a tx (some left) records =
      if leb min_withdraw left then ([], false) else close_all a tx records

  unfoldable pub relay : Answers → Option Text → Option Text → List Withdrawal → Turn
  relay a none tx records = ([], false)
  relay a (some coin) none records = ([], false)
  relay a (some coin) (some tx) records = settle a tx a.left records

  unfoldable pub choose : Option (List Coin) → ℕ → Option Text
  choose none held = none
  choose (some coins) held = pick_coin in_order coins config held miner_fee

  -- `withdraw`
  unfoldable pub withdraw_held : Answers → Option ℕ → List Withdrawal → Turn
  withdraw_held a none records = ([], false)
  withdraw_held a (some held) records =
      if ltb held min_withdraw
      then ([], true)
      else if a.ensured
      then relay a (choose a.coins held) a.relayed records
      else ([], false)

  unfoldable pub withdraw : Answers → List Withdrawal → Turn
  withdraw a records = withdraw_held a a.held records

unfoldable pub fail_all : List Withdrawal → List Call
fail_all [] = []
fail_all (w ∷ ws) = failed w ∷ fail_all ws

-- The `try` of one account, and its `catch`.
unfoldable pub or_fail : List Withdrawal → Turn → List Call
or_fail records (calls, true) = calls
or_fail records (calls, false) = calls ++ fail_all records

-- `byAccount`, in the order in which the accounts come up.
unfoldable pub put : List (Text × List Withdrawal) → Withdrawal → List (Text × List Withdrawal)
put [] w = (w.account, w ∷ []) ∷ []
put ((account, ws) ∷ groups) w =
    let rest = put groups w in
    if bytes_eq account w.account then (account, ws ++ w ∷ []) ∷ groups else (account, ws) ∷ rest

unfoldable pub group :
    List (Text × List Withdrawal) → List Withdrawal → List (Text × List Withdrawal)
group groups [] = groups
group groups (w ∷ ws) = group (put groups w) ws

abbrev pub by_account : List Withdrawal → List (Text × List Withdrawal)
by_account records = group [] records

module _ (in_order : List ℕ → List ℕ → Bool) (config : ConnectorConfig) (min_withdraw miner_fee : ℕ)
    (near : Text → Answers) where
  unfoldable pub each_account : List (Text × List Withdrawal) → List Call
  each_account [] = []
  each_account ((account, records) ∷ groups) =
      or_fail records (withdraw in_order config min_withdraw miner_fee (near account) records)
      ++ each_account groups

  -- `passChain`, once the connector's config is read.
  unfoldable pub pass_chain : List Withdrawal → List Call
  pass_chain records = each_account (by_account records)
