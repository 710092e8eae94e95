-- ===== src/Utxo/Store/Records.antt =====
-- agents/utxo/src/apps/relayer/store.ts: `Withdrawal` and `Store`; app.ts: `onWithdrawal`. An operation gives the database,
-- and its result, `none` where it throws.
use whm.Prelude.{ℕ}
use whm.Prelude.{Bool, true, false, Option, none, some}
use whm.Prelude.{List, [], ◌∷◌, ◌++◌, map}
use whm.Prelude.{leb, if◌then◌else◌}
use whm.Prelude.{drop}
use whm.Prelude.Text.{bytes_eq, codes, to_string, to_lower_case}
use whm.Utxo.Store.Redis.{Redis}

abbrev pub Text : Type 0
Text = List ℕ

pub data Status : Type 0 where
  is_open : Status
  is_withdrawn : Status
  is_mismatch : Status

pub record Withdrawal : Type 0 where
  pub chain : Text
  pub sequence : Text
  pub account : Text
  pub address : Text
  pub amount : Text
  pub block : Text
  pub state : Status
  pub created_at : ℕ
  pub updated_at : ℕ
  pub withdraw_tx : Option Text
  pub last_error : Option Text

-- `w.state === "open"`
unfoldable pub open_state : Status → Bool
open_state is_open = true
open_state is_withdrawn = false
open_state is_mismatch = false

unfoldable pub id : Withdrawal → Text
id w = w.chain ++ (b':' ∷ w.sequence)

unfoldable pub key_of : Text → Text → Text
key_of prefix x = prefix ++ (b':' ∷ x)

unfoldable pub key : Text → Withdrawal → Text
key prefix w = key_of prefix (id w)

unfoldable pub open_key : Text → Text
open_key prefix = key_of prefix (codes "open")

-- `.filter((v) => v !== null)` on what `mget` gives.
unfoldable pub present : List (Option Text) → List Text
present [] = []
present (none ∷ vs) = present vs
present (some v ∷ vs) = v ∷ present vs

-- `sort` by `createdAt`, which is stable.
unfoldable pub insert_by_age : Withdrawal → List Withdrawal → List Withdrawal
insert_by_age w [] = w ∷ []
insert_by_age w (v ∷ vs) =
    let rest = insert_by_age w vs in if leb w.created_at v.created_at then w ∷ v ∷ vs else v ∷ rest

unfoldable pub sort_by_age : List Withdrawal → List Withdrawal
sort_by_age [] = []
sort_by_age (w ∷ ws) = insert_by_age w (sort_by_age ws)

unfoldable pub closed : Withdrawal → Text → ℕ → Withdrawal
closed w tx now = record w {
  state = is_withdrawn;
  withdraw_tx = some tx;
  last_error = none;
  updated_at = now;
}

unfoldable pub failed : Withdrawal → Text → ℕ → Withdrawal
failed w error now = record w { last_error = some error; updated_at = now }

-- `onWithdrawal`, once the address is decoded and the account that it derives is known.
unfoldable pub record_of : Text → ℕ → Text → Text → Text → ℕ → ℕ → ℕ → Withdrawal
record_of chain sequence near_account address derived amount block now =
    let account = to_lower_case (drop 2 near_account) in
    record {
      chain = chain;
      sequence = to_string sequence;
      account = account;
      address = address;
      amount = to_string amount;
      block = to_string block;
      state = if bytes_eq derived account then is_open else is_mismatch;
      created_at = now;
      updated_at = now;
      withdraw_tx = none;
      last_error = none;
    }

module _ (redis : Redis) (prefix : Text) (stringify : Withdrawal → Text)
    (parse : Text → Withdrawal) where
  open redis use {Db, get, smembers, set, set_nx, sadd, srem, expire}

  -- `reached` says whether the second command of `add` gets through.
  unfoldable pub add_new : Bool → Withdrawal → Db → Db × Option Bool
  add_new false w db = (db, none)
  add_new true w db = (
    if open_state w.state then sadd (open_key prefix) (id w) db else expire (key prefix w) db,
    some true,
  )

  unfoldable pub after_set : Bool → Withdrawal → Db × Bool → Db × Option Bool
  after_set reached w (db, false) = (db, some false)
  after_set reached w (db, true) = add_new reached w db

  unfoldable pub add : Bool → Withdrawal → Db → Db × Option Bool
  add reached w db = after_set reached w (set_nx (key prefix w) (stringify w) db)

  -- `open`
  unfoldable pub open_records : Db → List Withdrawal
  open_records db =
      sort_by_age
        (map parse (present (map (λ x. get db (key_of prefix x)) (smembers db (open_key prefix)))))

  unfoldable pub fail : Withdrawal → Text → ℕ → Db → Db
  fail w error now db = set (key prefix w) (stringify (failed w error now)) db

  -- The two commands of `multi`, which are carried out together.
  unfoldable pub withdrawn : Withdrawal → Text → ℕ → Db → Db
  withdrawn w tx now db =
      srem (open_key prefix) (id w) (set (key prefix w) (stringify (closed w tx now)) db)

  unfoldable pub on_withdrawal :
      Bool → Text → ℕ → Text → Text → Text → ℕ → ℕ → ℕ → Db → Db × Option Bool
  on_withdrawal reached chain sequence near_account address derived amount block now db =
      add reached (record_of chain sequence near_account address derived amount block now) db
