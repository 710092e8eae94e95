-- ===== src/Utxo/Store/Events.antt =====
-- agents/utxo/src/apps/relayer/app.ts: `onWithdrawal` on the store.
use whm.Prelude.{ℕ}
use whm.Prelude.{◌≡◌, refl, ap, ◌∙◌}
use whm.Prelude.{Bool, true, false, none}
use whm.Prelude.{if◌then◌else◌}
use whm.Prelude.{drop}
use whm.Prelude.Text.{bytes_eq, to_lower_case}
use whm.Utxo.Store.Redis.{Redis}
use whm.Utxo.Store.Records.{
  Text, is_open, is_mismatch, Withdrawal, open_state, id, record_of, on_withdrawal,
}
use whm.Utxo.Store.View.{view, is_listed}
use whm.Utxo.Store.Consistent.{open_record, IsConsistent, add-IsConsistent, add-view}

module _ (redis : Redis) (prefix : Text) (stringify : Withdrawal → Text) (parse : Text → Withdrawal)
    (parse-stringify : (w : Withdrawal) → parse (stringify w) ≡ w) where
  open redis use {Db}

  opens : (b : Bool) → open_state (if b then is_open else is_mismatch) ≡ b
  unfolding open_state
  opens true = refl
  opens false = refl

  -- Where JSON gives a record back, and the listed ids are those of the open records: once an event is recorded whose id
  -- the store did not know, its id is listed exactly if the event's account is the one that its address
  -- derives; and the listed ids are those of the open records still.
  pub on_withdrawal-IsConsistent :
      (chain : Text) (sequence : ℕ) (near_account address derived : Text) (amount block now : ℕ)
      (db : Db)
      → IsConsistent redis prefix stringify parse parse-stringify db
      → view redis prefix parse db
          (id (record_of chain sequence near_account address derived amount block now))
        ≡ none
      → (is_listed redis prefix
            (on_withdrawal redis prefix stringify parse true chain sequence near_account address
              derived amount block now db).0
            (id (record_of chain sequence near_account address derived amount block now))
          ≡ bytes_eq derived (to_lower_case (drop 2 near_account)))
        × IsConsistent redis prefix stringify parse parse-stringify
            (on_withdrawal redis prefix stringify parse true chain sequence near_account address
              derived amount block now db).0
  unfolding on_withdrawal
  on_withdrawal-IsConsistent chain sequence near_account address derived amount block now db c new =
      let w = record_of chain sequence near_account address derived amount block now in
      let after = add-IsConsistent redis prefix stringify parse parse-stringify w db c in
      (
        after.listed (id w)
            ∙ (ap open_record (add-view redis prefix stringify parse parse-stringify w db new)
                ∙ unfold record_of open_record in
                  opens (bytes_eq derived (to_lower_case (drop 2 near_account)))),
        after,
      )
