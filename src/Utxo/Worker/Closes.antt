-- ===== src/Utxo/Worker/Closes.antt =====
-- What stands behind a record's close.
use whm.Prelude.{ℕ, ◌≤◌, ◌<◌}
use whm.Prelude.{◌≡◌, refl, inl, inr, arith}
use whm.Prelude.{Bool, true, false, Option, none, some}
use whm.Prelude.{List, [], ◌∷◌}
use whm.Prelude.{ltb, leb, if◌then◌else◌, Bool-cases}
use whm.Prelude.{All, All-append}
use whm.Utxo.Coins.{ConnectorConfig}
use whm.Utxo.Worker.{
  Text, Withdrawal, Answers, Call, closed, failed, Turn, close_all, settle, relay, choose,
  withdraw_held, withdraw, fail_all, or_fail,
}

module _ (in_order : List ℕ → List ℕ → Bool) (config : ConnectorConfig)
    (min_withdraw miner_fee : ℕ) where
  -- What stands behind a close: the balance had arrived, the account was there, a coin was picked for it, the
  -- relay went out as this transaction, and less than the minimum was left after it.
  pub record Left (a : Answers) (tx : Text) : Type 0 where
    pub held : ℕ
    pub had : a.held ≡ some held
    pub enough : min_withdraw ≤ held
    pub ensured : a.ensured ≡ true
    pub coin : Text
    pub picked : choose in_order config min_withdraw miner_fee a.coins held ≡ some coin
    pub relayed : a.relayed ≡ some tx
    pub left : ℕ
    pub has : a.left ≡ some left
    pub gone : left < min_withdraw

  abbrev pub Justified : Answers → Call → Type 0
  Justified a (closed w tx) = Left a tx
  Justified a (failed w) = Unit

  close_all-Justified :
      (a : Answers) (tx : Text) (ws : List Withdrawal)
      → Left a tx
      → All (Justified a) (close_all a tx ws).0
  unfolding close_all
  close_all-Justified a tx [] h = tt
  close_all-Justified a tx (w ∷ ws) h = elim (Bool-cases (a.closes w)) [
    | inl written ↦ rw written (h, close_all-Justified a tx ws h)
    | inr broken ↦ rw broken tt
  ]

  fail_all-Justified : (a : Answers) (ws : List Withdrawal) → All (Justified a) (fail_all ws)
  unfolding fail_all
  fail_all-Justified a [] = tt
  fail_all-Justified a (w ∷ ws) = (tt, fail_all-Justified a ws)

  settle-Justified :
      (a : Answers) (tx : Text) (ws : List Withdrawal) (o : Option ℕ)
      → ((left : ℕ) → o ≡ some left → left < min_withdraw → Left a tx)
      → All (Justified a) (settle in_order config min_withdraw miner_fee a tx o ws).0
  unfolding settle
  settle-Justified a tx ws none h = tt
  settle-Justified a tx ws (some left) h = elim (Bool-cases (leb min_withdraw left)) [
    | inl stayed ↦ rw stayed tt
    | inr gone ↦ rw gone (close_all-Justified a tx ws (h left refl (ground arith)))
  ]

  relay-Justified :
      (a : Answers) (ws : List Withdrawal) (c t : Option Text)
      → ((coin tx : Text) (left : ℕ)
          → c ≡ some coin
          → t ≡ some tx
          → a.left ≡ some left
          → left < min_withdraw
          → Left a tx)
      → All (Justified a) (relay in_order config min_withdraw miner_fee a c t ws).0
  unfolding relay
  relay-Justified a ws none t h = tt
  relay-Justified a ws (some coin) none h = tt
  relay-Justified a ws (some coin) (some tx) h =
      settle-Justified a tx ws a.left (λ left has gone. h coin tx left refl refl has gone)

  either_way :
      (a : Answers) (ws : List Withdrawal) (held : ℕ) (b : Bool)
      → All
          (Justified a)
          (relay in_order config min_withdraw miner_fee a
            (choose in_order config min_withdraw miner_fee a.coins held)
            a.relayed
            ws).0
      → All
          (Justified a)
          (if b
            then relay in_order config min_withdraw miner_fee a
                (choose in_order config min_withdraw miner_fee a.coins held)
                a.relayed
                ws
            else ([], false)).0
  either_way a ws held true h = h
  either_way a ws held false h = tt

  not_there :
      (a : Answers) (turn : Turn) (b : Bool)
      → b ≡ false
      → All (Justified a) (if b then turn else ([], false)).0
  not_there a turn true e = absurd (cc)
  not_there a turn false e = tt

  held-Justified :
      (a : Answers) (ws : List Withdrawal) (o : Option ℕ)
      → a.held ≡ o
      → All (Justified a) (withdraw_held in_order config min_withdraw miner_fee a o ws).0
  unfolding withdraw_held
  held-Justified a ws none had = tt
  held-Justified a ws (some held) had = elim (Bool-cases (ltb held min_withdraw)) [
    | inl small ↦ rw small tt
    | inr enough ↦ elim (Bool-cases a.ensured) [
      | inl ensured ↦
          let turn =
            relay-Justified a ws (choose in_order config min_withdraw miner_fee a.coins held)
              a.relayed
              (λ coin tx left picked relayed has gone. record {
                held = held;
                had = had;
                enough = ground arith;
                ensured = ensured;
                coin = coin;
                picked = picked;
                relayed = relayed;
                left = left;
                has = has;
                gone = gone;
              }) in
          rw enough (either_way a ws held a.ensured turn)
      | inr missing ↦ rw enough (not_there a _ a.ensured missing)
    ]
  ]

  or_fail-Justified :
      (a : Answers) (ws : List Withdrawal) (turn : Turn)
      → All (Justified a) turn.0
      → All (Justified a) (or_fail ws turn)
  unfolding or_fail
  or_fail-Justified a ws (calls, true) h = h
  or_fail-Justified a ws (calls, false) h =
      All-append (Justified a) calls (fail_all ws) h (fail_all-Justified a ws)

  -- In an account's turn, whatever NEAR and the store answer: a record is closed as withdrawn by a
  -- transaction only if the account had at least the minimum, existed or was created, a coin was picked for
  -- its balance, that transaction was relayed, and less than the minimum was left behind it.
  pub turn-Justified :
      (a : Answers) (ws : List Withdrawal)
      → All (Justified a) (or_fail ws (withdraw in_order config min_withdraw miner_fee a ws))
  unfolding withdraw
  turn-Justified a ws =
      or_fail-Justified a ws (withdraw in_order config min_withdraw miner_fee a ws)
        (held-Justified a ws a.held refl)
