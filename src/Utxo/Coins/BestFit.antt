-- ===== src/Utxo/Coins/BestFit.antt =====
-- pickCoin: which coin is picked, and when none is.
use whm.Prelude.{ℕ, ◌+◌, ◌-◌, ◌≤◌, ◌<◌}
use whm.Prelude.{◌≡◌, refl, ◌⊎◌, inl, inr, arith}
use whm.Prelude.{Bool, true, false, Option, none, some}
use whm.Prelude.{List, [], ◌∷◌}
use whm.Prelude.{leb, if◌then◌else◌, Bool-cases}
use whm.Prelude.{All}
use whm.Utxo.Coins.{
  Coin, ConnectorConfig, bridge_fee, fits, fitting, colon_for_at, before, insert, sort, first_id,
  pick_coin,
}

abbrev pub Has : Coin → List Coin → Type 0
Has c [] = ⊥
Has c (d ∷ ds) = (c ≡ d) ⊎ Has c ds

-- The head of the first list is a least coin of the second.
abbrev HeadOf : List Coin → List Coin → Type 0
HeadOf [] l = l ≡ []
HeadOf (c ∷ cs) l = Has c l × All (λ d. c.1 ≤ d.1) l

All-least : (a b : ℕ) (l : List Coin) → a ≤ b → All (λ d. b ≤ d.1) l → All (λ d. a ≤ d.1) l
All-least a b [] h p = tt
All-least a b ((id, v) ∷ l) h (p, ps) = (omega arith, All-least a b l h ps)

module _ (in_order : List ℕ → List ℕ → Bool) where
  before_iff :
      (c d : Coin)
      → ((before in_order c d ≡ true) × (c.1 ≤ d.1)) ⊎ ((before in_order c d ≡ false) × (d.1 ≤ c.1))
  unfolding before
  before_iff (ia, a) (ib, b) = ground arith

  insert-HeadOf : (c : Coin) (s l : List Coin) → HeadOf s l → HeadOf (insert in_order c s) (c ∷ l)
  unfolding insert
  insert-HeadOf c [] l h = rw h (inl refl, (omega arith, tt))
  insert-HeadOf c (d ∷ ds) l (has, least) = elim (before_iff c d) [
    | inl (first, le) ↦ rw (insert, first) (inl refl, (omega arith, All-least c.1 d.1 l le least))
    | inr (later, le) ↦ rw (insert, later) (inr has, (le, least))
  ]

  sort-HeadOf : (l : List Coin) → HeadOf (sort in_order l) l
  unfolding sort
  sort-HeadOf [] = refl
  sort-HeadOf (c ∷ l) = insert-HeadOf c (sort in_order l) l (sort-HeadOf l)

module _ (config : ConnectorConfig) (need : ℕ) where
  Has-fitting :
      (c : Coin) (l : List Coin)
      → Has c (fitting config need l)
      → Has c l × (fits config need c.1 ≡ true)
  unfolding fitting
  Has-fitting c [] h = absurd h
  Has-fitting c ((id, v) ∷ l) h = elim (Bool-cases (fits config need v)) [
    | inl fit_here ↦ elim (rw fit_here at h) [
      | inl same ↦ (inl same, rw same fit_here)
      | inr more ↦ let (has, fit) = Has-fitting c l more in (inr has, fit)
    ]
    | inr unfit ↦ let (has, fit) = Has-fitting c l (rw unfit at h) in (inr has, fit)
  ]

  All-fitting :
      (v : ℕ) (l : List Coin)
      → All (λ d. v ≤ d.1) (fitting config need l)
      → All (λ d. fits config need d.1 ≡ true → v ≤ d.1) l
  unfolding fitting
  All-fitting v [] h = tt
  All-fitting v ((id, w) ∷ l) h = elim (Bool-cases (fits config need w)) [
    | inl fit_here ↦ let (le, rest) = (rw fit_here at h) in (λ e. le, All-fitting v l rest)
    | inr unfit ↦ (λ e. absurd (cc), All-fitting v l (rw unfit at h))
  ]

  fitting-none :
      (l : List Coin) → fitting config need l ≡ [] → All (λ d. fits config need d.1 ≡ false) l
  unfolding fitting
  fitting-none [] h = tt
  fitting-none ((id, w) ∷ l) h = elim (Bool-cases (fits config need w)) [
    | inl fit_here ↦ absurd (let e = (rw fit_here at h) in cc)
    | inr unfit ↦ (unfit, fitting-none l (rw unfit at h))
  ]

-- What a withdrawal may take, and the two reasons for refusing it.
pub data Picked (coins : List Coin) (config : ConnectorConfig) (balance fee miner_fee : ℕ)
    : Option (List ℕ) → Type 0 where
  uncovered : balance ≤ fee + miner_fee → Picked coins config balance fee miner_fee none
  no_coin :
      fee + miner_fee < balance
      → All (λ d. fits config (balance - fee) d.1 ≡ false) coins
      → Picked coins config balance fee miner_fee none
  best :
      (id : List ℕ) (value : ℕ)
      → fee + miner_fee < balance
      → Has (id, value) coins
      → fits config (balance - fee) value ≡ true
      → All (λ d. fits config (balance - fee) d.1 ≡ true → value ≤ d.1) coins
      → Picked coins config balance fee miner_fee (some (colon_for_at id))

picked :
    (coins : List Coin) (config : ConnectorConfig) (balance fee miner_fee : ℕ) (s : List Coin)
    → fee + miner_fee < balance
    → HeadOf s (fitting config (balance - fee) coins)
    → Picked coins config balance fee miner_fee (first_id s)
unfolding first_id
picked coins config balance fee miner_fee [] covered h =
    no_coin covered (fitting-none config (balance - fee) coins h)
picked coins config balance fee miner_fee ((id, v) ∷ s) covered (has, least) =
    let (there, fit) = Has-fitting config (balance - fee) (id, v) coins has in
    best id v covered there fit (All-fitting config (balance - fee) v coins least)

unless_covered :
    (coins : List Coin) (config : ConnectorConfig) (balance fee miner_fee : ℕ) (o : Option (List ℕ))
    → (fee + miner_fee < balance → Picked coins config balance fee miner_fee o)
    → Picked coins config balance fee miner_fee (if leb balance (fee + miner_fee) then none else o)
unless_covered coins config balance fee miner_fee o h =
    elim (Bool-cases (leb balance (fee + miner_fee))) [
      | inl low ↦ rw low (uncovered (ground arith))
      | inr high ↦ rw high (h (ground arith))
    ]

-- Whatever order the ids are sorted in: picking a coin throws exactly where the balance does not exceed the
-- fees or no coin fits, and otherwise gives the id of a coin of the set that pays the need exactly or
-- leaves enough change, and than which no coin that does so is smaller.
pub pick_coin-Picked :
    (in_order : List ℕ → List ℕ → Bool) (coins : List Coin) (config : ConnectorConfig)
    (balance miner_fee : ℕ)
    → Picked coins config balance
        (bridge_fee config balance)
        miner_fee
        (pick_coin in_order coins config balance miner_fee)
unfolding pick_coin
pick_coin-Picked in_order coins config balance miner_fee =
    let fee = bridge_fee config balance in
    unless_covered coins config balance fee miner_fee _ (λ covered.
      picked coins config balance fee miner_fee _ covered
        (sort-HeadOf in_order (fitting config (balance - fee) coins)))
