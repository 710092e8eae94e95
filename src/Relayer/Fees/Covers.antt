-- ===== src/Relayer/Fees/Covers.antt =====
-- What the fees offered to Hydration cover.
use whm.Prelude.{ℕ, zero, suc, ◌+◌, ◌*◌, ◌≤◌, ◌<◌}
use whm.Prelude.{◌≡◌, refl, arith}
use whm.Prelude.{true, Option, none, some}
use whm.Prelude.{◌==◌}
use whm.Relayer.Fees.{FeeOverrides, legacy, eip1559, Client, priority_fee, fees_at, chain_fees}

-- Fees that a block of this base fee takes, tip included.
abbrev pub Covers : ℕ → ℕ → Option FeeOverrides → Type 0
Covers base tip none = ⊥
Covers base tip (some (legacy price)) = ⊥
Covers base tip (some (eip1559 fee paid)) = (base + tip ≤ fee) × (paid ≡ tip)

fees_at-Covers :
    (client : Client) (base later : ℕ) (o : Option (Option ℕ))
    → o ≡ some (some base)
    → 0 < base
    → later ≤ base * 2
    → Covers later (priority_fee client.priority_fee) (fees_at true client o)
unfolding fees_at
fees_at-Covers client base later none e pos le = absurd (cc)
fees_at-Covers client base later (some none) e pos le = absurd (cc)
fees_at-Covers client base later (some (some zero)) e pos le =
    absurd (let k : zero ≡ base = cc in omega arith)
fees_at-Covers client base later (some (some (suc b))) e pos le =
    let k : suc b ≡ base = cc in (omega arith, refl)

-- For Hydration, if the latest block has a base fee, the fees cover any block whose base fee is at most twice
-- that, with the priority fee that the node asks for, which is zero where the node does not say.
pub chain_fees-Covers :
    (hydration : ℕ) (client : Client) (base later : ℕ)
    → client.block ≡ some (some base)
    → 0 < base
    → later ≤ base * 2
    → Covers later (priority_fee client.priority_fee) (chain_fees hydration hydration client)
unfolding chain_fees
chain_fees-Covers hydration client base later has pos le =
    let same : (hydration == hydration) ≡ true = ground arith in
    rw same (fees_at-Covers client base later client.block has pos le)
