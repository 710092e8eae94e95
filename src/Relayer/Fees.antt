-- ===== src/Relayer/Fees.antt =====
-- agents/relayer/src/utils/fees.ts: the fees of a submission. What the client answers is a parameter, `none`
-- where a call throws or a field is absent; a base fee of zero counts as absent.
pub mod Covers
mod Example
use whm.Prelude.{ℕ, zero, suc, ◌+◌, ◌-◌, ◌*◌, ◌/◌, ◌%◌, ◌^◌, ◌≤◌, ◌<◌, min, String}
use whm.Prelude.{◌≡◌, refl, sym, ap, ◌∙◌, ◌≢◌, ◌↔◌, ◌⊎◌, inl, inr, arith}
use whm.Prelude.{Bool, true, false, not, ◌&&◌, ◌||◌, Option, none, some}
use whm.Prelude.{List, [], ◌∷◌, ◌++◌, map, append-nil, append_assoc}
use whm.Prelude.{ltb, leb, ◌==◌, if◌then◌else◌, ltb→lt, lt→ltb, ==_iff, Bool-cases, Option-cases}
use whm.Prelude.{length, get_elem?, take, drop, replicate, All, All-append}
use whm.Prelude.{length-append, take-append-drop, length-take, length-drop, length-replicate}
use whm.Prelude.{take-append, drop-append}
use whm.Prelude.{str_eq, eq_iff, eq_refl}

pub data FeeOverrides : Type 0 where
  legacy : (gas_price : ℕ) → FeeOverrides
  eip1559 : (max_fee_per_gas : ℕ) → (max_priority_fee_per_gas : ℕ) → FeeOverrides

-- viem's estimate: each field where it is a bigint.
pub record Estimate : Type 0 where
  pub gas_price : Option ℕ
  pub max_fee_per_gas : Option ℕ
  pub max_priority_fee_per_gas : Option ℕ

pub record Client : Type 0 where
  pub block : Option (Option ℕ)
  pub gas_price : Option ℕ
  pub priority_fee : Option ℕ
  pub estimate : Option Estimate

-- `priorityFee`: zero where the method is not there.
unfoldable pub priority_fee : Option ℕ → ℕ
priority_fee none = 0
priority_fee (some fee) = fee

unfoldable pub as_legacy : Option ℕ → Option FeeOverrides
as_legacy none = none
as_legacy (some price) = some (legacy price)

unfoldable pub as_eip1559 : Option ℕ → Option ℕ → Option FeeOverrides
as_eip1559 none tip = none
as_eip1559 (some fee) none = none
as_eip1559 (some fee) (some tip) = some (eip1559 fee tip)

-- The shape check of an estimate.
unfoldable pub usable_fees : Option ℕ → Option ℕ → Option ℕ → Option FeeOverrides
usable_fees (some price) fee tip = some (legacy price)
usable_fees none fee tip = as_eip1559 fee tip

unfoldable pub estimated : Option Estimate → Option FeeOverrides
estimated none = none
estimated (some e) = usable_fees e.gas_price e.max_fee_per_gas e.max_priority_fee_per_gas

-- `none` is the throw.
unfoldable pub fees_at : Bool → Client → Option (Option ℕ) → Option FeeOverrides
fees_at is_hydration client none = none
fees_at is_hydration client (some none) = as_legacy client.gas_price
fees_at is_hydration client (some (some zero)) = as_legacy client.gas_price
fees_at is_hydration client (some (some (suc base))) =
    let tip = priority_fee client.priority_fee in
    if is_hydration then some (eip1559 (suc base * 2 + tip) tip) else estimated client.estimate

-- `hydration` is `HYDRATION_EVM_CHAIN_ID`.
unfoldable pub chain_fees : (hydration chain : ℕ) → Client → Option FeeOverrides
chain_fees hydration chain client = fees_at (chain == hydration) client client.block
