-- ===== src/Relayer/Fees/Example.antt =====
-- A node without a priority fee, and an instance of the theorem at it.
use whm.Prelude.{refl, arith}
use whm.Prelude.{none, some}
use whm.Relayer.Fees.{Client, priority_fee, chain_fees}
use whm.Relayer.Fees.Covers.{Covers, chain_fees-Covers}

abbrev node : Client
node = record { block = some (some 70); gas_price = none; priority_fee = none; estimate = none }

chain_fees-Covers_example :
    Covers 140 (priority_fee node.priority_fee) (chain_fees 222_222 222_222 node)
chain_fees-Covers_example = chain_fees-Covers 222_222 node 70 140 refl (omega arith) (omega arith)
