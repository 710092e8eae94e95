-- ===== src/Scan/Example.antt =====
-- Instances of the indexer's theorems.
use whm.Prelude.{◌≡◌, ◌∷◌, replicate, arith}
use whm.Prelude.Text.{Bytes}
use whm.Utxo.Zcash
use whm.Utxo.Zcash.{with_0x}
use whm.Scan.ZcashAddress.{encode_address}
use whm.Scan.ZcashAddress.Agrees.{encode_address-decode}

abbrev toy_digest : Bytes → Bytes
toy_digest bs = replicate 32 9

abbrev t3_body : Bytes
t3_body = 0x1c ∷ 0xbd ∷ replicate 20 5

encode_address-decode_example :
    encode_address toy_digest t3_body ≡ Zcash.decode toy_digest (with_0x t3_body)
encode_address-decode_example = encode_address-decode toy_digest t3_body (omega arith)
