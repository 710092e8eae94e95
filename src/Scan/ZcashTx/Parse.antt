-- ===== src/Scan/ZcashTx/Parse.antt =====
-- agents/scan/src/chains/zcash/tx.ts: `parseTx`. Null and a throw are both `none`.
use whm.Prelude.{ℕ, zero, suc, ◌%◌, ◌^◌}
use whm.Prelude.{Option, none, some}
use whm.Prelude.{List, [], ◌∷◌, ◌++◌}
use whm.Prelude.{ltb, leb, if◌then◌else◌}
use mathlib.Core.List.{reverse}
use whm.Prelude.Text.{Bytes, to_hex, to_string}
use whm.Scan.ZcashTx.Reader.{Reader, ◌>>=◌, ◌>>◌, pure, throws, result}
use whm.Scan.ZcashTx.Reader.{read_bytes, skip, read_le, compact}
use whm.Scan.ZcashTx.Script.{signer, payee}

pub record TxInput : Type 0 where
  pub prevout : List ℕ
  pub address : Option (List ℕ)

pub record TxOutput : Type 0 where
  pub value : ℕ
  pub address : Option (List ℕ)

pub record ZcashTx : Type 0 where
  pub version : ℕ
  pub inputs : List TxInput
  pub outputs : List TxOutput

unfoldable pub prevout_of : Bytes → ℕ → List ℕ
prevout_of txid vout = to_hex (reverse txid) ++ b':' ∷ to_string vout

-- `b.readUInt32LE(0) & 0x7fffffff`
unfoldable pub version_of : ℕ → ℕ
version_of word = word % 2 ^ 31

lift : {A : Type 0} → Option A → Reader A
lift none = throws
lift (some a) = pure a

-- `if (version >= 5) r.skip(12)`
unfoldable pub skip_branch : ℕ → Reader Bytes
skip_branch version = if leb 5 version then skip 12 else pure []

-- The two `for` loops, over the count that is left.
unfoldable pub read_many : {A : Type 0} → Reader A → ℕ → Reader (List A)
read_many one zero = pure []
read_many one (suc count) = do a ← one; rest ← read_many one count; pure (a ∷ rest)

-- No script hash is made for an output.
module _ (sha256 : Bytes → Bytes) where
  unfoldable pub read_output : Reader TxOutput
  read_output = do
    value ← read_le 8
    size ← compact
    script ← read_bytes size
    pure (record { value = value; address = payee sha256 script })

module _ (sha256 ripemd160 : Bytes → Bytes) where
  unfoldable pub read_input : Reader TxInput
  unfolding lift
  read_input = do
    txid ← read_bytes 32
    vout ← read_le 4
    size ← compact
    script ← read_bytes size
    skip 4
    address ← lift (signer sha256 ripemd160 script)
    pure (record { prevout = prevout_of txid vout; address = address })

  -- The two loops, and what they found.
  unfoldable pub read_bundle : ℕ → Reader ZcashTx
  read_bundle version = do
    spent ← compact
    inputs ← read_many read_input spent
    paid ← compact
    outputs ← read_many (read_output sha256) paid
    pure (record { version = version; inputs = inputs; outputs = outputs })

  unfoldable pub read_body : ℕ → Reader ZcashTx
  read_body version = do skip 4; skip_branch version; read_bundle version

  unfoldable pub read_version : ℕ → Reader ZcashTx
  read_version version = if ltb version 4 then throws else read_body version

  unfoldable pub read_tx : Reader ZcashTx
  read_tx = do word ← read_le 4; read_version (version_of word)

  unfoldable pub parse_tx : Bytes → Option ZcashTx
  parse_tx raw = result (read_tx raw)
