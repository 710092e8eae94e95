-- ===== src/Scan/ZcashTx/Script.antt =====
-- agents/scan/src/chains/zcash/tx.ts: `pushes`, `signer` and `payee`, what a script says about an address. `none` is a read
-- past the end, which throws; a null address is `some none`.
use whm.Prelude.{ℕ, zero, suc}
use whm.Prelude.{Bool, true, false, ◌&&◌, ◌||◌, Option, none, some}
use whm.Prelude.{List, [], ◌∷◌}
use whm.Prelude.{leb, ◌==◌, if◌then◌else◌}
use whm.Prelude.{length, take, drop}
use whm.Prelude.Text.{Bytes}
use whm.Prelude.LittleEndian.{le_value}
use whm.Scan.ZcashAddress.{address_of, t1, t3}

-- What an opcode announces.
pub data Opcode : Type 0 where
  -- This many bytes, and what follows it.
  size : ℕ → Bytes → Opcode
  -- A length byte that is not there: `undefined`, after which the loop's position is no number.
  unsized : Opcode
  -- A length past the end, which throws.
  short : Opcode
  -- No push.
  other : Opcode

-- `script[i++]`
unfoldable pub byte_size : Bytes → Opcode
byte_size [] = unsized
byte_size (n ∷ rest) = size n rest

-- `script.readUInt16LE(i)` and `script.readUInt32LE(i)`
unfoldable pub le_size : ℕ → Bytes → Opcode
le_size n rest = if leb n (length rest) then size (le_value (take n rest)) (drop n rest) else short

unfoldable pub opcode : ℕ → Bytes → Opcode
unfolding byte_size le_size
opcode op rest =
    if leb 1 op && leb op 75
    then size op rest
    else if op == 0x4c
    then byte_size rest
    else if op == 0x4d
    then le_size 2 rest
    else if op == 0x4e
    then le_size 4 rest
    else other

unfoldable pub prepend : Bytes → Option (List Bytes) → Option (List Bytes)
prepend d none = none
prepend d (some ds) = some (d ∷ ds)

-- A round of the `while`, with the rounds that follow.
unfoldable pub push : (Bytes → Option (List Bytes)) → Bytes → Opcode → Option (List Bytes)
unfolding prepend
push more rest (size n tail) = prepend (take n tail) (more (drop n tail))
push more rest unsized = some ([] ∷ [])
push more rest short = none
push more rest other = more rest

-- Each round takes an opcode, so that the script's length bounds the rounds.
unfoldable pub push_loop : ℕ → Bytes → Option (List Bytes)
unfolding push opcode
push_loop fuel [] = some []
push_loop zero (op ∷ rest) = none
push_loop (suc fuel) (op ∷ rest) = push (push_loop fuel) rest (opcode op rest)

unfoldable pub pushes : Bytes → Option (List Bytes)
unfolding push_loop
pushes script = push_loop (length script) script

-- `.at(-1)`
unfoldable pub last_of : List Bytes → Option Bytes
last_of [] = none
last_of (d ∷ []) = some d
last_of (d ∷ e ∷ ds) = last_of (e ∷ ds)

-- A compressed public key, or an uncompressed one.
unfoldable pub is_key : Bytes → Bool
is_key [] = false
is_key (b ∷ bs) = (length (b ∷ bs) == 33 && (b == 2 || b == 3)) || (length (b ∷ bs) == 65 && b == 4)

module _ (sha256 ripemd160 : Bytes → Bytes) where
  unfoldable pub hash160 : Bytes → Bytes
  hash160 b = ripemd160 (sha256 b)

  last_signer : Option Bytes → Option (List ℕ)
  last_signer none = none
  last_signer (some last) = address_of sha256 (if is_key last then t1 else t3) (hash160 last)

  signed : Option (List Bytes) → Option (Option (List ℕ))
  signed none = none
  signed (some ds) = some (last_signer (last_of ds))

  unfoldable pub signer : Bytes → Option (Option (List ℕ))
  unfolding signed last_signer
  signer script = signed (pushes script)

-- `script[i]`, which is no byte past the end.
unfoldable pub starts : Bytes → Bytes → Bool
starts [] script = true
starts (b ∷ bs) [] = false
starts (b ∷ bs) (c ∷ cs) = c == b && starts bs cs

module _ (sha256 : Bytes → Bytes) where
  unfoldable pub payee : Bytes → Option (List ℕ)
  unfolding starts
  payee script =
      if length script == 25 && starts (0x76 ∷ 0xa9 ∷ 0x14 ∷ []) script
      then address_of sha256 t1 (take 20 (drop 3 script))
      else if length script == 23 && starts (0xa9 ∷ 0x14 ∷ []) script
      then address_of sha256 t3 (take 20 (drop 2 script))
      else none
