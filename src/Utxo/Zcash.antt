-- ===== src/Utxo/Zcash.antt =====
-- agents/utxo/src/chains/zcash.ts: transparent Zcash addresses, as text and as the emitter's bytes.
pub mod RoundTrip
use whm.Prelude.{ℕ, zero, suc, ◌+◌, ◌-◌, ◌*◌, ◌/◌, ◌%◌, ◌^◌, ◌≤◌, ◌<◌, min, String}
use whm.Prelude.{◌≡◌, refl, sym, ap, ◌∙◌, ◌≢◌, ◌↔◌, ◌⊎◌, inl, inr, arith}
use whm.Prelude.{Bool, true, false, not, ◌&&◌, ◌||◌, Option, none, some}
use whm.Prelude.{List, [], ◌∷◌, ◌++◌, map, append-nil, append_assoc}
use whm.Prelude.{ltb, leb, ◌==◌, if◌then◌else◌, ltb→lt, lt→ltb, ==_iff, Bool-cases, Option-cases}
use whm.Prelude.{length, get_elem?, take, drop, replicate, All, All-append}
use whm.Prelude.{length-append, take-append-drop, length-take, length-drop, length-replicate}
use whm.Prelude.{take-append, drop-append}
use whm.Prelude.Text.{Bytes, codes, bytes_eq, to_hex, from_hex}
use whm.Utxo.Base58.{decode_base58_check, encode_base58_check}

-- Mainnet transparent versions: t1 (P2PKH), t3 (P2SH).
abbrev pub versions : List (List ℕ)
versions = codes "1cb8" ∷ codes "1cbd" ∷ []

-- `VERSIONS.includes(v)`
unfoldable pub includes : List (List ℕ) → List ℕ → Bool
includes [] v = false
includes (x ∷ xs) v = bytes_eq x v || includes xs v

-- 22 bytes under a known version.
unfoldable pub is_transparent : Bytes → Bool
is_transparent body = length body == 22 && includes versions (to_hex (take 2 body))

-- Behind `0x`, on the way to the emitter and back.
unfoldable pub with_0x : Bytes → List ℕ
with_0x body = b'0' ∷ b'x' ∷ to_hex body

module _ (sha256 : Bytes → Bytes) where
  accepted : Option Bytes → Option (List ℕ)
  accepted none = none
  accepted (some body) = if is_transparent body then some (with_0x body) else none

  -- `none` is the `null` of an address that the emitter would refuse.
  unfoldable pub encode : List ℕ → Option (List ℕ)
  unfolding accepted
  encode address = accepted (decode_base58_check sha256 address)

  -- `none` is the throw on bytes that are no transparent address.
  unfoldable pub decode : List ℕ → Option (List ℕ)
  decode bytes =
      let body = from_hex (drop 2 bytes) in
      if is_transparent body then some (encode_base58_check sha256 body) else none

-- ZIP-317: one input and two outputs.
abbrev pub miner_fee : ℕ
miner_fee = 10_000
