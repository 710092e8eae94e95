-- ===== src/Scan/ZcashAddress.antt =====
-- agents/scan/src/chains/zcash/address.ts (with consts.ts): the indexer's own base58check encoder
-- for transparent addresses. A `Buffer` is the list of its bytes.
pub mod Agrees
use whm.Prelude.{ℕ, zero, suc, ◌+◌, ◌-◌, ◌*◌, ◌/◌, ◌%◌, ◌^◌, ◌≤◌, ◌<◌, min, String}
use whm.Prelude.{◌≡◌, refl, sym, ap, ◌∙◌, ◌≢◌, ◌↔◌, ◌⊎◌, inl, inr, arith}
use whm.Prelude.{Bool, true, false, not, ◌&&◌, ◌||◌, Option, none, some}
use whm.Prelude.{List, [], ◌∷◌, ◌++◌, map, append-nil, append_assoc}
use whm.Prelude.{ltb, leb, ◌==◌, if◌then◌else◌, ltb→lt, lt→ltb, ==_iff, Bool-cases, Option-cases}
use whm.Prelude.{length, get_elem?, take, drop, replicate, All, All-append}
use whm.Prelude.{length-append, take-append-drop, length-take, length-drop, length-replicate}
use whm.Prelude.{take-append, drop-append}
use whm.Prelude.Radix.{emit_digits, eval}
use whm.Prelude.Text.{Bytes, codes, from_hex}

abbrev pub alphabet : List ℕ
alphabet = codes "123456789ABCDEFGHJKLMNPQRSTUVWXYZabcdefghijkmnopqrstuvwxyz"

-- Mainnet transparent address versions.
abbrev pub t1 : ℕ
t1 = 0x1cb8

abbrev pub t3 : ℕ
t3 = 0x1cbd

unfoldable pub char_of : ℕ → ℕ
char_of i = elim (get_elem? alphabet i) [ none ↦ 0 | some c ↦ c ]

-- `b.readUInt16BE(0)`
unfoldable pub version_of : Bytes → ℕ
version_of [] = 0
version_of (hi ∷ []) = 0
version_of (hi ∷ lo ∷ rest) = 256 * hi + lo

prepend_ones : Bytes → List ℕ → List ℕ
prepend_ones [] out = out
prepend_ones (byte ∷ full) out = elim (byte == 0) [
  | true ↦ prepend_ones full (b'1' ∷ out)
  | false ↦ out
]

module _ (sha256 : Bytes → Bytes) where
  -- `none` is null. A text argument is read by `Buffer.from` first.
  unfoldable pub encode_address : Bytes → Option (List ℕ)
  unfolding prepend_ones
  encode_address b =
      if not (length b == 22)
      then none
      else let version = version_of b in
        if not (version == t1) && not (version == t3)
        then none
        else let full = b ++ take 4 (sha256 (sha256 b)) in
          some (prepend_ones full (emit_digits char_of 58 (eval 256 0 full) []))

  -- The address that a 20-byte hash names under a version (`!` on the result of `encodeAddress`).
  unfoldable pub address_of : ℕ → Bytes → Option (List ℕ)
  unfolding encode_address
  address_of version hash = encode_address ((version / 256 % 256) ∷ (version % 256) ∷ hash)
