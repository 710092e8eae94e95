-- ===== src/Utxo/Base58.antt =====
-- agents/utxo/src/chains/base58.ts. A text is the list of its characters' codes, a `Buffer` the
-- list of its bytes, and `none` stands for a throw or for the function's own `null`.
pub mod RoundTrip
pub mod Check
use whm.Prelude.{ℕ, zero, suc, ◌+◌, ◌-◌, ◌*◌, ◌/◌, ◌%◌, ◌<◌, Bool, true, false, Option, none, some}
use whm.Prelude.{List, [], ◌∷◌, ◌++◌, ltb, ◌==◌, if◌then◌else◌, length, take, drop, get_elem?}
use whm.Prelude.Radix.{emit_digits, eval}
use whm.Prelude.Text.{Bytes, codes, bytes_eq}

abbrev pub alphabet : List ℕ
alphabet = codes "123456789ABCDEFGHJKLMNPQRSTUVWXYZabcdefghijkmnopqrstuvwxyz"

-- `text.indexOf(c)`, where `none` is -1.
unfoldable pub index_of : List ℕ → ℕ → Option ℕ
index_of [] c = none
index_of (x ∷ xs) c = elim (x == c) [
  | true ↦ some 0
  | false ↦ elim (index_of xs c) [ none ↦ none | some i ↦ some (suc i) ]
]

-- `ALPHABET[i]`; every index that the code uses is below 58.
unfoldable pub symbol : ℕ → ℕ
symbol i = elim (get_elem? alphabet i) [ none ↦ 0 | some c ↦ c ]

-- `n = n * 58n + BigInt(i)` over the characters.
scan : ℕ → List ℕ → Option ℕ
scan n [] = some n
scan n (c ∷ text) = elim (index_of alphabet c) [ none ↦ none | some i ↦ scan (n * 58 + i) text ]

-- One zero byte for each leading '1'.
unshift_zeros : List ℕ → Bytes → Bytes
unshift_zeros [] bytes = bytes
unshift_zeros (c ∷ text) bytes = elim (c == b'1') [
  | true ↦ unshift_zeros text (0 ∷ bytes)
  | false ↦ bytes
]

unfoldable pub decode_base58 : List ℕ → Option Bytes
unfolding scan unshift_zeros
decode_base58 text = elim (scan 0 text) [
  | none ↦ none
  | some n ↦ some (unshift_zeros text (emit_digits (λ d. d) 256 n []))
]

-- One '1' for each leading zero byte.
unfoldable pub unshift_ones : Bytes → List ℕ → List ℕ
unshift_ones [] out = out
unshift_ones (b ∷ bytes) out = elim (b == 0) [
  | true ↦ unshift_ones bytes (b'1' ∷ out)
  | false ↦ out
]

unfoldable pub encode_base58 : Bytes → List ℕ
unfolding unshift_ones
encode_base58 bytes = unshift_ones bytes (emit_digits symbol 58 (eval 256 0 bytes) [])

-- SHA-256 is the platform's.
module _ (sha256 : Bytes → Bytes) where
  unfoldable pub checksum : Bytes → Bytes
  checksum body = take 4 (sha256 (sha256 body))

  verified : Bytes → Option Bytes
  verified raw =
      if ltb (length raw) 5
      then none
      else let body = take (length raw - 4) raw in
        if bytes_eq (checksum body) (drop (length raw - 4) raw) then some body else none

  unfoldable pub decode_base58_check : List ℕ → Option Bytes
  unfolding verified
  decode_base58_check text = elim (decode_base58 text) [ none ↦ none | some raw ↦ verified raw ]

  unfoldable pub encode_base58_check : Bytes → List ℕ
  encode_base58_check body = encode_base58 (body ++ checksum body)
