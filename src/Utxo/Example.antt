-- ===== src/Utxo/Example.antt =====
-- Tests and instances for base58, base58check and the Zcash addresses.
use whm.Prelude.{ℕ, ◌+◌, ◌*◌, ◌%◌}
use whm.Prelude.{◌≡◌, refl, arith}
use whm.Prelude.{none, some}
use whm.Prelude.{List, [], ◌∷◌}
use whm.Prelude.{replicate, All}
use whm.Prelude.Radix.{emit_digits, eval}
use whm.Prelude.Text.{Bytes, codes, IsByte, bytes_eq, to_hex, hex_digit}
use whm.Utxo.Base58.{
  decode_base58, encode_base58, decode_base58_check, encode_base58_check, index_of, symbol,
}
use whm.Utxo.Base58.RoundTrip.{decode-encode, encode-decode}
use whm.Utxo.Base58.Check.{IsDigest, decode_check-encode, encode-decode_check}
use whm.Utxo.Zcash
use whm.Utxo.Zcash.{with_0x, is_transparent, includes}
use whm.Utxo.Zcash.RoundTrip

encodes : encode_base58 (0 ∷ 0 ∷ 1 ∷ 255 ∷ []) ≡ codes "119p"
unfolding encode_base58 emit_digits eval symbol
encodes = refl

decodes : decode_base58 (codes "119p") ≡ some (0 ∷ 0 ∷ 1 ∷ 255 ∷ [])
unfolding decode_base58 emit_digits index_of
decodes = refl

refuses : decode_base58 (codes "10") ≡ none
unfolding decode_base58 index_of
refuses = refl

decode-encode_example : decode_base58 (encode_base58 (0 ∷ 7 ∷ 200 ∷ [])) ≡ some (0 ∷ 7 ∷ 200 ∷ [])
decode-encode_example = decode-encode (0 ∷ 7 ∷ 200 ∷ []) (omega arith)

encode-decode_example :
    (encode_base58 (0 ∷ 0 ∷ 1 ∷ 255 ∷ []) ≡ codes "119p") × All IsByte (0 ∷ 0 ∷ 1 ∷ 255 ∷ [])
encode-decode_example = encode-decode (codes "119p") (0 ∷ 0 ∷ 1 ∷ 255 ∷ []) decodes

-- A digest of the right shape, standing in for SHA-256.
abbrev toy_sum : Bytes → ℕ
toy_sum [] = 0
toy_sum (b ∷ bs) = b + 3 * toy_sum bs

abbrev toy_digest : Bytes → Bytes
toy_digest bs = (toy_sum bs % 256) ∷ replicate 31 9

toy-IsDigest : IsDigest toy_digest
toy-IsDigest = record { size = λ b. refl; bytes = λ b. omega arith }

abbrev body : Bytes
body = 0x1c ∷ 0xb8 ∷ replicate 20 7

abbrev address : List ℕ
address = encode_base58_check toy_digest body

decode_check-encode_example : decode_base58_check toy_digest address ≡ some body
decode_check-encode_example =
    decode_check-encode toy_digest toy-IsDigest body (omega arith) (omega arith)

encode-decode_check_example : encode_base58_check toy_digest body ≡ address
encode-decode_check_example =
    encode-decode_check toy_digest address body decode_check-encode_example

encoded : Zcash.encode toy_digest address ≡ some (with_0x body)
unfolding Zcash.encode is_transparent includes bytes_eq to_hex hex_digit
encoded = rw (Zcash.encode, decode_check-encode_example)

decode-encode_address_example : Zcash.decode toy_digest (with_0x body) ≡ some address
decode-encode_address_example =
    RoundTrip.decode-encode_address toy_digest address (with_0x body) encoded

encode-decode_address_example : Zcash.encode toy_digest address ≡ some (with_0x body)
encode-decode_address_example =
    RoundTrip.encode-decode_address toy_digest body address toy-IsDigest (omega arith)
      decode-encode_address_example
