-- ===== src/Scan/ZcashAddress/Agrees.antt =====
-- The indexer's encoder beside the withdrawal relayer's decoder.
use whm.Prelude.{ℕ, zero, suc, ◌<◌}
use whm.Prelude.{◌≡◌, refl, arith}
use whm.Prelude.{not, ◌&&◌, none, some}
use whm.Prelude.{List, [], ◌∷◌, ◌++◌}
use whm.Prelude.{◌==◌, if◌then◌else◌}
use whm.Prelude.{take, All}
use whm.Prelude.Radix.{emit_digits, eval}
use whm.Prelude.Text.{Bytes, IsByte, bytes_eq, to_hex, hex_digit}
use whm.Utxo.Base58.{encode_base58_check, encode_base58, symbol, unshift_ones, checksum}
use whm.Utxo.Zcash
use whm.Utxo.Zcash.RoundTrip.{from_hex-with_0x}
use whm.Utxo.Zcash.{is_transparent, with_0x, includes, versions}
use whm.Scan.ZcashAddress.{encode_address, version_of, prepend_ones, char_of, t1, t3}

versions-agree :
    (hi lo : ℕ) (rest : Bytes)
    → hi < 256
    → lo < 256
    → includes versions (to_hex (take 2 (hi ∷ lo ∷ rest)))
      ≡ not (not (version_of (hi ∷ lo ∷ rest) == t1) && not (version_of (hi ∷ lo ∷ rest) == t3))
unfolding includes to_hex bytes_eq version_of hex_digit
versions-agree hi lo rest h k = ground arith

prepend_ones-unshift_ones : (bs : Bytes) (out : List ℕ) → prepend_ones bs out ≡ unshift_ones bs out
unfolding prepend_ones unshift_ones
prepend_ones-unshift_ones [] out = refl
prepend_ones-unshift_ones (zero ∷ bs) out = prepend_ones-unshift_ones bs (b'1' ∷ out)
prepend_ones-unshift_ones (suc b ∷ bs) out = ground arith

-- The text that the indexer prints for a buffer with its checksum.
same_text :
    (sha256 : Bytes → Bytes) (b : Bytes)
    → prepend_ones
        (b ++ take 4 (sha256 (sha256 b)))
        (emit_digits char_of 58 (eval 256 0 (b ++ take 4 (sha256 (sha256 b)))) [])
      ≡ encode_base58_check sha256 b
unfolding encode_base58_check encode_base58 checksum char_of symbol
same_text sha256 b = prepend_ones-unshift_ones _ _

by_version :
    (sha256 : Bytes → Bytes) (b : Bytes)
    → All IsByte b
    → encode_address sha256 b
      ≡ (if is_transparent b then some (encode_base58_check sha256 b) else none)
unfolding encode_address is_transparent
by_version sha256 [] h = refl
by_version sha256 (x ∷ []) h = refl
by_version sha256 (hi ∷ lo ∷ rest) (p, (q, r)) =
    ground (arith, versions-agree hi lo rest p q, same_text sha256 (hi ∷ lo ∷ rest))

-- For every buffer of bytes, of any length and version, the indexer prints the address that the
-- relayer decodes from the same bytes behind 0x, and both refuse the same buffers.
pub encode_address-decode :
    (sha256 : Bytes → Bytes) (b : Bytes)
    → All IsByte b
    → encode_address sha256 b ≡ Zcash.decode sha256 (with_0x b)
unfolding Zcash.decode
encode_address-decode sha256 b h = rw (from_hex-with_0x b h) (by_version sha256 b h)
