-- ===== src/Utxo/Zcash/RoundTrip.antt =====
-- An address and the emitter's bytes for it, there and back.
use whm.Prelude.{ℕ, ◌<◌}
use whm.Prelude.{◌≡◌, refl, ap, inl, inr, arith}
use whm.Prelude.{true, Option, none, some}
use whm.Prelude.{List}
use whm.Prelude.{Bool-cases}
use whm.Prelude.{length, drop, All}
use whm.Prelude.Text.{Bytes, IsByte, from_hex, from_hex-to_hex}
use whm.Utxo.Base58.{encode_base58_check}
use whm.Utxo.Base58.Check.{IsDigest, decode_check-encode, encode-decode_check, All-decode_check}
use whm.Utxo.Zcash.{is_transparent, with_0x, accepted, encode, decode}

-- What an accepted payload tells of the result.
accepted-some :
    (sha256 : Bytes → Bytes) (o : Option Bytes) (bytes : List ℕ)
    → accepted sha256 o ≡ some bytes
    → (body : Bytes) × (o ≡ some body) × (is_transparent body ≡ true) × (bytes ≡ with_0x body)
unfolding accepted
accepted-some sha256 none bytes h = absurd (cc)
accepted-some sha256 (some body) bytes h = elim (Bool-cases (is_transparent body)) [
  | inl ok ↦ (body, refl, ok, ground arith)
  | inr bad ↦ absurd (ground arith)
]

pub from_hex-with_0x : (body : Bytes) → All IsByte body → from_hex (drop 2 (with_0x body)) ≡ body
unfolding with_0x
from_hex-with_0x body h = from_hex-to_hex body h

-- Whatever bytes `encode` hands to the emitter, `decode` reads the same address out of them.
pub decode-encode_address :
    (sha256 : Bytes → Bytes) (address bytes : List ℕ)
    → encode sha256 address ≡ some bytes
    → decode sha256 bytes ≡ some address
unfolding encode decode
decode-encode_address sha256 address bytes h =
    let (body, found, ok, same) = accepted-some sha256 _ bytes h in
    let back = from_hex-with_0x body (All-decode_check sha256 address body found) in
    rw (same, decode, back, ok) (ap some (encode-decode_check sha256 address body found))

length_of_transparent : (body : Bytes) → is_transparent body ≡ true → 0 < length body
unfolding is_transparent
length_of_transparent body h = ground arith

-- A transparent payload, behind 0x, is what `encode` gives for the address that `decode` reads.
pub encode-decode_address :
    (sha256 : Bytes → Bytes) (body : Bytes) (address : List ℕ)
    → IsDigest sha256
    → All IsByte body
    → decode sha256 (with_0x body) ≡ some address
    → encode sha256 address ≡ some (with_0x body)
unfolding decode encode with_0x
encode-decode_address sha256 body address digest h e = elim (Bool-cases (is_transparent body)) [
  | inl ok ↦
      let same : encode_base58_check sha256 body ≡ address =
        ground (arith, from_hex-with_0x body h) in
      let back = decode_check-encode sha256 digest body h (length_of_transparent body ok) in
      rw (← same, encode, back, accepted, ok)
  | inr bad ↦ absurd (ground (arith, from_hex-with_0x body h))
]
