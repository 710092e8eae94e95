-- ===== src/Utxo/Base58/Check.antt =====
-- Base58check text and payloads, there and back.
use whm.Prelude.{ℕ, zero, suc, ◌+◌, ◌-◌, ◌<◌}
use whm.Prelude.{◌≡◌, inl, inr, arith}
use whm.Prelude.{false, some}
use whm.Prelude.{List, [], ◌∷◌, ◌++◌}
use whm.Prelude.{ltb, Option-cases}
use whm.Prelude.{length, take, drop, All, All-append}
use whm.Prelude.{length-append, take-append-drop, length-take}
use whm.Prelude.{take-append, drop-append}
use whm.Prelude.Text.{Bytes, IsByte, bytes_eq_sound, bytes_eq_refl}
use whm.Utxo.Base58.{checksum, verified, decode_base58, decode_base58_check, encode_base58_check}
use whm.Utxo.Base58.RoundTrip.{decode-encode, encode-decode}

All-take {ℓ κ} : {A : Type ℓ} (P : A → Type κ) (n : ℕ) (xs : List A) → All P xs → All P (take n xs)
All-take P zero xs h = tt
All-take P (suc n) [] h = tt
All-take P (suc n) (x ∷ xs) (h, hs) = (h, All-take P n xs hs)

-- What the platform's SHA-256 is relied on for: a digest is 32 bytes.
pub record IsDigest (sha256 : Bytes → Bytes) : Type 0 where
  pub size : (b : Bytes) → length (sha256 b) ≡ 32
  pub bytes : (b : Bytes) → All IsByte (sha256 b)

module _ (sha256 : Bytes → Bytes) where
  verified-append :
      (body : Bytes)
      → length (checksum sha256 body) ≡ 4
      → 0 < length body
      → verified sha256 (body ++ checksum sha256 body) ≡ some body
  unfolding verified
  verified-append body four some_body =
      let sum = checksum sha256 body in
      let n : length (body ++ sum) ≡ length body + 4 = omega (arith, length-append body sum) in
      let at : length body ≡ length (body ++ sum) - 4 = omega arith in
      let front : take (length (body ++ sum) - 4) (body ++ sum) ≡ body =
        take-append _ body sum at in
      let back : drop (length (body ++ sum) - 4) (body ++ sum) ≡ sum = drop-append _ body sum at in
      let big : ltb (length (body ++ sum)) 5 ≡ false = ground arith in
      rw (verified, big, front, back, bytes_eq_refl sum)

  verified-some :
      (raw body : Bytes) → verified sha256 raw ≡ some body → raw ≡ body ++ checksum sha256 body
  unfolding verified
  verified-some raw body h =
      let n = length raw - 4 in
      ground
        (arith, take-append-drop n raw, bytes_eq_sound (checksum sha256 (take n raw)) (drop n raw))

module _ (sha256 : Bytes → Bytes) (digest : IsDigest sha256) where
  length-checksum : (body : Bytes) → length (checksum sha256 body) ≡ 4
  unfolding checksum
  length-checksum body =
      omega (arith, length-take 4 (sha256 (sha256 body)), digest.size (sha256 body))

  All-checksum : (body : Bytes) → All IsByte (checksum sha256 body)
  unfolding checksum
  All-checksum body = All-take IsByte 4 _ (digest.bytes (sha256 body))

  -- A payload of at least one byte is decoded from its own encoding.
  pub decode_check-encode :
      (body : Bytes)
      → All IsByte body
      → 0 < length body
      → decode_base58_check sha256 (encode_base58_check sha256 body) ≡ some body
  unfolding decode_base58_check encode_base58_check
  decode_check-encode body h n =
      rw
        (
          decode_base58_check,
          decode-encode (body ++ checksum sha256 body)
              (All-append IsByte body _ h (All-checksum body)),
        )
        (verified-append sha256 body (length-checksum body) n)

-- A text that passes the check is the encoding of the payload returned, so a payload has one text.
pub encode-decode_check :
    (sha256 : Bytes → Bytes) (text : List ℕ) (body : Bytes)
    → decode_base58_check sha256 text ≡ some body
    → encode_base58_check sha256 body ≡ text
unfolding decode_base58_check encode_base58_check
encode-decode_check sha256 text body h = elim (Option-cases (decode_base58 text)) [
  | inl bad ↦ absurd (cc (rw (decode_base58_check, bad) at h))
  | inr (raw, good) ↦
      let ok : verified sha256 raw ≡ some body = rw (decode_base58_check, good) at h in
      rw (← verified-some sha256 raw body ok) (encode-decode text raw good).0
]

All-left {ℓ κ} : {A : Type ℓ} (P : A → Type κ) (xs ys : List A) → All P (xs ++ ys) → All P xs
All-left P [] ys h = tt
All-left P (x ∷ xs) ys (h, hs) = (h, All-left P xs ys hs)

pub All-decode_check :
    (sha256 : Bytes → Bytes) (text : List ℕ) (body : Bytes)
    → decode_base58_check sha256 text ≡ some body
    → All IsByte body
unfolding decode_base58_check
All-decode_check sha256 text body h = elim (Option-cases (decode_base58 text)) [
  | inl bad ↦ absurd (cc (rw (decode_base58_check, bad) at h))
  | inr (raw, good) ↦
      let ok : verified sha256 raw ≡ some body = rw (decode_base58_check, good) at h in
      let all = (encode-decode text raw good).1 in
      let whole : All IsByte (body ++ checksum sha256 body) =
        rw (verified-some sha256 raw body ok) at all in
      All-left IsByte body (checksum sha256 body) whole
]
