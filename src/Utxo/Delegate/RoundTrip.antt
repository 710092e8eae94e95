-- ===== src/Utxo/Delegate/RoundTrip.antt =====
-- agents/utxo/src/near/delegate.ts: `decodeSignedDelegate` beside the borsh layout of a signed delegate.
use whm.Prelude.{ℕ, ◌+◌, ◌^◌, ◌<◌}
use whm.Prelude.{◌≡◌, refl, sym, ap, ◌∙◌, ◌↔◌, inl, inr, arith}
use whm.Prelude.{true, Option, none, some}
use whm.Prelude.{List, [], ◌∷◌, ◌++◌, append-nil}
use whm.Prelude.{◌==◌, ==_iff, Bool-cases}
use whm.Prelude.{length}
use mathlib.Core.Path.{subst}
use whm.Prelude.Text.{Bytes, bytes_eq, bytes_eq_sound, bytes_eq_refl}
use whm.Prelude.LittleEndian.{le_bytes}
use whm.Utxo.Delegate.{SignedDelegate, and_read, pure, str, at_end}
use whm.Utxo.Delegate.{read_fields, read_delegate, same_bytes, decode_signed_delegate}
use whm.Utxo.Delegate.Reads.{
  Reads, bind-Reads, pure-Reads, raw-Reads, read_le-Reads, last-Reads, counted-Reads,
  expect_u32-Reads, expect_byte-Reads,
}

-- Bytes behind their number.
abbrev pub vector : Bytes → Bytes
vector f = le_bytes 4 (length f) ++ f

module _ (to_utf8 : List ℕ → Bytes) where
  -- One function call, a key and a signature of ed25519.
  unfoldable pub borsh : SignedDelegate → Bytes
  borsh d =
      vector (to_utf8 d.sender_id)
      ++ (vector (to_utf8 d.receiver_id)
          ++ (le_bytes 4 1
              ++ (2 ∷ []
                  ++ (vector (to_utf8 d.method_name)
                      ++ (vector d.call_args
                          ++ (le_bytes 8 d.gas
                              ++ (le_bytes 16 d.deposit
                                  ++ (le_bytes 8 d.nonce
                                      ++ (le_bytes 8 d.max_block_height
                                          ++ (0 ∷ []
                                              ++ (d.public_key ++ (0 ∷ [] ++ d.signature))))))))))))

  module _ (utf8 : Bytes → List ℕ) where
    -- The texts are read back from UTF-8, and the numbers fit their fields.
    pub record IsDelegate (d : SignedDelegate) : Type 0 where
      pub sender : length (to_utf8 d.sender_id) < 256 ^ 4
      pub receiver : length (to_utf8 d.receiver_id) < 256 ^ 4
      pub method : length (to_utf8 d.method_name) < 256 ^ 4
      pub args : length d.call_args < 256 ^ 4
      pub gas_64 : d.gas < 256 ^ 8
      pub deposit_128 : d.deposit < 256 ^ 16
      pub nonce_64 : d.nonce < 256 ^ 8
      pub height_64 : d.max_block_height < 256 ^ 8
      pub key_32 : length d.public_key ≡ 32
      pub sender_text : utf8 (to_utf8 d.sender_id) ≡ d.sender_id
      pub receiver_text : utf8 (to_utf8 d.receiver_id) ≡ d.receiver_id
      pub method_text : utf8 (to_utf8 d.method_name) ≡ d.method_name
      pub signature_64 : length d.signature ≡ 64

    str-Reads :
        (t : List ℕ)
        → utf8 (to_utf8 t) ≡ t
        → length (to_utf8 t) < 256 ^ 4
        → Reads (str utf8) (vector (to_utf8 t)) t
    unfolding str
    str-Reads t kept small =
        let back : Reads (pure (utf8 (to_utf8 t))) [] t =
          subst (λ (u : List ℕ). Reads (pure (utf8 (to_utf8 t))) [] u) kept
            (pure-Reads (utf8 (to_utf8 t))) in
        last-Reads _ (counted-Reads (to_utf8 t) small) back

    fields-Reads : (d : SignedDelegate) → IsDelegate d → Reads (read_fields utf8) (borsh d) d
    unfolding read_fields borsh
    fields-Reads d v = bind-Reads _ (str-Reads d.sender_id v.sender_text v.sender) (
        bind-Reads _ (str-Reads d.receiver_id v.receiver_text v.receiver) (
          bind-Reads _ (expect_u32-Reads 1 (omega arith)) (
            bind-Reads _ (expect_byte-Reads 2) (
              bind-Reads _ (str-Reads d.method_name v.method_text v.method) (
                bind-Reads _ (counted-Reads d.call_args v.args) (
                  bind-Reads _ (read_le-Reads 8 d.gas v.gas_64) (
                    bind-Reads _ (read_le-Reads 16 d.deposit v.deposit_128) (
                      bind-Reads _ (read_le-Reads 8 d.nonce v.nonce_64) (
                        bind-Reads _ (read_le-Reads 8 d.max_block_height v.height_64) (
                          bind-Reads _ (expect_byte-Reads 0) (
                            bind-Reads _ (raw-Reads 32 d.public_key v.key_32) (
                              bind-Reads _ (expect_byte-Reads 0) (
                                last-Reads _ (raw-Reads 64 d.signature v.signature_64)
                                  (pure-Reads d))))))))))))))

    read_delegate-borsh :
        (d : SignedDelegate)
        → IsDelegate d
        → read_delegate utf8 (borsh d) 0 ≡ some (d, length (borsh d))
    unfolding read_delegate at_end
    read_delegate-borsh d v =
        let whole : borsh d ≡ borsh d ++ [] = sym (append-nil (borsh d)) in
        let behind : 0 + length (borsh d) ≡ length (borsh d) = omega arith in
        let same : (length (borsh d) == length (borsh d)) ≡ true = (==_iff _ _).1 refl in
        rw ((fields-Reads d v).apply (borsh d) [] 0 whole, and_read, behind, same) refl

    same_bytes-some :
        (encode : SignedDelegate → Bytes) (d : SignedDelegate) (bytes : Bytes)
        (r : Option (SignedDelegate × ℕ))
        → same_bytes utf8 encode bytes r ≡ some d
        → bytes ≡ encode d
    unfolding same_bytes
    same_bytes-some encode d bytes none h = cc
    same_bytes-some encode d bytes (some (c, at)) h =
        elim (Bool-cases (bytes_eq (encode c) bytes)) [
          | inl same ↦
              let found : some c ≡ some d = (rw same at h) in
              let which : c ≡ d = cc in sym (bytes_eq_sound (encode c) bytes same) ∙ ap encode which
          | inr other ↦ let bad = (rw other at h) in cc
        ]

    -- Where the library's encoder writes the borsh layout: bytes are decoded to a delegate whose texts are read back from
    -- UTF-8 and whose numbers, key and signature fit their fields exactly when they are its borsh bytes.
    pub decode_signed_delegate_iff :
        (encode : SignedDelegate → Bytes)
        → ((d : SignedDelegate) → encode d ≡ borsh d)
        → (d : SignedDelegate) (bytes : Bytes) → IsDelegate d
        → (decode_signed_delegate utf8 encode bytes ≡ some d) ↔ (bytes ≡ borsh d)
    unfolding decode_signed_delegate same_bytes
    decode_signed_delegate_iff encode writes d bytes v = (
      λ h. same_bytes-some encode d bytes (read_delegate utf8 bytes 0) h ∙ writes d,
      λ e. rw (e, read_delegate-borsh d v) (rw (writes d, bytes_eq_refl (borsh d)) refl),
    )
