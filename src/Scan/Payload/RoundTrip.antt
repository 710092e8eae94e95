-- ===== src/Scan/Payload/RoundTrip.antt =====
-- parseNttTransfer on the wire format.
use whm.Prelude.{ℕ, zero, suc, ◌+◌, ◌<◌}
use whm.Prelude.{◌≡◌, refl, ap, arith}
use whm.Prelude.{true, false, Option, none, some}
use whm.Prelude.{List, [], ◌∷◌, ◌++◌}
use whm.Prelude.{ltb, leb, if◌then◌else◌}
use whm.Prelude.{length, drop, All}
use whm.Prelude.Text.{hex_digit, Bytes, IsByte, bytes_eq, to_hex, from_hex-to_hex}
use whm.Prelude.Buffer.{be_bytes}
use whm.Scan.Payload.Wire.{
  Message, IsSized, ntt_mark, transceiver_mark, transfer_bytes, manager_bytes, encode,
  length-transfer_bytes, length-manager_bytes, source_manager-encode, recipient_manager-encode,
  manager_len-encode, manager-encode, mark-encode, length-encode,
}
use whm.Scan.Payload.Inner.{
  id_head-manager_bytes, id_number-manager_bytes, sender-manager_bytes, inner_len-manager_bytes,
  id-manager_bytes, inner-manager_bytes, mark-transfer_bytes, decimals-transfer_bytes,
  amount-transfer_bytes, source_token-transfer_bytes, to-transfer_bytes, to_chain-transfer_bytes,
}
use whm.Scan.Payload.{
  NttTransfer, with_0x, address, every_zero, sequence_of, read_fields, parse_inner, cut_inner,
  parse_manager, cut_manager, parse_bytes, parse_ntt_transfer, without_0x, ntt_prefix,
  transceiver_prefix,
}

-- 0x and the last 20 bytes.
abbrev pub h160 : Bytes → List ℕ
h160 bytes32 = with_0x (to_hex (drop 12 bytes32))

to_hex-drop : (k n : ℕ) (b : Bytes) → n ≡ k + k → drop n (to_hex b) ≡ to_hex (drop k b)
unfolding to_hex
to_hex-drop zero zero b e = refl
to_hex-drop zero (suc n) b e = absurd (omega arith)
to_hex-drop (suc k) zero b e = absurd (omega arith)
to_hex-drop (suc k) (suc zero) b e = absurd (omega arith)
to_hex-drop (suc k) (suc (suc n)) [] e = refl
to_hex-drop (suc k) (suc (suc n)) (x ∷ b) e = to_hex-drop k n b (omega arith)

address_lem : (b : Bytes) → address (with_0x (to_hex b)) ≡ h160 b
unfolding without_0x
address_lem b = ap (λ (s : List ℕ). with_0x s) (to_hex-drop 12 24 b refl)

sequence_of-manager_bytes :
    (m : Message)
    → IsSized m
    → sequence_of (manager_bytes m) ≡ some (if every_zero m.id_head then some m.id_number else none)
unfolding sequence_of
sequence_of-manager_bytes m h =
    rw (id_head-manager_bytes m h, id_number-manager_bytes m h) (ground arith)

mark_prefix : bytes_eq (with_0x (to_hex ntt_mark)) ntt_prefix ≡ true
unfolding ntt_mark to_hex hex_digit bytes_eq
mark_prefix = refl

mark_transceiver : bytes_eq (with_0x (to_hex transceiver_mark)) transceiver_prefix ≡ true
unfolding transceiver_mark to_hex hex_digit bytes_eq
mark_transceiver = refl

module _ (keccak256 : Bytes → List ℕ) where
  abbrev pub transfer_of : Message → ℕ → NttTransfer
  transfer_of m chain = record {
    digest = keccak256 (be_bytes 2 chain ++ manager_bytes m);
    id = with_0x (to_hex (m.id_head ++ be_bytes 8 m.id_number));
    sequence = if every_zero m.id_head then some m.id_number else none;
    sender = with_0x (to_hex m.sender);
    source_manager = h160 m.source_manager;
    recipient_manager = h160 m.recipient_manager;
    decimals = m.decimals;
    amount = m.amount;
    source_token = h160 m.source_token;
    to = with_0x (to_hex m.to);
    to_chain = m.to_chain;
  }

  parse_inner-encode :
      (m : Message) (chain : ℕ) (s : Option ℕ)
      → IsSized m
      → chain < 65_536
      → parse_inner keccak256 (encode m) (manager_bytes m) chain s (transfer_bytes m)
        ≡ some (some (record (transfer_of m chain) { sequence = s }))
  unfolding parse_inner read_fields
  parse_inner-encode m chain s h fits =
      let long : ltb (length (transfer_bytes m)) 79 ≡ false =
        (let l = length-transfer_bytes m h in ground arith) in
      let fit : leb 65_536 chain ≡ false = ground arith in
      rw
        (
          long,
          fit,
          mark-transfer_bytes m h,
          mark_prefix,
          decimals-transfer_bytes m h,
          amount-transfer_bytes m h,
          to_chain-transfer_bytes m h,
          source_token-transfer_bytes m h,
          to-transfer_bytes m h,
          id-manager_bytes m h,
          sender-manager_bytes m h,
          source_manager-encode m h,
          recipient_manager-encode m h,
          address_lem m.source_manager,
          address_lem m.recipient_manager,
          address_lem m.source_token,
        )
        refl

  parse_manager-encode :
      (m : Message) (chain : ℕ)
      → IsSized m
      → chain < 65_536
      → parse_manager keccak256 (encode m) (manager_bytes m) chain
        ≡ some (some (transfer_of m chain))
  unfolding parse_manager cut_inner
  parse_manager-encode m chain h fits =
      let long : ltb (length (manager_bytes m)) 66 ≡ false =
        (let l = length-manager_bytes m h in ground arith) in
      rw (long, sequence_of-manager_bytes m h, inner_len-manager_bytes m h, inner-manager_bytes m h)
        (parse_inner-encode m chain (if every_zero m.id_head then some m.id_number else none) h
          fits)

  parse_bytes-encode :
      (m : Message) (chain : ℕ)
      → IsSized m
      → chain < 65_536
      → parse_bytes keccak256 (encode m) chain ≡ some (some (transfer_of m chain))
  unfolding parse_bytes cut_manager
  parse_bytes-encode m chain h fits =
      let long : ltb (length (encode m)) 70 ≡ false = (let l = length-encode m h in ground arith) in
      rw (long, mark-encode m h, mark_transceiver, manager_len-encode m h, manager-encode m h)
        (parse_manager-encode m chain h fits)

  -- The indexer reads every field of a transfer out of its wire format, whatever bytes later versions append
  -- to it: the addresses as their last 20 bytes, the sequence exactly where the first 24 bytes of the id
  -- are zero, and the digest of the source chain and the manager's message.
  pub parse_ntt_transfer-encode :
      (m : Message) (chain : ℕ)
      → IsSized m
      → All IsByte (encode m)
      → chain < 65_536
      → parse_ntt_transfer keccak256 (with_0x (to_hex (encode m))) chain
        ≡ some (some (transfer_of m chain))
  unfolding parse_ntt_transfer without_0x
  parse_ntt_transfer-encode m chain h bytes fits =
      rw (from_hex-to_hex (encode m) bytes) (parse_bytes-encode m chain h fits)
