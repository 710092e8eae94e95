-- ===== src/Scan/Payload/Settlement.antt =====
-- The relayer's reader, agents/relayer/src/engine/ntt.ts, on the wire format.
use whm.Prelude.{ℕ, ◌+◌, ◌-◌, ◌*◌, ◌^◌, ◌≤◌}
use whm.Prelude.{◌≡◌, refl, ◌∙◌, arith}
use whm.Prelude.{true, none, some}
use whm.Prelude.{ltb, if◌then◌else◌}
use whm.Prelude.{length}
use whm.Prelude.Text.{hex_digit, codes, bytes_eq, to_hex}
use whm.Prelude.Buffer.{read_be, be_bytes, read_be-skip, length-be_bytes}
use whm.Scan.Payload.Wire.{
  Message, IsSized, transceiver_mark, transfer_bytes, manager_bytes, encode,
  length-transceiver_mark, length-manager_bytes, recipient_manager-encode, mark-encode,
}
use whm.Scan.Payload.Inner.{id_number-manager_bytes, decimals-transfer_bytes, amount-transfer_bytes}
use whm.Prelude.Buffer.{read_be-front}
use whm.Relayer.Ntt.{
  is_ntt_transfer, settlement_sequence, settlement_amount, recipient_manager, scale_amount, scaled,
}

-- A read of the manager's message, which stands at 70.
in_manager :
    (m : Message) (i n : ℕ)
    → IsSized m
    → i + n ≤ length (manager_bytes m)
    → read_be (encode m) (4 + (32 + (32 + (2 + i)))) n ≡ read_be (manager_bytes m) i n
unfolding encode
in_manager m i n h inside =
    let l = length (manager_bytes m) in
    read_be-skip transceiver_mark _ 4 _ n length-transceiver_mark
    ∙ (read_be-skip m.source_manager _ 32 _ n h.source_manager
        ∙ (read_be-skip m.recipient_manager _ 32 _ n h.recipient_manager
            ∙ (read_be-skip (be_bytes 2 l) _ 2 i n (length-be_bytes 2 l)
                ∙ read_be-front (manager_bytes m) m.tail i n inside)))

-- A read of the transfer, which stands at 66 in it.
in_transfer :
    (m : Message) (i n : ℕ)
    → IsSized m
    → read_be (manager_bytes m) (24 + (8 + (32 + (2 + i)))) n ≡ read_be (transfer_bytes m) i n
unfolding manager_bytes
in_transfer m i n h =
    let l = length (transfer_bytes m) in
    read_be-skip m.id_head _ 24 _ n h.id_head
    ∙ (read_be-skip (be_bytes 8 m.id_number) _ 8 _ n (length-be_bytes 8 m.id_number)
        ∙ (read_be-skip m.sender _ 32 _ n h.sender
            ∙ read_be-skip (be_bytes 2 l) _ 2 i n (length-be_bytes 2 l)))

sequence-encode : (m : Message) → IsSized m → settlement_sequence (encode m) ≡ some m.id_number
sequence-encode m h =
    in_manager m 24 8 h (let l = length-manager_bytes m h in omega arith)
    ∙ id_number-manager_bytes m h

decimals-encode : (m : Message) → IsSized m → read_be (encode m) 140 1 ≡ some m.decimals
decimals-encode m h =
    in_manager m 70 1 h (let l = length-manager_bytes m h in omega arith)
    ∙ (in_transfer m 4 1 h ∙ decimals-transfer_bytes m h)

amount-encode : (m : Message) → IsSized m → read_be (encode m) 141 8 ≡ some m.amount
amount-encode m h =
    in_manager m 71 8 h (let l = length-manager_bytes m h in omega arith)
    ∙ (in_transfer m 5 8 h ∙ amount-transfer_bytes m h)

-- What a relayer is to read of a message for a destination of `d` decimals.
pub record Reads (m : Message) (d : ℕ) : Type 0 where
  pub transfer : is_ntt_transfer (encode m) ≡ true
  pub sequence : settlement_sequence (encode m) ≡ some m.id_number
  pub manager : recipient_manager (encode m) ≡ to_hex m.recipient_manager
  pub amount :
      settlement_amount (encode m) d
      ≡ (if ltb d m.decimals then none else some (m.amount * 10 ^ (d - m.decimals)))

transfer_mark : bytes_eq (to_hex transceiver_mark) (codes "9945ff10") ≡ true
unfolding transceiver_mark to_hex hex_digit bytes_eq
transfer_mark = refl

-- A relayer reads out of the wire format that it is a transfer, the number at the end of its id, the
-- destination's manager, and the amount scaled to the destination's decimals, which is refused exactly where
-- the message has more of them.
pub settlement-encode : (m : Message) (d : ℕ) → IsSized m → Reads m d
unfolding scale_amount scaled
settlement-encode m d h = record {
  transfer = rw (mark-encode m h) transfer_mark;
  sequence = sequence-encode m h;
  manager = rw (recipient_manager-encode m h) refl;
  amount = rw (decimals-encode m h, amount-encode m h) refl;
}
