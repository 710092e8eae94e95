-- ===== src/Scan/Payload/Inner.antt =====
-- Where the fields of the manager's message and of the transfer stand.
use whm.Prelude.{◌≡◌, refl, sym, ap, ◌∙◌, arith}
use whm.Prelude.{some}
use whm.Prelude.{[], ◌∷◌, ◌++◌, append_assoc}
use whm.Prelude.{length, take}
use whm.Prelude.Text.{Bytes}
use whm.Prelude.Buffer.{
  subarray, read_be, be_bytes, subarray_skip, read_be-skip, length-be_bytes, read_be-be_bytes,
}
use whm.Scan.Payload.Wire.{
  Message, IsSized, ntt_mark, transfer_bytes, manager_bytes, length_field, length-ntt_mark,
  field_here, length-transfer_bytes,
}

pub id_head-manager_bytes : (m : Message) → IsSized m → subarray (manager_bytes m) 0 24 ≡ m.id_head
unfolding manager_bytes
id_head-manager_bytes m h = field_here m.id_head _ 24 h.id_head

pub id_number-manager_bytes :
    (m : Message) → IsSized m → read_be (manager_bytes m) 24 8 ≡ some m.id_number
unfolding manager_bytes
id_number-manager_bytes m h =
    read_be-skip m.id_head _ 24 0 8 h.id_head ∙ (read_be-be_bytes 8 m.id_number _ h.id_number)

pub sender-manager_bytes : (m : Message) → IsSized m → subarray (manager_bytes m) 32 32 ≡ m.sender
unfolding manager_bytes
sender-manager_bytes m h =
    subarray_skip m.id_head _ 24 8 32 h.id_head
    ∙ (subarray_skip (be_bytes 8 m.id_number) _ 8 0 32 (length-be_bytes 8 m.id_number)
        ∙ (field_here m.sender _ 32 h.sender))

pub inner_len-manager_bytes :
    (m : Message) → IsSized m → read_be (manager_bytes m) 64 2 ≡ some (length (transfer_bytes m))
unfolding manager_bytes
inner_len-manager_bytes m h =
    read_be-skip m.id_head _ 24 40 2 h.id_head
    ∙ (read_be-skip (be_bytes 8 m.id_number) _ 8 32 2 (length-be_bytes 8 m.id_number)
        ∙ (read_be-skip m.sender _ 32 0 2 h.sender
            ∙ (read_be-be_bytes 2 (length (transfer_bytes m)) _
                (let l = length-transfer_bytes m h in let s = h.more in omega arith))))

pub id-manager_bytes :
    (m : Message)
    → IsSized m
    → subarray (manager_bytes m) 0 32 ≡ m.id_head ++ be_bytes 8 m.id_number
unfolding manager_bytes
id-manager_bytes m h =
    ap (λ (b : Bytes). take 32 b) (sym (append_assoc m.id_head (be_bytes 8 m.id_number) _))
    ∙ field_here (m.id_head ++ be_bytes 8 m.id_number) _ 32
        (length_field m.id_head _ 24 8 h.id_head (length-be_bytes 8 m.id_number))

take_whole : (b : Bytes) → take (length b) b ≡ b
take_whole [] = refl
take_whole (x ∷ b) = ap (λ (r : Bytes). x ∷ r) (take_whole b)

pub inner-manager_bytes :
    (m : Message)
    → IsSized m
    → subarray (manager_bytes m) 66 (length (transfer_bytes m)) ≡ transfer_bytes m
unfolding manager_bytes
inner-manager_bytes m h =
    subarray_skip m.id_head _ 24 42 (length (transfer_bytes m)) h.id_head
    ∙ (subarray_skip (be_bytes 8 m.id_number) _ 8 34 (length (transfer_bytes m))
          (length-be_bytes 8 m.id_number)
        ∙ (subarray_skip m.sender _ 32 2 (length (transfer_bytes m)) h.sender
            ∙ (subarray_skip (be_bytes 2 (length (transfer_bytes m))) _ 2 0
                  (length (transfer_bytes m)) (length-be_bytes 2 (length (transfer_bytes m)))
                ∙ (take_whole (transfer_bytes m)))))

pub mark-transfer_bytes : (m : Message) → IsSized m → subarray (transfer_bytes m) 0 4 ≡ ntt_mark
unfolding transfer_bytes
mark-transfer_bytes m h = field_here ntt_mark _ 4 length-ntt_mark

pub decimals-transfer_bytes :
    (m : Message) → IsSized m → read_be (transfer_bytes m) 4 1 ≡ some m.decimals
unfolding transfer_bytes
decimals-transfer_bytes m h =
    read_be-skip ntt_mark _ 4 0 1 length-ntt_mark ∙ (read_be-be_bytes 1 m.decimals _ h.decimals)

pub amount-transfer_bytes :
    (m : Message) → IsSized m → read_be (transfer_bytes m) 5 8 ≡ some m.amount
unfolding transfer_bytes
amount-transfer_bytes m h =
    read_be-skip ntt_mark _ 4 1 8 length-ntt_mark
    ∙ (read_be-skip (be_bytes 1 m.decimals) _ 1 0 8 (length-be_bytes 1 m.decimals)
        ∙ (read_be-be_bytes 8 m.amount _ h.amount))

pub source_token-transfer_bytes :
    (m : Message) → IsSized m → subarray (transfer_bytes m) 13 32 ≡ m.source_token
unfolding transfer_bytes
source_token-transfer_bytes m h =
    subarray_skip ntt_mark _ 4 9 32 length-ntt_mark
    ∙ (subarray_skip (be_bytes 1 m.decimals) _ 1 8 32 (length-be_bytes 1 m.decimals)
        ∙ (subarray_skip (be_bytes 8 m.amount) _ 8 0 32 (length-be_bytes 8 m.amount)
            ∙ (field_here m.source_token _ 32 h.source_token)))

pub to-transfer_bytes : (m : Message) → IsSized m → subarray (transfer_bytes m) 45 32 ≡ m.to
unfolding transfer_bytes
to-transfer_bytes m h =
    subarray_skip ntt_mark _ 4 41 32 length-ntt_mark
    ∙ (subarray_skip (be_bytes 1 m.decimals) _ 1 40 32 (length-be_bytes 1 m.decimals)
        ∙ (subarray_skip (be_bytes 8 m.amount) _ 8 32 32 (length-be_bytes 8 m.amount)
            ∙ (subarray_skip m.source_token _ 32 0 32 h.source_token
                ∙ (field_here m.to _ 32 h.to))))

pub to_chain-transfer_bytes :
    (m : Message) → IsSized m → read_be (transfer_bytes m) 77 2 ≡ some m.to_chain
unfolding transfer_bytes
to_chain-transfer_bytes m h =
    read_be-skip ntt_mark _ 4 73 2 length-ntt_mark
    ∙ (read_be-skip (be_bytes 1 m.decimals) _ 1 72 2 (length-be_bytes 1 m.decimals)
        ∙ (read_be-skip (be_bytes 8 m.amount) _ 8 64 2 (length-be_bytes 8 m.amount)
            ∙ (read_be-skip m.source_token _ 32 32 2 h.source_token
                ∙ (read_be-skip m.to _ 32 0 2 h.to
                    ∙ (read_be-be_bytes 2 m.to_chain _ h.to_chain)))))
