-- ===== src/Scan/Payload/Wire.antt =====
-- The wire format of an NTT transfer, written out as an encoder, and where its outer fields stand.
use whm.Prelude.{ℕ, ◌+◌, ◌^◌, ◌<◌}
use whm.Prelude.{◌≡◌, refl, ◌∙◌, arith}
use whm.Prelude.{some}
use whm.Prelude.{[], ◌∷◌, ◌++◌}
use whm.Prelude.{length}
use whm.Prelude.{length-append}
use whm.Prelude.{take-append}
use whm.Prelude.Text.{Bytes}
use whm.Prelude.Buffer.{
  subarray, read_be, be_bytes, subarray_skip, read_be-skip, length-be_bytes, read_be-be_bytes,
}

-- TransceiverMessage, NttManagerMessage and NativeTokenTransfer in one. The id is its first 24 bytes and
-- the number in its last eight; `more` and `tail` are what later versions append.
pub record Message : Type 0 where
  pub source_manager : Bytes
  pub recipient_manager : Bytes
  pub id_head : Bytes
  pub id_number : ℕ
  pub sender : Bytes
  pub decimals : ℕ
  pub amount : ℕ
  pub source_token : Bytes
  pub to : Bytes
  pub to_chain : ℕ
  pub more : Bytes
  pub tail : Bytes

unfoldable pub ntt_mark : Bytes
ntt_mark = 0x99 ∷ 0x4e ∷ 0x54 ∷ 0x54 ∷ []

unfoldable pub transceiver_mark : Bytes
transceiver_mark = 0x99 ∷ 0x45 ∷ 0xff ∷ 0x10 ∷ []

unfoldable pub transfer_bytes : Message → Bytes
transfer_bytes m =
    ntt_mark
    ++ (be_bytes 1 m.decimals
        ++ (be_bytes 8 m.amount ++ (m.source_token ++ (m.to ++ (be_bytes 2 m.to_chain ++ m.more)))))

unfoldable pub manager_bytes : Message → Bytes
manager_bytes m =
    m.id_head
    ++ (be_bytes 8 m.id_number
        ++ (m.sender ++ (be_bytes 2 (length (transfer_bytes m)) ++ transfer_bytes m)))

unfoldable pub encode : Message → Bytes
encode m =
    transceiver_mark
    ++ (m.source_manager
        ++ (m.recipient_manager
            ++ (be_bytes 2 (length (manager_bytes m)) ++ (manager_bytes m ++ m.tail))))

-- The fields have their sizes, and the two lengths fit in two bytes.
pub record IsSized (m : Message) : Type 0 where
  pub source_manager : length m.source_manager ≡ 32
  pub recipient_manager : length m.recipient_manager ≡ 32
  pub id_head : length m.id_head ≡ 24
  pub id_number : m.id_number < 256 ^ 8
  pub sender : length m.sender ≡ 32
  pub decimals : m.decimals < 256 ^ 1
  pub amount : m.amount < 256 ^ 8
  pub source_token : length m.source_token ≡ 32
  pub to : length m.to ≡ 32
  pub to_chain : m.to_chain < 256 ^ 2
  pub more : length m.more < 65_391

pub length_field :
    (f rest : Bytes) (k n : ℕ) → length f ≡ k → length rest ≡ n → length (f ++ rest) ≡ k + n
length_field f rest k n h e = omega (arith, length-append f rest)

pub length-ntt_mark : length ntt_mark ≡ 4
unfolding ntt_mark
length-ntt_mark = refl

pub length-transceiver_mark : length transceiver_mark ≡ 4
unfolding transceiver_mark
length-transceiver_mark = refl

pub length-transfer_bytes :
    (m : Message) → IsSized m → length (transfer_bytes m) ≡ 79 + length m.more
unfolding transfer_bytes
length-transfer_bytes m h =
    let chain =
      length_field (be_bytes 2 m.to_chain) m.more 2 _ (length-be_bytes 2 m.to_chain) refl in
    let to = length_field m.to _ 32 _ h.to chain in
    let token = length_field m.source_token _ 32 _ h.source_token to in
    let amount = length_field (be_bytes 8 m.amount) _ 8 _ (length-be_bytes 8 m.amount) token in
    let decimals =
      length_field (be_bytes 1 m.decimals) _ 1 _ (length-be_bytes 1 m.decimals) amount in
    let mark = length_field ntt_mark _ 4 _ length-ntt_mark decimals in omega (arith, mark)

pub length-manager_bytes :
    (m : Message) → IsSized m → length (manager_bytes m) ≡ 145 + length m.more
unfolding manager_bytes
length-manager_bytes m h =
    let n = length (transfer_bytes m) in
    let size =
      length_field (be_bytes 2 n) _ 2 _ (length-be_bytes 2 n) (length-transfer_bytes m h) in
    let sender = length_field m.sender _ 32 _ h.sender size in
    let number =
      length_field (be_bytes 8 m.id_number) _ 8 _ (length-be_bytes 8 m.id_number) sender in
    let head = length_field m.id_head _ 24 _ h.id_head number in omega (arith, head)

-- A field where it begins.
pub field_here : (f rest : Bytes) (k : ℕ) → length f ≡ k → subarray (f ++ rest) 0 k ≡ f
field_here f rest k h = take-append k f rest h

pub source_manager-encode : (m : Message) → IsSized m → subarray (encode m) 4 32 ≡ m.source_manager
unfolding encode
source_manager-encode m h =
    subarray_skip transceiver_mark _ 4 0 32 length-transceiver_mark
    ∙ field_here m.source_manager _ 32 h.source_manager

pub recipient_manager-encode :
    (m : Message) → IsSized m → subarray (encode m) 36 32 ≡ m.recipient_manager
unfolding encode
recipient_manager-encode m h =
    subarray_skip transceiver_mark _ 4 32 32 length-transceiver_mark
    ∙ (subarray_skip m.source_manager _ 32 0 32 h.source_manager
        ∙ field_here m.recipient_manager _ 32 h.recipient_manager)

pub manager_len-encode :
    (m : Message) → IsSized m → read_be (encode m) 68 2 ≡ some (length (manager_bytes m))
unfolding encode
manager_len-encode m h =
    let n = length (manager_bytes m) in
    read_be-skip transceiver_mark _ 4 64 2 length-transceiver_mark
    ∙ (read_be-skip m.source_manager _ 32 32 2 h.source_manager
        ∙ (read_be-skip m.recipient_manager _ 32 0 2 h.recipient_manager
            ∙ read_be-be_bytes 2 n _
                (let l = length-manager_bytes m h in let s = h.more in omega arith)))

pub manager-encode :
    (m : Message) → IsSized m → subarray (encode m) 70 (length (manager_bytes m)) ≡ manager_bytes m
unfolding encode
manager-encode m h =
    let n = length (manager_bytes m) in
    subarray_skip transceiver_mark _ 4 66 n length-transceiver_mark
    ∙ (subarray_skip m.source_manager _ 32 34 n h.source_manager
        ∙ (subarray_skip m.recipient_manager _ 32 2 n h.recipient_manager
            ∙ (subarray_skip (be_bytes 2 n) _ 2 0 n (length-be_bytes 2 n)
                ∙ field_here (manager_bytes m) _ n refl)))

pub mark-encode : (m : Message) → IsSized m → subarray (encode m) 0 4 ≡ transceiver_mark
unfolding encode
mark-encode m h = field_here transceiver_mark _ 4 length-transceiver_mark

pub length-encode :
    (m : Message) → IsSized m → length (encode m) ≡ 215 + (length m.more + length m.tail)
unfolding encode
length-encode m h =
    let n = length (manager_bytes m) in
    let body = length-append (manager_bytes m) m.tail in
    let size = length_field (be_bytes 2 n) _ 2 _ (length-be_bytes 2 n) body in
    let recipient = length_field m.recipient_manager _ 32 _ h.recipient_manager size in
    let source = length_field m.source_manager _ 32 _ h.source_manager recipient in
    let mark = length_field transceiver_mark _ 4 _ length-transceiver_mark source in
    let l = length-manager_bytes m h in omega (arith, mark)
