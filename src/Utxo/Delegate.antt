-- ===== src/Utxo/Delegate.antt =====
-- agents/utxo/src/near/delegate.ts: `decodeSignedDelegate`. The model's delegate is near-api-js's `SignedDelegate` of one
-- function call under ed25519; texts are lists of code points. `none` is a throw.
mod Reads
mod RoundTrip
mod Example
use whm.Prelude.{ℕ, zero, suc, ◌+◌, ◌-◌, ◌*◌, ◌/◌, ◌%◌, ◌^◌, ◌≤◌, ◌<◌, min, String}
use whm.Prelude.{◌≡◌, refl, sym, ap, ◌∙◌, ◌≢◌, ◌↔◌, ◌⊎◌, inl, inr, arith}
use whm.Prelude.{Bool, true, false, not, ◌&&◌, ◌||◌, Option, none, some}
use whm.Prelude.{List, [], ◌∷◌, ◌++◌, map, append-nil, append_assoc}
use whm.Prelude.{
  ltb, leb, ◌==◌, if◌then◌else◌, ltb→lt, lt→ltb, ==_iff, Bool-cases, Option-cases, if_elim,
}
use whm.Prelude.{length, get_elem?, take, drop, replicate, All, All-append}
use whm.Prelude.{length-append, take-append-drop, length-take, length-drop, length-replicate}
use whm.Prelude.{take-append, drop-append}
use whm.Prelude.{str_eq, eq_iff, eq_refl}
use whm.Prelude.Text.{Bytes, bytes_eq}
use whm.Prelude.Buffer.{subarray}
use whm.Prelude.LittleEndian.{le_value}

pub record SignedDelegate : Type 0 where
  pub sender_id : List ℕ
  pub receiver_id : List ℕ
  pub method_name : List ℕ
  pub call_args : Bytes
  pub gas : ℕ
  pub deposit : ℕ
  pub nonce : ℕ
  pub max_block_height : ℕ
  pub public_key : Bytes
  pub signature : Bytes

-- What is read at `at` of the bytes, and the `at` behind it.
abbrev pub Reader : Type 0 → Type 0
Reader A = Bytes → ℕ → Option (A × ℕ)

abbrev pub and_read : {A B : Type 0} → Option (A × ℕ) → (A → ℕ → Option (B × ℕ)) → Option (B × ℕ)
and_read none f = none
and_read (some (a, at)) f = f a at

infixl 5 ◌>>=◌ ◌>>◌
abbrev pub ◌>>=◌ : {A B : Type 0} → Reader A → (A → Reader B) → Reader B
◌>>=◌ m f b at = and_read (m b at) (λ a next. f a b next)

abbrev pub ◌>>◌ : {A B : Type 0} → Reader A → Reader B → Reader B
m >> k = m >>= λ _. k

abbrev pub pure : {A : Type 0} → A → Reader A
pure a b at = some (a, at)

-- `bytes.subarray(at, (at += n))`, which stops at the end, unlike `at`.
unfoldable pub raw : ℕ → Reader Bytes
raw n b at = some (subarray b at n, at + n)

-- `readUInt32LE(0)` and `readBigUInt64LE(0)` on the slice, which throw where it is short; `u128` reads its two halves.
unfoldable pub read_le : ℕ → Reader ℕ
read_le n b at =
    let slice = subarray b at n in
    if leb n (length slice) then some (le_value slice, at + n) else none

-- `if (read() !== value) throw`
unfoldable pub check_value : ℕ → ℕ → Reader (Unit {0})
check_value value v b at = if v == value then some (tt, at) else none

-- `if (raw(1)[0] !== value) throw`, where a byte past the end is no number.
first_is : ℕ → Bytes → Bool
first_is value [] = false
first_is value (b ∷ bs) = b == value

unfoldable pub check_byte : ℕ → Bytes → Reader (Unit {0})
unfolding first_is
check_byte value slice b at = if first_is value slice then some (tt, at) else none

unfoldable pub expect_u32 : ℕ → Reader (Unit {0})
expect_u32 value = read_le 4 >>= check_value value

unfoldable pub expect_byte : ℕ → Reader (Unit {0})
expect_byte value = raw 1 >>= check_byte value

-- `raw(u32())`
unfoldable pub counted : Reader Bytes
counted = do n ← read_le 4; raw n

-- `at !== bytes.length`
unfoldable pub at_end : Reader (Unit {0})
at_end b at = if at == length b then some (tt, at) else none

module _ (utf8 : Bytes → List ℕ) where
  unfoldable pub str : Reader (List ℕ)
  str = do bytes ← counted; pure (utf8 bytes)

  unfoldable pub read_fields : Reader SignedDelegate
  read_fields = do
    sender_id ← str
    receiver_id ← str
    expect_u32 1
    expect_byte 2
    method_name ← str
    call_args ← counted
    gas ← read_le 8
    deposit ← read_le 16
    nonce ← read_le 8
    max_block_height ← read_le 8
    expect_byte 0
    public_key ← raw 32
    expect_byte 0
    signature ← raw 64
    pure (record {
      sender_id = sender_id;
      receiver_id = receiver_id;
      method_name = method_name;
      call_args = call_args;
      gas = gas;
      deposit = deposit;
      nonce = nonce;
      max_block_height = max_block_height;
      public_key = public_key;
      signature = signature;
    })

  unfoldable pub read_delegate : Reader SignedDelegate
  read_delegate = do d ← read_fields; at_end; pure d

  module _ (encode_signed_delegate : SignedDelegate → Bytes) where
    -- The delegate, if it re-encodes to the same bytes.
    unfoldable pub same_bytes : Bytes → Option (SignedDelegate × ℕ) → Option SignedDelegate
    same_bytes bytes none = none
    same_bytes bytes (some (d, at)) =
        if bytes_eq (encode_signed_delegate d) bytes then some d else none

    unfoldable pub decode_signed_delegate : Bytes → Option SignedDelegate
    decode_signed_delegate bytes = same_bytes bytes (read_delegate bytes 0)
