-- ===== src/Utxo/Delegate/Example.antt =====
-- A delegate as the withdrawal contract emits it, with ASCII texts.
use whm.Prelude.{ℕ}
use whm.Prelude.{◌≡◌, refl, ◌↔◌, arith}
use whm.Prelude.{some}
use whm.Prelude.{List}
use whm.Prelude.{replicate}
use whm.Prelude.Text.{Bytes, codes}
use whm.Utxo.Delegate.{SignedDelegate, decode_signed_delegate}
use whm.Utxo.Delegate.RoundTrip.{borsh, IsDelegate, decode_signed_delegate_iff}

abbrev ascii : List ℕ → Bytes
ascii t = t

abbrev delegate : SignedDelegate
delegate = record {
  sender_id = codes "a.near";
  receiver_id = codes "nzec.bridge.near";
  method_name = codes "ft_transfer_call";
  call_args = codes "{}";
  gas = 100_000_000_000_000;
  deposit = 1;
  nonce = 7;
  max_block_height = 150_000_000;
  public_key = replicate 32 5;
  signature = replicate 64 6;
}

delegate-IsDelegate : IsDelegate ascii ascii delegate
delegate-IsDelegate = record {
  sender = omega arith;
  receiver = omega arith;
  method = omega arith;
  args = omega arith;
  gas_64 = omega arith;
  deposit_128 = omega arith;
  nonce_64 = omega arith;
  height_64 = omega arith;
  key_32 = refl;
  sender_text = refl;
  receiver_text = refl;
  method_text = refl;
  signature_64 = refl;
}

decode_signed_delegate_iff_example :
    (decode_signed_delegate ascii (borsh ascii) (borsh ascii delegate) ≡ some delegate)
    ↔ (borsh ascii delegate ≡ borsh ascii delegate)
decode_signed_delegate_iff_example =
    decode_signed_delegate_iff ascii ascii (borsh ascii) (λ d. refl) delegate (borsh ascii delegate)
      delegate-IsDelegate
