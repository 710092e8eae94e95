-- ===== src/Scan/Payload/Example.antt =====
-- One message, and instances of the theorems at it.
use whm.Prelude.{ℕ}
use whm.Prelude.{◌≡◌, refl, arith}
use whm.Prelude.{true, some}
use whm.Prelude.{List, [], ◌∷◌}
use whm.Prelude.{take, replicate, All}
use whm.Prelude.Text.{Bytes, IsByte, codes, to_hex}
use whm.Prelude.Buffer.{be_bytes}
use whm.Scan.Payload.Wire.{
  Message, IsSized, ntt_mark, transceiver_mark, transfer_bytes, manager_bytes, encode,
}
use whm.Scan.Payload.{with_0x, parse_ntt_transfer}
use whm.Scan.Payload.Total.{defined, parse_ntt_transfer-defined}
use whm.Scan.Payload.RoundTrip.{transfer_of, parse_ntt_transfer-encode}
use whm.Scan.Payload.Settlement.{Reads, settlement-encode}

-- 1.5 tokens at eight decimals, the manager's message 9, and a byte that a later version appends.
abbrev message : Message
message = record {
  source_manager = replicate 32 1;
  recipient_manager = replicate 32 2;
  id_head = replicate 24 0;
  id_number = 9;
  sender = replicate 32 3;
  decimals = 8;
  amount = 150_000_000;
  source_token = replicate 32 4;
  to = replicate 32 5;
  to_chain = 2;
  more = 7 ∷ [];
  tail = 0 ∷ 0 ∷ [];
}

message-IsSized : IsSized message
message-IsSized = record {
  source_manager = refl;
  recipient_manager = refl;
  id_head = refl;
  id_number = omega arith;
  sender = refl;
  decimals = omega arith;
  amount = omega arith;
  source_token = refl;
  to = refl;
  to_chain = omega arith;
  more = omega arith;
}

-- A digest, to run the code with.
abbrev first_bytes : Bytes → List ℕ
first_bytes b = take 4 b

message-bytes : All IsByte (encode message)
unfolding encode manager_bytes transfer_bytes be_bytes ntt_mark transceiver_mark
message-bytes = ground arith

parse_ntt_transfer-encode_example :
    parse_ntt_transfer first_bytes (with_0x (to_hex (encode message))) 34
    ≡ some (some (transfer_of first_bytes message 34))
parse_ntt_transfer-encode_example =
    parse_ntt_transfer-encode first_bytes message 34 message-IsSized message-bytes (omega arith)

settlement-encode_example : Reads message 18
settlement-encode_example = settlement-encode message 18 message-IsSized

parse_ntt_transfer-defined_example :
    defined (parse_ntt_transfer first_bytes (codes "0x9945ff") 2) ≡ true
parse_ntt_transfer-defined_example =
    parse_ntt_transfer-defined first_bytes (codes "0x9945ff") 2 (omega arith)
