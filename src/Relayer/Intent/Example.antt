-- ===== src/Relayer/Intent/Example.antt =====
-- An order whose instruction is the second log of its transaction, with decoders that read a byte each.
use whm.Prelude.{◌≡◌, refl}
use whm.Prelude.{true, Option, none, some}
use whm.Prelude.{List, [], ◌∷◌, ◌++◌}
use whm.Prelude.{if◌then◌else◌}
use whm.Prelude.{replicate}
use whm.Prelude.Radix.{eval}
use whm.Prelude.Text.{Bytes, codes, bytes_eq, to_lower_case, to_hex, hex_digit}
use whm.Prelude.Buffer.{read_be}
use whm.Relayer.Ntt.{scaled, scale_amount}
use whm.Relayer.Revert.{
  Text, base, revert_name, name_or_reason, starts_with, has, some_fragment, includes, is_done,
}
use whm.Relayer.Intent.{
  Log, Published, Instructed, normalize_tx_hash, is_topic, lower_topic, is_ours, matching, decoded,
  find_in, find_instruction,
}
use whm.Relayer.Intent.{value, throws, quote, World, or_load, fetch_vaa, Vaa, skipped, added}
use whm.Relayer.Intent.{
  age_min, is_stale, add_order, on_quote, with_vaa, on_order, on_sequence, on_hash, handle,
}
use whm.Relayer.Intent.Forwards.{Forwarded, Dropped, handle-Forwarded, handle-Dropped}

abbrev selector : Text
selector = codes "0x6e"

abbrev emitter_topic : Text
emitter_topic = codes "0xab"

-- The sequence of the event is its payload's first byte.
abbrev first_byte : Bytes → Option Published
first_byte [] = none
first_byte (b ∷ payload) = some (record { sequence = b; payload = payload })

abbrev event : Log → Option Published
event l = first_byte l.payload

abbrev payload_bytes : Bytes → Option Instructed
payload_bytes (sequence ∷ fee ∷ []) =
    some
      (record { manager_sequence = sequence; deposit_address = codes "0xdd"; max_relay_fee = fee })
payload_bytes other = none

-- The transfer 9 of the manager, of 100 units at eight decimals.
abbrev settlement : Vaa
settlement = record {
  bytes = 1 ∷ 2 ∷ 3 ∷ [];
  payload =
      153
      ∷ 69
      ∷ 255
      ∷ 16
      ∷ (replicate 97 0 ++ (9 ∷ (replicate 38 0 ++ (8 ∷ (replicate 7 0 ++ (100 ∷ []))))));
  timestamp = 1_000;
}

abbrev logs : List Log
logs =
    record { topics = selector ∷ codes "0xAB" ∷ []; payload = 4 ∷ 8 ∷ 50 ∷ [] }
    ∷ record { topics = selector ∷ codes "0xAB" ∷ []; payload = 5 ∷ 9 ∷ 50 ∷ [] }
    ∷ []

abbrev receipt_of : Text → Option (List Log)
receipt_of hash = if bytes_eq hash (codes "0x12") then some logs else none

-- Gas is 6 units at 7 wei, a minute after the transfer.
abbrev world : World
world = record {
  now = 1_060_000;
  receipt = receipt_of;
  engine_vaa = λ sequence. none;
  scan_vaa = λ sequence. some (sequence ∷ []);
  estimate_gas = λ bytes instruction ceiling. value 6;
  max_fee_per_gas = value 7;
  gas_first = true;
}

-- The same, when the order has been delivered by another.
abbrev delivered : World
delivered = record {
  now = 1_060_000;
  receipt = receipt_of;
  engine_vaa = λ sequence. none;
  scan_vaa = λ sequence. some (sequence ∷ []);
  estimate_gas = λ bytes instruction ceiling. throws (
      base (some (record { error_name = some (codes "AlreadyRedeemed"); reason = none }))
        (codes "reverted"));
  max_fee_per_gas = value 7;
  gas_first = true;
}

world-added :
    handle selector emitter_topic event payload_bytes world settlement (some (codes "12"))
    ≡ added (5 ∷ []) 42
unfolding handle on_hash on_sequence find_instruction find_in is_ours is_topic lower_topic decoded
    matching on_order is_stale age_min with_vaa fetch_vaa or_load quote on_quote add_order
    scale_amount scaled normalize_tx_hash starts_with revert_name name_or_reason is_done has
    some_fragment includes bytes_eq to_hex hex_digit read_be to_lower_case eval
world-added = refl

delivered-skipped :
    handle selector emitter_topic event payload_bytes delivered settlement (some (codes "12"))
    ≡ skipped
unfolding handle on_hash on_sequence find_instruction find_in is_ours is_topic lower_topic decoded
    matching on_order is_stale age_min with_vaa fetch_vaa or_load quote on_quote add_order
    scale_amount scaled normalize_tx_hash starts_with revert_name name_or_reason is_done has
    some_fragment includes bytes_eq to_hex hex_digit read_be to_lower_case eval
delivered-skipped = refl

handle-Forwarded_example :
    Forwarded selector emitter_topic event payload_bytes world settlement
      (some (codes "12"))
      (5 ∷ [])
      42
handle-Forwarded_example =
    handle-Forwarded selector emitter_topic event payload_bytes world settlement (some (codes "12"))
      (5 ∷ []) 42 world-added

handle-Dropped_example :
    Dropped selector emitter_topic event payload_bytes delivered settlement (some (codes "12"))
handle-Dropped_example =
    handle-Dropped selector emitter_topic event payload_bytes delivered settlement
      (some (codes "12")) delivered-skipped
