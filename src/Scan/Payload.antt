-- ===== src/Scan/Payload.antt =====
-- agents/scan/src/ingest/payload.ts: the whole of an NTT transfer, as the indexer reads it. The outer
-- `none` of a result is a read that throws, the inner one the `null` of a message that is no transfer.
-- Texts begin with `0x`.
pub mod Total
pub mod Wire
pub mod Inner
pub mod RoundTrip
pub mod Settlement
mod Example
use whm.Prelude.{ℕ, zero, suc, ◌+◌, ◌-◌, ◌*◌, ◌/◌, ◌%◌, ◌^◌, ◌≤◌, ◌<◌, min, String}
use whm.Prelude.{◌≡◌, refl, sym, ap, ◌∙◌, ◌≢◌, ◌↔◌, ◌⊎◌, inl, inr, arith}
use whm.Prelude.{Bool, true, false, not, ◌&&◌, ◌||◌, Option, none, some}
use whm.Prelude.{List, [], ◌∷◌, ◌++◌, map, append-nil, append_assoc}
use whm.Prelude.{ltb, leb, ◌==◌, if◌then◌else◌, ltb→lt, lt→ltb, ==_iff, Bool-cases, Option-cases}
use whm.Prelude.{length, get_elem?, take, drop, replicate, All, All-append}
use whm.Prelude.{length-append, take-append-drop, length-take, length-drop, length-replicate}
use whm.Prelude.{take-append, drop-append}
use whm.Prelude.{str_eq, eq_iff, eq_refl}
use whm.Prelude.Text.{Bytes, codes, bytes_eq, to_hex, from_hex}
use whm.Prelude.Buffer.{subarray, read_be, be_bytes}

abbrev pub transceiver_prefix : List ℕ
transceiver_prefix = codes "0x9945ff10"

abbrev pub ntt_prefix : List ℕ
ntt_prefix = codes "0x994e5454"

pub record NttTransfer : Type 0 where
  pub digest : List ℕ
  pub id : List ℕ
  pub sequence : Option ℕ
  pub sender : List ℕ
  pub source_manager : List ℕ
  pub recipient_manager : List ℕ
  pub decimals : ℕ
  pub amount : ℕ
  pub source_token : List ℕ
  pub to : List ℕ
  pub to_chain : ℕ

abbrev pub with_0x : List ℕ → List ℕ
with_0x s = b'0' ∷ b'x' ∷ s

-- `replace(/^0x/, "")`
unfoldable pub without_0x : List ℕ → List ℕ
without_0x [] = []
without_0x (c ∷ []) = c ∷ []
without_0x (c ∷ d ∷ s) = if c == b'0' && d == b'x' then s else c ∷ d ∷ s

-- `hex` and `address`
abbrev pub hex : Bytes → ℕ → ℕ → List ℕ
hex b at len = with_0x (to_hex (subarray b at len))

abbrev pub address : List ℕ → List ℕ
address bytes32 = with_0x (drop 24 (without_0x bytes32))

unfoldable pub every_zero : Bytes → Bool
every_zero [] = true
every_zero (x ∷ xs) = x == 0 && every_zero xs

some_sequence : Option ℕ → Option (Option ℕ)
some_sequence none = none
some_sequence (some n) = some (some n)

-- The id as a sequence, where it is one.
unfoldable pub sequence_of : Bytes → Option (Option ℕ)
unfolding some_sequence
sequence_of manager =
    if every_zero (subarray manager 0 24) then some_sequence (read_be manager 24 8) else some none

-- The reads of the returned object, which may throw.
unfoldable pub read_fields :
    NttTransfer → Option ℕ → Option ℕ → Option ℕ → Option (Option NttTransfer)
read_fields rest none amount to_chain = none
read_fields rest (some d) none to_chain = none
read_fields rest (some d) (some a) none = none
read_fields rest (some d) (some a) (some c) =
    some (some (record rest { decimals = d; amount = a; to_chain = c }))

module _ (keccak256 : Bytes → List ℕ) where
  -- From `inner` on; `writeUInt16BE` takes two bytes at most.
  unfoldable pub parse_inner : Bytes → Bytes → ℕ → Option ℕ → Bytes → Option (Option NttTransfer)
  parse_inner b manager source_chain_id sequence inner =
      if ltb (length inner) 79 || not (bytes_eq (hex inner 0 4) ntt_prefix)
      then some none
      else if leb 65_536 source_chain_id
      then none
      else read_fields
          (record {
            digest = keccak256 (be_bytes 2 source_chain_id ++ manager);
            id = hex manager 0 32;
            sequence = sequence;
            sender = hex manager 32 32;
            source_manager = address (hex b 4 32);
            recipient_manager = address (hex b 36 32);
            decimals = 0;
            amount = 0;
            source_token = address (hex inner 13 32);
            to = hex inner 45 32;
            to_chain = 0;
          })
          (read_be inner 4 1) (read_be inner 5 8) (read_be inner 77 2)

  unfoldable pub cut_inner :
      Bytes → Bytes → ℕ → Option (Option ℕ) → Option ℕ → Option (Option NttTransfer)
  cut_inner b manager source_chain_id none inner_len = none
  cut_inner b manager source_chain_id (some sequence) none = none
  cut_inner b manager source_chain_id (some sequence) (some inner_len) =
      parse_inner b manager source_chain_id sequence (subarray manager 66 inner_len)

  unfoldable pub parse_manager : Bytes → Bytes → ℕ → Option (Option NttTransfer)
  parse_manager b manager source_chain_id =
      if ltb (length manager) 66
      then some none
      else cut_inner b manager source_chain_id (sequence_of manager) (read_be manager 64 2)

  unfoldable pub cut_manager : Bytes → ℕ → Option ℕ → Option (Option NttTransfer)
  cut_manager b source_chain_id none = none
  cut_manager b source_chain_id (some manager_len) =
      parse_manager b (subarray b 70 manager_len) source_chain_id

  -- On the bytes of the payload.
  unfoldable pub parse_bytes : Bytes → ℕ → Option (Option NttTransfer)
  parse_bytes b source_chain_id =
      if ltb (length b) 70
      then some none
      else if not (bytes_eq (hex b 0 4) transceiver_prefix)
      then some none
      else cut_manager b source_chain_id (read_be b 68 2)

  unfoldable pub parse_ntt_transfer : List ℕ → ℕ → Option (Option NttTransfer)
  parse_ntt_transfer payload source_chain_id =
      parse_bytes (from_hex (without_0x payload)) source_chain_id
