-- ===== src/Relayer/Intent.antt =====
-- agents/relayer/src/apps/intent/app.ts: `handle` with `quote`; instruction.ts: `findInstruction`; engine/vaa.ts: `fetchVaa`
-- and `normalizeTxHash`. The decoders of viem and what the chains answer are parameters; what is handed to
-- the queue is the outcome of a handler that gets that far.
mod Found
mod Forwards
mod Example
use whm.Prelude.{ℕ, zero, suc, ◌+◌, ◌-◌, ◌*◌, ◌/◌, ◌%◌, ◌^◌, ◌≤◌, ◌<◌, min, String}
use whm.Prelude.{◌≡◌, refl, sym, ap, ◌∙◌, ◌≢◌, ◌↔◌, ◌⊎◌, inl, inr, arith}
use whm.Prelude.{Bool, true, false, not, ◌&&◌, ◌||◌, Option, none, some}
use whm.Prelude.{List, [], ◌∷◌, ◌++◌, map, append-nil, append_assoc}
use whm.Prelude.{
  ltb, leb, ◌==◌, if◌then◌else◌, ltb→lt, lt→ltb, ==_iff, Bool-cases, Option-cases, if_elim,
}
use whm.Prelude.{length, get_elem?, take, drop, replicate, All, All-append}
use whm.Prelude.{length-append, take-append-drop, length-take, length-drop, length-replicate}
use whm.Prelude.{take-append, drop-append}
use whm.Prelude.{str_eq, eq_iff, eq_refl}
use whm.Prelude.Text.{Bytes, bytes_eq, codes, to_lower_case}
use whm.Relayer.Ntt.{is_ntt_transfer, settlement_sequence, settlement_amount}
use whm.Relayer.Revert.{Text, Thrown, revert_name, starts_with, is_done}

pub record Log : Type 0 where
  pub topics : List Text
  pub payload : Bytes

-- What the core bridge published: the emitter's sequence, and its payload.
pub record Published : Type 0 where
  pub sequence : ℕ
  pub payload : Bytes

-- The payload of an instruction.
pub record Instructed : Type 0 where
  pub manager_sequence : ℕ
  pub deposit_address : Text
  pub max_relay_fee : ℕ

pub record Instruction : Type 0 where
  pub message_sequence : ℕ
  pub deposit_address : Text
  pub max_relay_fee : ℕ

unfoldable pub normalize_tx_hash : Text → Text
normalize_tx_hash hash = if starts_with hash (codes "0x") then hash else b'0' ∷ b'x' ∷ hash

-- `topics[0] === selector`
unfoldable pub is_topic : Text → Option Text → Bool
is_topic selector none = false
is_topic selector (some topic) = bytes_eq topic selector

-- `(topics[1] ?? "").toLowerCase()`
unfoldable pub lower_topic : Option Text → Text
lower_topic none = []
lower_topic (some topic) = to_lower_case topic

module _ (selector emitter_topic : Text) (decode_event_log : Log → Option Published)
    (decode_payload : Bytes → Option Instructed) where
  unfoldable pub is_ours : Log → Bool
  is_ours l =
      is_topic selector (get_elem? l.topics 0)
      && bytes_eq (lower_topic (get_elem? l.topics 1)) emitter_topic

  -- A log of the emitter, before the logs behind it.
  unfoldable pub matching :
      ℕ → Published → Option Instructed → Option (Option Instruction) → Option (Option Instruction)
  matching sequence p none rest = none
  matching sequence p (some i) rest =
      if i.manager_sequence == sequence
      then some (
          some (record {
            message_sequence = p.sequence;
            deposit_address = i.deposit_address;
            max_relay_fee = i.max_relay_fee;
          }))
      else rest

  unfoldable pub decoded :
      ℕ → Option Published → Option (Option Instruction) → Option (Option Instruction)
  decoded sequence none rest = none
  decoded sequence (some p) rest = matching sequence p (decode_payload p.payload) rest

  -- The `for` over the receipt's logs. The outer `none` is a throw, the inner one null.
  unfoldable pub find_in : ℕ → List Log → Option (Option Instruction)
  find_in sequence [] = some none
  find_in sequence (l ∷ ls) =
      let rest = find_in sequence ls in
      if is_ours l then decoded sequence (decode_event_log l) rest else rest

  unfoldable pub find_instruction : ℕ → Option (List Log) → Option (Option Instruction)
  find_instruction sequence none = none
  find_instruction sequence (some logs) = find_in sequence logs

-- What a call of the client gives.
pub data Reply : Type 0 where
  value : ℕ → Reply
  throws : Thrown → Reply

-- `Promise.all` of the estimate and the fees; should both throw, the first in time is thrown.
unfoldable pub quote : Bool → Reply → Reply → Reply
quote gas_first (value gas) (value max_fee_per_gas) = value (gas * max_fee_per_gas)
quote gas_first (value gas) (throws e) = throws e
quote gas_first (throws e) (value fee) = throws e
quote gas_first (throws e) (throws f) = throws (if gas_first then e else f)

-- `fetchVaa`: the engine's answer, or else Wormholescan's.
unfoldable pub or_load : Option Bytes → Option Bytes → Option Bytes
or_load none loaded = loaded
or_load (some bytes) loaded = some bytes

pub record World : Type 0 where
  pub now : ℕ
  pub receipt : Text → Option (List Log)
  pub engine_vaa : ℕ → Option Bytes
  pub scan_vaa : ℕ → Option Bytes
  pub estimate_gas : Bytes → Bytes → ℕ → Reply
  pub max_fee_per_gas : Reply
  pub gas_first : Bool

unfoldable pub fetch_vaa : World → ℕ → Option Bytes
fetch_vaa world sequence = or_load (world.engine_vaa sequence) (world.scan_vaa sequence)

pub record Vaa : Type 0 where
  pub bytes : Bytes
  pub payload : Bytes
  pub timestamp : ℕ

pub data Outcome : Type 0 where
  -- `next()`, which acknowledges the message.
  skipped : Outcome
  -- The engine tries again.
  thrown : Outcome
  -- `queue.add` of the call with this instruction and fee.
  added : Bytes → ℕ → Outcome

-- `MAX_VAA_AGE_MS`
abbrev pub max_vaa_age_ms : ℕ
max_vaa_age_ms = 60 * 60_000

-- `Math.round((Date.now() - vaa.timestamp * 1000) / 60_000)`, at least 0.
unfoldable pub age_min : ℕ → ℕ → ℕ
age_min now timestamp = (now - timestamp * 1000 + 30_000) / 60_000

unfoldable pub is_stale : ℕ → ℕ → Bool
is_stale now timestamp = ltb max_vaa_age_ms (age_min now timestamp * 60_000)

-- The log line needs the amount, so that a payload it cannot be read from throws here.
unfoldable pub add_order : Bytes → ℕ → Option ℕ → Outcome
add_order instruction fee none = thrown
add_order instruction fee (some amount) = added instruction fee

unfoldable pub on_quote : Vaa → ℕ → Bytes → Reply → Outcome
on_quote vaa max_relay_fee instruction (throws e) =
    if is_done (revert_name e) then skipped else thrown
on_quote vaa max_relay_fee instruction (value fee) =
    if ltb max_relay_fee fee
    then thrown
    else add_order instruction fee (settlement_amount vaa.payload 18)

unfoldable pub with_vaa : World → Vaa → ℕ → Option Bytes → Outcome
with_vaa world vaa max_relay_fee none = thrown
with_vaa world vaa max_relay_fee (some instruction) = on_quote vaa max_relay_fee instruction (
    quote world.gas_first (world.estimate_gas vaa.bytes instruction max_relay_fee)
      world.max_fee_per_gas)

unfoldable pub on_order : World → Vaa → Option (Option Instruction) → Outcome
on_order world vaa none = thrown
on_order world vaa (some none) = skipped
on_order world vaa (some (some order)) =
    if is_stale world.now vaa.timestamp
    then skipped
    else with_vaa world vaa order.max_relay_fee (fetch_vaa world order.message_sequence)

module _ (selector emitter_topic : Text) (decode_event_log : Log → Option Published)
    (decode_payload : Bytes → Option Instructed) (world : World) (vaa : Vaa) where
  -- `none` is a payload that is too short to read the sequence from.
  unfoldable pub on_sequence : Text → Option ℕ → Outcome
  on_sequence hash none = thrown
  on_sequence hash (some sequence) = on_order world vaa (
      find_instruction selector emitter_topic decode_event_log decode_payload sequence
        (world.receipt (normalize_tx_hash hash)))

  unfoldable pub on_hash : Option Text → Outcome
  on_hash none = thrown
  on_hash (some []) = thrown
  on_hash (some (c ∷ hash)) = on_sequence (c ∷ hash) (settlement_sequence vaa.payload)

  unfoldable pub handle : Option Text → Outcome
  handle source_tx_hash =
      if not (is_ntt_transfer vaa.payload) then skipped else on_hash source_tx_hash
