-- ===== src/Relayer/Intent/Forwards.antt =====
-- agents/relayer/src/apps/intent/app.ts: when an order is handed to the queue, and when its message is acknowledged without.
use whm.Prelude.{ℕ, ◌*◌, ◌≤◌}
use whm.Prelude.{◌≡◌, refl, arith}
use whm.Prelude.{Bool, true, false, not, Option, none, some}
use whm.Prelude.{List, [], ◌∷◌}
use whm.Prelude.{ltb, if_elim}
use whm.Prelude.{All}
use mathlib.Core.Path.{subst}
use whm.Prelude.Text.{Bytes}
use whm.Relayer.Ntt.{is_ntt_transfer, settlement_sequence, settlement_amount}
use whm.Relayer.Revert.{Text, Thrown, revert_name, is_done}
use whm.Relayer.Intent.{
  Log, Published, Instructed, Instruction, normalize_tx_hash, find_in, find_instruction,
}
use whm.Relayer.Intent.{
  Reply, value, throws, quote, World, fetch_vaa, Vaa, Outcome, skipped, thrown, added,
}
use whm.Relayer.Intent.{
  is_stale, add_order, on_quote, with_vaa, on_order, on_sequence, on_hash, handle,
}
use whm.Relayer.Intent.Found.{Silent, FoundIn, find_in-FoundIn, find_in-Silent}

module _ (selector emitter_topic : Text) (decode_event_log : Log → Option Published)
    (decode_payload : Bytes → Option Instructed) where
  module _ (world : World) (vaa : Vaa) where
    -- What an order has that is handed to the queue.
    pub record Forwarded (source_tx_hash : Option Text) (instruction : Bytes) (fee : ℕ)
        : Type 0 where
      pub transfer : is_ntt_transfer vaa.payload ≡ true
      pub hash : Text
      pub source : source_tx_hash ≡ some hash
      pub sequence : ℕ
      pub settled : settlement_sequence vaa.payload ≡ some sequence
      pub logs : List Log
      pub receipt : world.receipt (normalize_tx_hash hash) ≡ some logs
      pub order : Instruction
      pub found : FoundIn selector emitter_topic decode_event_log decode_payload sequence order logs
      pub signed : fetch_vaa world order.message_sequence ≡ some instruction
      pub young : is_stale world.now vaa.timestamp ≡ false
      pub gas : ℕ
      pub estimated : world.estimate_gas vaa.bytes instruction order.max_relay_fee ≡ value gas
      pub price : ℕ
      pub priced : world.max_fee_per_gas ≡ value price
      pub measured : fee ≡ gas * price
      pub affordable : fee ≤ order.max_relay_fee
      pub amount : ℕ
      pub shown : settlement_amount vaa.payload 18 ≡ some amount

    -- Why a message is acknowledged with no order handed on.
    pub data Dropped (source_tx_hash : Option Text) : Type 0 where
      foreign : is_ntt_transfer vaa.payload ≡ false → Dropped source_tx_hash
      uninstructed :
          (hash : Text) (sequence : ℕ) (logs : List Log)
          → source_tx_hash ≡ some hash
          → settlement_sequence vaa.payload ≡ some sequence
          → world.receipt (normalize_tx_hash hash) ≡ some logs
          → All (Silent selector emitter_topic decode_event_log decode_payload sequence) logs
          → Dropped source_tx_hash
      stale : is_stale world.now vaa.timestamp ≡ true → Dropped source_tx_hash
      completed :
          (hash : Text) (sequence : ℕ) (logs : List Log) (order : Instruction) (instruction : Bytes)
          (e : Thrown)
          → is_ntt_transfer vaa.payload ≡ true
          → source_tx_hash ≡ some hash
          → world.receipt (normalize_tx_hash hash) ≡ some logs
          → settlement_sequence vaa.payload ≡ some sequence
          → FoundIn selector emitter_topic decode_event_log decode_payload sequence order logs
          → fetch_vaa world order.message_sequence ≡ some instruction
          → quote world.gas_first
              (world.estimate_gas vaa.bytes instruction order.max_relay_fee)
              world.max_fee_per_gas
            ≡ throws e
          → is_done (revert_name e) ≡ true
          → Dropped source_tx_hash

    -- What a part of the handler that ends so has established.
    abbrev Explained : Type 0 → (Bytes → ℕ → Type 0) → Outcome → Type 0
    Explained D P skipped = D
    Explained D P thrown = Unit
    Explained D P (added instruction fee) = P instruction fee

    quote-value :
        (gas_first : Bool) (a b : Reply) (fee : ℕ)
        → quote gas_first a b ≡ value fee
        → (gas : ℕ) × (price : ℕ) × (a ≡ value gas) × (b ≡ value price) × (fee ≡ gas * price)
    unfolding quote
    quote-value gas_first (value g) (value p) fee h = (g, p, refl, refl, cc)
    quote-value gas_first (value g) (throws e) fee h = cc
    quote-value gas_first (throws e) (value p) fee h = cc
    quote-value gas_first (throws e) (throws f) fee h = cc

    module _ (D : Type 0) (P : Bytes → ℕ → Type 0) where
      add_order-Explained :
          (instruction : Bytes) (fee : ℕ) (o : Option ℕ)
          → settlement_amount vaa.payload 18 ≡ o
          → ((amount : ℕ) → o ≡ some amount → P instruction fee)
          → Explained D P (add_order instruction fee o)
      unfolding add_order
      add_order-Explained instruction fee none shown k = tt
      add_order-Explained instruction fee (some amount) shown k = k amount refl

      on_quote-Explained :
          (order : Instruction) (instruction : Bytes) (q : Reply)
          → fetch_vaa world order.message_sequence ≡ some instruction
          → quote world.gas_first
              (world.estimate_gas vaa.bytes instruction order.max_relay_fee)
              world.max_fee_per_gas
            ≡ q
          → ((e : Thrown) → q ≡ throws e → is_done (revert_name e) ≡ true → D)
          → ((fee : ℕ) (amount : ℕ)
              → q ≡ value fee
              → fee ≤ order.max_relay_fee
              → settlement_amount vaa.payload 18 ≡ some amount
              → P instruction fee)
          → Explained D P (on_quote vaa order.max_relay_fee instruction q)
      unfolding on_quote
      on_quote-Explained order instruction (throws e) signed quoted d k =
          if_elim (Explained D P) (is_done (revert_name e)) _ _ (λ done. d e refl done)
            (λ open_still. tt)
      on_quote-Explained order instruction (value fee) signed quoted d k =
          if_elim (Explained D P) (ltb order.max_relay_fee fee) _ _ (λ dear. tt)
            (λ fits.
              add_order-Explained instruction fee (settlement_amount vaa.payload 18) refl
                (λ amount shown. k fee amount refl (ground arith) shown))

      with_vaa-Explained :
          (order : Instruction) (o : Option Bytes)
          → fetch_vaa world order.message_sequence ≡ o
          → ((instruction : Bytes) (e : Thrown)
              → o ≡ some instruction
              → quote world.gas_first
                  (world.estimate_gas vaa.bytes instruction order.max_relay_fee)
                  world.max_fee_per_gas
                ≡ throws e
              → is_done (revert_name e) ≡ true
              → D)
          → ((instruction : Bytes) (fee : ℕ) (amount : ℕ)
              → o ≡ some instruction
              → quote world.gas_first
                  (world.estimate_gas vaa.bytes instruction order.max_relay_fee)
                  world.max_fee_per_gas
                ≡ value fee
              → fee ≤ order.max_relay_fee
              → settlement_amount vaa.payload 18 ≡ some amount
              → P instruction fee)
          → Explained D P (with_vaa world vaa order.max_relay_fee o)
      unfolding with_vaa
      with_vaa-Explained order none signed d k = tt
      with_vaa-Explained order (some instruction) signed d k =
          on_quote-Explained order instruction _ signed refl
            (λ e q done. d instruction e refl q done)
            (λ fee amount q le shown. k instruction fee amount refl q le shown)

    -- What is known when the receipt has been read.
    record Read (source_tx_hash : Option Text) (sequence : ℕ) (receipt : Option (List Log))
        : Type 0 where
      transfer : is_ntt_transfer vaa.payload ≡ true
      hash : Text
      source : source_tx_hash ≡ some hash
      settled : settlement_sequence vaa.payload ≡ some sequence
      read : world.receipt (normalize_tx_hash hash) ≡ receipt

    on_order-Explained :
        (source_tx_hash : Option Text) (sequence : ℕ) (logs : List Log)
        (o : Option (Option Instruction))
        → Read source_tx_hash sequence (some logs)
        → find_in selector emitter_topic decode_event_log decode_payload sequence logs ≡ o
        → Explained (Dropped source_tx_hash) (Forwarded source_tx_hash) (on_order world vaa o)
    unfolding on_order
    on_order-Explained source sequence logs none known e = tt
    on_order-Explained source sequence logs (some none) known e =
        uninstructed known.hash sequence logs known.source known.settled known.read
          (find_in-Silent selector emitter_topic decode_event_log decode_payload sequence logs e)
    on_order-Explained source sequence logs (some (some order)) known e =
        if_elim (Explained (Dropped source) (Forwarded source)) (is_stale world.now vaa.timestamp) _
          _ (λ old. stale old)
          (λ young.
            with_vaa-Explained (Dropped source) (Forwarded source) order _ refl
              (λ instruction t signed quoted done.
                completed known.hash sequence logs order instruction t known.transfer known.source
                  known.read known.settled
                  (find_in-FoundIn selector emitter_topic decode_event_log decode_payload sequence
                    order logs e)
                  signed quoted done)
              (λ instruction fee amount signed quoted le shown.
                let (gas, price, estimated, priced, measured) =
                  quote-value world.gas_first _ world.max_fee_per_gas fee quoted in
                record {
                  transfer = known.transfer;
                  hash = known.hash;
                  source = known.source;
                  sequence = sequence;
                  settled = known.settled;
                  logs = logs;
                  receipt = known.read;
                  order = order;
                  found =
                      find_in-FoundIn selector emitter_topic decode_event_log decode_payload
                        sequence order logs e;
                  signed = signed;
                  young = young;
                  gas = gas;
                  estimated = estimated;
                  price = price;
                  priced = priced;
                  measured = measured;
                  affordable = le;
                  amount = amount;
                  shown = shown;
                }))

    found-Explained :
        (source_tx_hash : Option Text) (sequence : ℕ) (receipt : Option (List Log))
        → Read source_tx_hash sequence receipt
        → Explained (Dropped source_tx_hash) (Forwarded source_tx_hash) (
            on_order world vaa (
              find_instruction selector emitter_topic decode_event_log decode_payload sequence
                receipt))
    unfolding find_instruction
    found-Explained source sequence none known = unfold on_order in tt
    found-Explained source sequence (some logs) known =
        on_order-Explained source sequence logs _ known refl

    on_sequence-Explained :
        (hash : Text) (o : Option ℕ)
        → is_ntt_transfer vaa.payload ≡ true
        → settlement_sequence vaa.payload ≡ o
        → Explained
            (Dropped (some hash))
            (Forwarded (some hash))
            (on_sequence selector emitter_topic decode_event_log decode_payload world vaa hash o)
    unfolding on_sequence
    on_sequence-Explained hash none transfer settled = tt
    on_sequence-Explained hash (some sequence) transfer settled =
        found-Explained (some hash) sequence _ (record {
          transfer = transfer;
          hash = hash;
          source = refl;
          settled = settled;
          read = refl;
        })

    on_hash-Explained :
        (source_tx_hash : Option Text)
        → is_ntt_transfer vaa.payload ≡ true
        → Explained (Dropped source_tx_hash) (Forwarded source_tx_hash) (
            on_hash selector emitter_topic decode_event_log decode_payload world vaa source_tx_hash)
    unfolding on_hash
    on_hash-Explained none transfer = tt
    on_hash-Explained (some []) transfer = tt
    on_hash-Explained (some (c ∷ hash)) transfer = on_sequence-Explained (c ∷ hash) _ transfer refl

    handle-Explained :
        (source_tx_hash : Option Text)
        → Explained
            (Dropped source_tx_hash)
            (Forwarded source_tx_hash)
            (handle selector emitter_topic decode_event_log decode_payload world vaa source_tx_hash)
    unfolding handle
    handle-Explained source =
        if_elim (Explained (Dropped source) (Forwarded source)) (not (is_ntt_transfer vaa.payload))
          _ _ (λ no_transfer. foreign (ground arith))
          (λ transfer. on_hash-Explained source (ground arith))

    -- An order is handed to the queue only for a transfer whose source transaction's receipt has a log of the emitter that
    -- instructs about the settlement's sequence, with the signed message of that log as its instruction,
    -- while the message is not stale and its amount can be read, and with the estimated gas at the highest
    -- price as its fee, which is within the order's ceiling.
    pub handle-Forwarded :
        (source_tx_hash : Option Text) (instruction : Bytes) (fee : ℕ)
        → handle selector emitter_topic decode_event_log decode_payload world vaa source_tx_hash
          ≡ added instruction fee
        → Forwarded source_tx_hash instruction fee
    handle-Forwarded source instruction fee h =
        subst (Explained (Dropped source) (Forwarded source)) h (handle-Explained source)

    -- A message is acknowledged with no order handed on only if it is no transfer, if no log of the source
    -- transaction's receipt is one of the emitter that instructs about the settlement's sequence, if the
    -- message is stale, or if a log of that receipt is one of the emitter that so instructs, its message is
    -- signed, and the quote of its order fails for a reason that says that it is done.
    pub handle-Dropped :
        (source_tx_hash : Option Text)
        → handle selector emitter_topic decode_event_log decode_payload world vaa source_tx_hash
          ≡ skipped
        → Dropped source_tx_hash
    handle-Dropped source h =
        subst (Explained (Dropped source) (Forwarded source)) h (handle-Explained source)
