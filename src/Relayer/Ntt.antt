-- ===== src/Relayer/Ntt.antt =====
-- agents/relayer/src/engine/ntt.ts: what a relayer reads out of an NTT transceiver payload. A read that
-- throws is `none`; an address is its text.
use whm.Prelude.{ℕ, ◌+◌, ◌-◌, ◌*◌, ◌^◌}
use whm.Prelude.{Bool, Option, none, some}
use whm.Prelude.{List}
use whm.Prelude.{ltb, if◌then◌else◌}
use whm.Prelude.{drop}
use whm.Prelude.Text.{to_lower_case, Bytes, codes, bytes_eq, to_hex}
use whm.Prelude.Buffer.{subarray, read_be}

abbrev pub ntt_transfer_prefix : List ℕ
ntt_transfer_prefix = codes "9945ff10"

abbrev pub recipient_manager_offset : ℕ
recipient_manager_offset = 36

abbrev pub sequence_offset : ℕ
sequence_offset = 70 + 24

abbrev pub decimals_offset : ℕ
decimals_offset = 140

abbrev pub amount_offset : ℕ
amount_offset = 141

abbrev pub is_ntt_transfer : Bytes → Bool
is_ntt_transfer payload = bytes_eq (to_hex (subarray payload 0 4)) ntt_transfer_prefix

abbrev pub settlement_sequence : Bytes → Option ℕ
settlement_sequence payload = read_be payload sequence_offset 8

-- The amount scaled from the precision it was trimmed to.
unfoldable pub scaled : ℕ → Option ℕ → ℕ → Option ℕ
scaled trimmed_to none decimals = none
scaled trimmed_to (some amount) decimals = some (amount * 10 ^ (decimals - trimmed_to))

-- A precision finer than the destination's is refused.
unfoldable pub scale_amount : Option ℕ → Option ℕ → ℕ → Option ℕ
unfolding scaled
scale_amount none amount decimals = none
scale_amount (some trimmed_to) amount decimals =
    if ltb decimals trimmed_to then none else scaled trimmed_to amount decimals

abbrev pub settlement_amount : Bytes → ℕ → Option ℕ
settlement_amount payload decimals =
    scale_amount (read_be payload decimals_offset 1) (read_be payload amount_offset 8) decimals

abbrev pub recipient_manager : Bytes → List ℕ
recipient_manager payload = to_hex (subarray payload recipient_manager_offset 32)

-- viem's `pad` to 32 bytes is a parameter.
module _ (pad : List ℕ → List ℕ) where
  unfoldable pub is_for_manager : Bytes → List ℕ → Bool
  is_for_manager payload manager =
      bytes_eq (recipient_manager payload) (to_lower_case (drop 2 (pad manager)))
