-- ===== src/Scan/ZcashTx/RoundTrip.antt =====
-- agents/scan/src/chains/zcash/tx.ts: `parseTx` on a transaction as a node serializes it.
use whm.Prelude.{ℕ, ◌+◌, ◌%◌, ◌^◌, ◌≤◌, ◌<◌}
use whm.Prelude.{◌≡◌, refl, inl, inr, arith}
use whm.Prelude.{false, Option, some}
use whm.Prelude.{List, [], ◌∷◌, ◌++◌, map}
use whm.Prelude.{ltb, leb, if◌then◌else◌, Bool-cases}
use whm.Prelude.{length, All}
use whm.Prelude.Text.{Bytes}
use whm.Prelude.LittleEndian.{le_bytes}
use whm.Scan.ZcashTx.Reader.{Reader, and_read, ◌>>=◌}
use whm.Scan.ZcashTx.Reader.{read_bytes, skip, compact, compact_bytes}
use whm.Scan.ZcashTx.Reader.{read_bytes-append, read_le-le_bytes, compact-compact_bytes}
use whm.Scan.ZcashTx.Script.{signer, payee}
use whm.Scan.ZcashTx.Parse.{TxInput, TxOutput, ZcashTx, prevout_of, version_of, skip_branch}
use whm.Scan.ZcashTx.Parse.{
  read_input, read_output, read_many, read_bundle, read_body, read_version, read_tx, parse_tx,
}

-- An input, and who its script signs as.
pub record Spend : Type 0 where
  pub txid : Bytes
  pub vout : ℕ
  pub script : Bytes
  pub sequence : Bytes
  pub signed_by : Option (List ℕ)

pub record Payment : Type 0 where
  pub value : ℕ
  pub script : Bytes

-- `branch` stands for the consensus branch, the lock time and the expiry, from version 5 on.
pub record Transparent : Type 0 where
  pub version : ℕ
  pub group : Bytes
  pub branch : Bytes
  pub spends : List Spend
  pub payments : List Payment

-- Each writer takes what stands behind what it writes.
abbrev Writer : Type 0 → Type 0
Writer A = A → Bytes → Bytes

unfoldable pub write_all : {A : Type 0} → Writer A → Writer (List A)
write_all one [] rest = rest
write_all one (a ∷ as_list) rest = one a (write_all one as_list rest)

unfoldable pub write_script : Writer Bytes
write_script script rest = compact_bytes (length script) ++ (script ++ rest)

unfoldable pub write_spend : Writer Spend
write_spend s rest = s.txid ++ (le_bytes 4 s.vout ++ write_script s.script (s.sequence ++ rest))

unfoldable pub write_payment : Writer Payment
write_payment p rest = le_bytes 8 p.value ++ write_script p.script rest

unfoldable pub write_body : Writer Transparent
write_body t rest =
    compact_bytes (length t.spends)
    ++ write_all write_spend t.spends
        (compact_bytes (length t.payments) ++ write_all write_payment t.payments rest)

-- The top bit of the version says that a version group follows.
unfoldable pub write_tx : Writer Transparent
write_tx t rest =
    le_bytes 4 (2 ^ 31 + t.version)
    ++ (t.group ++ (if leb 5 t.version then t.branch ++ write_body t rest else write_body t rest))

abbrev pub IsPayment : Payment → Type 0
IsPayment p = (p.value < 256 ^ 8) × (length p.script < 256 ^ 8)

read_many-write_all :
    {A B : Type 0} (one : Reader B) (write : Writer A) (value : A → B) (xs : List A)
    → All (λ x. (rest : Bytes) → one (write x rest) ≡ some (value x, rest)) xs
    → (rest : Bytes)
    → read_many one (length xs) (write_all write xs rest) ≡ some (map value xs, rest)
unfolding read_many write_all
read_many-write_all one write value [] _ rest = refl
read_many-write_all one write value (x ∷ xs) (h, hs) rest =
    rw (h (write_all write xs rest), and_read, read_many-write_all one write value xs hs rest) refl

compact-write_script :
    {B : Type 0} (script rest : Bytes) (next : Bytes → Reader B)
    → length script < 256 ^ 8
    → (compact >>= λ n. read_bytes n >>= next) (write_script script rest) ≡ next script rest
unfolding write_script
compact-write_script script rest next h =
    rw
      (
        compact-compact_bytes (length script) (script ++ rest) h,
        and_read,
        read_bytes-append (length script) script rest refl,
      )
      refl

module _ (sha256 ripemd160 : Bytes → Bytes) where
  abbrev pub IsSpend : Spend → Type 0
  IsSpend s =
      (length s.txid ≡ 32)
      × (s.vout < 256 ^ 4)
      × (length s.script < 256 ^ 8)
      × (length s.sequence ≡ 4)
      × (signer sha256 ripemd160 s.script ≡ some s.signed_by)

  unfoldable pub seen_input : Spend → TxInput
  seen_input s = record { prevout = prevout_of s.txid s.vout; address = s.signed_by }

  unfoldable pub seen_output : Payment → TxOutput
  seen_output p = record { value = p.value; address = payee sha256 p.script }

  unfoldable pub seen : Transparent → ZcashTx
  seen t = record {
    version = t.version;
    inputs = map seen_input t.spends;
    outputs = map seen_output t.payments;
  }

  read_input-write_spend :
      (s : Spend)
      → IsSpend s
      → (rest : Bytes)
      → read_input sha256 ripemd160 (write_spend s rest) ≡ some (seen_input s, rest)
  unfolding read_input write_spend seen_input skip write_script
  read_input-write_spend s (txid, vout, script, sequence, signed) rest =
      rw
        (
          read_bytes-append 32 s.txid
              (le_bytes 4 s.vout ++ write_script s.script (s.sequence ++ rest)) txid,
          and_read,
          read_le-le_bytes 4 s.vout (write_script s.script (s.sequence ++ rest)) vout,
          and_read,
          compact-compact_bytes (length s.script) (s.script ++ (s.sequence ++ rest)) script,
          and_read,
          read_bytes-append (length s.script) s.script (s.sequence ++ rest) refl,
          and_read,
          read_bytes-append 4 s.sequence rest sequence,
          and_read,
          signed,
        )
        refl

  read_output-write_payment :
      (p : Payment)
      → IsPayment p
      → (rest : Bytes) → read_output sha256 (write_payment p rest) ≡ some (seen_output p, rest)
  unfolding read_output write_payment seen_output
  read_output-write_payment p (value, script) rest =
      rw (read_le-le_bytes 8 p.value (write_script p.script rest) value, and_read)
        (compact-write_script p.script rest _ script)

  read_spends :
      (ss : List Spend)
      → All IsSpend ss
      → All
          (λ s.
            (rest : Bytes)
            → read_input sha256 ripemd160 (write_spend s rest) ≡ some (seen_input s, rest))
          ss
  read_spends [] _ = tt
  read_spends (s ∷ ss) (h, hs) = (read_input-write_spend s h, read_spends ss hs)

  read_payments :
      (ps : List Payment)
      → All IsPayment ps
      → All
          (λ p.
            (rest : Bytes) → read_output sha256 (write_payment p rest) ≡ some (seen_output p, rest))
          ps
  read_payments [] _ = tt
  read_payments (p ∷ ps) (h, hs) = (read_output-write_payment p h, read_payments ps hs)

  pub record IsTransparent (t : Transparent) : Type 0 where
    pub known : 4 ≤ t.version
    pub positive : t.version < 2 ^ 31
    pub group_size : length t.group ≡ 4
    pub branch_size : length t.branch ≡ 12
    pub spends_count : length t.spends < 256 ^ 8
    pub payments_count : length t.payments < 256 ^ 8
    pub each_spend : All IsSpend t.spends
    pub each_payment : All IsPayment t.payments

  read_bundle-write_body :
      (t : Transparent) (rest : Bytes)
      → IsTransparent t
      → read_bundle sha256 ripemd160 t.version (write_body t rest) ≡ some (seen t, rest)
  unfolding read_bundle write_body seen
  read_bundle-write_body t rest valid =
      let paid = write_all write_payment t.payments rest in
      let counted = compact_bytes (length t.payments) ++ paid in
      rw
        (
          compact-compact_bytes (length t.spends) (write_all write_spend t.spends counted)
              valid.spends_count,
          and_read,
          read_many-write_all (read_input sha256 ripemd160) write_spend seen_input t.spends
              (read_spends t.spends valid.each_spend) counted,
          and_read,
          compact-compact_bytes (length t.payments) paid valid.payments_count,
          and_read,
          read_many-write_all (read_output sha256) write_payment seen_output t.payments
              (read_payments t.payments valid.each_payment) rest,
          and_read,
        )
        refl

  read_body-group :
      (t : Transparent) (rest : Bytes)
      → IsTransparent t
      → read_body sha256 ripemd160 t.version (
          t.group ++ (if leb 5 t.version then t.branch ++ write_body t rest else write_body t rest))
        ≡ some (seen t, rest)
  unfolding read_body skip skip_branch
  read_body-group t rest valid = elim (Bool-cases (leb 5 t.version)) [
    | inl later ↦
        rw
          (
            later,
            read_bytes-append 4 t.group (t.branch ++ write_body t rest) valid.group_size,
            and_read,
            read_bytes-append 12 t.branch (write_body t rest) valid.branch_size,
            and_read,
          )
          (read_bundle-write_body t rest valid)
    | inr fourth ↦
        rw (fourth, read_bytes-append 4 t.group (write_body t rest) valid.group_size, and_read)
          (read_bundle-write_body t rest valid)
  ]

  -- A transaction of version 4 or later whose transparent part is written out as nodes serialize it, and each of whose
  -- input scripts is read as its given signer, is parsed, whatever follows that part: into the version, for each
  -- input its outpoint and the signer, for each output its value and the payee of its script.
  pub parse_tx-write_tx :
      (t : Transparent) (rest : Bytes)
      → IsTransparent t
      → parse_tx sha256 ripemd160 (write_tx t rest) ≡ some (seen t)
  unfolding parse_tx read_tx write_tx read_version version_of
  parse_tx-write_tx t rest valid =
      let bound = valid.positive in
      let low : (2 ^ 31 + t.version) % 2 ^ 31 ≡ t.version = omega arith in
      let known : ltb t.version 4 ≡ false = ground (arith, valid.known) in
      let behind =
        t.group ++ (if leb 5 t.version then t.branch ++ write_body t rest else write_body t rest) in
      rw
        (
          read_le-le_bytes 4 (2 ^ 31 + t.version) behind (omega arith),
          and_read,
          low,
          known,
          read_body-group t rest valid,
        )
        refl
