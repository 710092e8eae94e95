-- ===== src/Scan/ZcashTx/Owners.antt =====
-- agents/scan/src/chains/zcash/tx.ts: `signer` of what spends an output, beside `payee` of the output.
use whm.Prelude.{◌≡◌, refl, inl, inr, arith}
use whm.Prelude.{true, false, some}
use whm.Prelude.{List, [], ◌∷◌, ◌++◌}
use whm.Prelude.{◌==◌, if◌then◌else◌, Bool-cases}
use whm.Prelude.{length, All}
use whm.Prelude.{length-append}
use whm.Prelude.{take-append}
use whm.Prelude.Text.{Bytes}
use whm.Scan.ZcashAddress.{address_of, t1, t3}
use whm.Scan.ZcashTx.Script.{last_of, is_key, hash160, signer, starts, payee}
use whm.Scan.ZcashTx.Pushes.{IsPush, script_of, pushes-script_of}

-- OP_DUP OP_HASH160 <20> … OP_EQUALVERIFY OP_CHECKSIG
abbrev pub p2pkh : Bytes → Bytes
p2pkh hash = 0x76 ∷ 0xa9 ∷ 0x14 ∷ hash ++ 0x88 ∷ 0xac ∷ []

-- OP_HASH160 <20> … OP_EQUAL
abbrev pub p2sh : Bytes → Bytes
p2sh hash = 0xa9 ∷ 0x14 ∷ hash ++ 0x87 ∷ []

last_of-append : (ds : List Bytes) (d : Bytes) → last_of (ds ++ d ∷ []) ≡ some d
unfolding last_of
last_of-append [] d = refl
last_of-append (e ∷ []) d = refl
last_of-append (e ∷ f ∷ ds) d = last_of-append (f ∷ ds) d

module _ (sha256 : Bytes → Bytes) (hash : Bytes) (sized : length hash ≡ 20) where
  payee-p2pkh : payee sha256 (p2pkh hash) ≡ address_of sha256 t1 hash
  unfolding payee starts
  payee-p2pkh =
      let whole : (length (p2pkh hash) == 25) ≡ true =
        ground (arith, length-append hash (0x88 ∷ 0xac ∷ [])) in
      rw (whole, take-append 20 hash (0x88 ∷ 0xac ∷ []) sized) refl

  payee-p2sh : payee sha256 (p2sh hash) ≡ address_of sha256 t3 hash
  unfolding payee starts
  payee-p2sh =
      let long : (length (p2sh hash) == 25) ≡ false =
        ground (arith, length-append hash (0x87 ∷ [])) in
      let whole : (length (p2sh hash) == 23) ≡ true =
        ground (arith, length-append hash (0x87 ∷ [])) in
      rw (long, whole, take-append 20 hash (0x87 ∷ []) sized) refl

module _ (sha256 ripemd160 : Bytes → Bytes) where
  signer-script_of :
      (ds : List Bytes) (d : Bytes)
      → All IsPush (ds ++ d ∷ [])
      → signer sha256 ripemd160 (script_of (ds ++ d ∷ []))
        ≡ some (address_of sha256 (if is_key d then t1 else t3) (hash160 sha256 ripemd160 d))
  unfolding signer
  signer-script_of ds d h = rw (pushes-script_of (ds ++ d ∷ []) h, last_of-append ds d) refl

  -- Of a script that pushes items of 1 to 2 ^ 32 - 1 bytes each, the signer is the payee of an output to the hash of the
  -- last item, where this hash has 20 bytes: a P2PKH output if the item is a public key, a P2SH output otherwise.
  pub signer-payee :
      (ds : List Bytes) (d : Bytes)
      → All IsPush (ds ++ d ∷ [])
      → length (hash160 sha256 ripemd160 d) ≡ 20
      → signer sha256 ripemd160 (script_of (ds ++ d ∷ []))
        ≡ some (
            payee sha256 (
              if is_key d
              then p2pkh (hash160 sha256 ripemd160 d)
              else p2sh (hash160 sha256 ripemd160 d)))
  signer-payee ds d h sized = elim (Bool-cases (is_key d)) [
    | inl key ↦
        rw (signer-script_of ds d h, key, payee-p2pkh sha256 (hash160 sha256 ripemd160 d) sized)
          refl
    | inr redeem ↦
        rw (signer-script_of ds d h, redeem, payee-p2sh sha256 (hash160 sha256 ripemd160 d) sized)
          refl
  ]
