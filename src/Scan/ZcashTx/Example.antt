-- ===== src/Scan/ZcashTx/Example.antt =====
-- A version 5 transaction with one input, signed by a key, and one output, to a script hash.
use whm.Prelude.{◌≡◌, refl, arith}
use whm.Prelude.{some}
use whm.Prelude.{[], ◌∷◌}
use whm.Prelude.{if◌then◌else◌}
use whm.Prelude.{length, replicate}
use whm.Prelude.Text.{Bytes}
use whm.Scan.ZcashTx.Script.{is_key, hash160, signer, payee, pushes}
use whm.Scan.ZcashTx.Pushes.{script_of, push_data, push_prefix, pushes-script_of}
use whm.Scan.ZcashTx.Owners.{p2pkh, p2sh, signer-payee}
use whm.Scan.ZcashTx.Parse.{parse_tx}
use whm.Scan.ZcashTx.RoundTrip.{Spend, Payment, Transparent, IsTransparent, IsSpend, seen, write_tx}
use whm.Scan.ZcashTx.RoundTrip.{parse_tx-write_tx}

abbrev sha : Bytes → Bytes
sha b = replicate 32 (length b)

abbrev ripemd : Bytes → Bytes
ripemd b = replicate 20 (length b)

abbrev signature : Bytes
signature = replicate 71 9

abbrev key : Bytes
key = 2 ∷ replicate 32 7

abbrev long_data : Bytes
long_data = replicate 80 1

abbrev hash : Bytes
hash = replicate 20 32

abbrev spend : Spend
spend = record {
  txid = replicate 32 3;
  vout = 1;
  script = script_of (signature ∷ key ∷ []);
  sequence = replicate 4 255;
  signed_by = payee sha (p2pkh hash);
}

abbrev payment : Payment
payment = record { value = 150_000; script = p2sh (replicate 20 5) }

abbrev transparent : Transparent
transparent = record {
  version = 5;
  group = replicate 4 0;
  branch = replicate 12 0;
  spends = spend ∷ [];
  payments = payment ∷ [];
}

pushes-script_of_example :
    pushes (script_of (signature ∷ long_data ∷ [])) ≡ some (signature ∷ long_data ∷ [])
pushes-script_of_example =
    pushes-script_of (signature ∷ long_data ∷ [])
      ((omega arith, omega arith), ((omega arith, omega arith), tt))

signer-payee_example :
    signer sha ripemd (script_of (signature ∷ key ∷ []))
    ≡ some (
        payee sha
          (if is_key key then p2pkh (hash160 sha ripemd key) else p2sh (hash160 sha ripemd key)))
signer-payee_example =
    signer-payee sha ripemd (signature ∷ []) key
      ((omega arith, omega arith), ((omega arith, omega arith), tt)) (unfold hash160 in refl)

spend-IsSpend : IsSpend sha ripemd spend
unfolding is_key hash160 script_of push_data push_prefix
spend-IsSpend = (refl, omega arith, omega arith, refl, signer-payee_example)

transparent-IsTransparent : IsTransparent sha ripemd transparent
transparent-IsTransparent = record {
  known = omega arith;
  positive = omega arith;
  group_size = refl;
  branch_size = refl;
  spends_count = omega arith;
  payments_count = omega arith;
  each_spend = (spend-IsSpend, tt);
  each_payment = ((omega arith, omega arith), tt);
}

parse_tx-write_tx_example :
    parse_tx sha ripemd (write_tx transparent (1 ∷ 2 ∷ [])) ≡ some (seen sha ripemd transparent)
parse_tx-write_tx_example =
    parse_tx-write_tx sha ripemd transparent (1 ∷ 2 ∷ []) transparent-IsTransparent

-- A push whose length byte is missing gives an empty one.
pushes_unsized : pushes (1 ∷ 5 ∷ 0x4c ∷ []) ≡ some ((5 ∷ []) ∷ [] ∷ [])
unfolding pushes
pushes_unsized = refl

-- A push that the script does not hold is cut.
pushes_cut : pushes (3 ∷ 7 ∷ []) ≡ some ((7 ∷ []) ∷ [])
unfolding pushes
pushes_cut = refl
