-- ===== src/Scan/Payload/Total.antt =====
-- Whether reading a payload can throw.
use whm.Prelude.{ℕ, ◌+◌, ◌≤◌, ◌<◌}
use whm.Prelude.{◌≡◌, refl, arith}
use whm.Prelude.{Bool, true, false, not, ◌||◌, Option, none, some}
use whm.Prelude.{List}
use whm.Prelude.{ltb, leb, if◌then◌else◌}
use whm.Prelude.{length}
use whm.Prelude.Text.{Bytes, bytes_eq, from_hex}
use whm.Prelude.Buffer.{subarray, read_be}
use whm.Scan.Payload.{
  NttTransfer, hex, sequence_of, read_fields, parse_inner, cut_inner, parse_manager, cut_manager,
  parse_bytes, parse_ntt_transfer, without_0x, ntt_prefix, transceiver_prefix,
}

unfoldable pub defined {ℓ} : {A : Type ℓ} → Option A → Bool
defined none = false
defined (some a) = true

read_be-defined : (b : Bytes) (at n : ℕ) → at + n ≤ length b → defined (read_be b at n) ≡ true
unfolding read_be defined
read_be-defined b at n h = ground arith

sequence_of-defined : (manager : Bytes) → 32 ≤ length manager → defined (sequence_of manager) ≡ true
unfolding sequence_of defined
sequence_of-defined manager h = ground (arith, read_be-defined manager 24 8 h)

read_fields-defined :
    (t : NttTransfer) (a b c : Option ℕ)
    → defined a ≡ true
    → defined b ≡ true
    → defined c ≡ true
    → defined (read_fields t a b c) ≡ true
unfolding read_fields defined
read_fields-defined t none b c ha hb hc = absurd (cc)
read_fields-defined t (some x) none c ha hb hc = absurd (cc)
read_fields-defined t (some x) (some y) none ha hb hc = absurd (cc)
read_fields-defined t (some x) (some y) (some z) ha hb hc = refl

fields-defined :
    (t : NttTransfer) (inner : Bytes)
    → 79 ≤ length inner
    → defined (read_fields t (read_be inner 4 1) (read_be inner 5 8) (read_be inner 77 2)) ≡ true
fields-defined t inner h =
    read_fields-defined t (read_be inner 4 1) (read_be inner 5 8) (read_be inner 77 2)
      (read_be-defined inner 4 1 (omega arith)) (read_be-defined inner 5 8 (omega arith))
      (read_be-defined inner 77 2 (omega arith))

guarded :
    {A : Type 0} (g : Bool) (r : Option (Option A))
    → (g ≡ false → defined r ≡ true)
    → defined (if g then some none else r) ≡ true
unfolding defined
guarded true r h = refl
guarded false r h = h refl

not_thrown :
    {A : Type 0} (c : Bool) (r : Option (Option A))
    → c ≡ false
    → defined r ≡ true
    → defined (if c then none else r) ≡ true
not_thrown true r e h = absurd (cc)
not_thrown false r e h = h

module _ (keccak256 : Bytes → List ℕ) where
  parse_inner-defined :
      (b manager : Bytes) (chain : ℕ) (s : Option ℕ) (inner : Bytes)
      → chain < 65_536
      → defined (parse_inner keccak256 b manager chain s inner) ≡ true
  unfolding parse_inner
  parse_inner-defined b manager chain s inner h =
      let fits : leb 65_536 chain ≡ false = ground arith in
      guarded (ltb (length inner) 79 || not (bytes_eq (hex inner 0 4) ntt_prefix)) _
        (λ g. not_thrown (leb 65_536 chain) _ fits (fields-defined _ inner (ground arith)))

  cut_inner-defined :
      (b manager : Bytes) (chain : ℕ) (s : Option (Option ℕ)) (l : Option ℕ)
      → chain < 65_536
      → defined s ≡ true
      → defined l ≡ true
      → defined (cut_inner keccak256 b manager chain s l) ≡ true
  unfolding cut_inner defined
  cut_inner-defined b manager chain none l h hs hl = absurd (cc)
  cut_inner-defined b manager chain (some s) none h hs hl = absurd (cc)
  cut_inner-defined b manager chain (some s) (some l) h hs hl =
      parse_inner-defined b manager chain s (subarray manager 66 l) h

  parse_manager-defined :
      (b manager : Bytes) (chain : ℕ)
      → chain < 65_536
      → defined (parse_manager keccak256 b manager chain) ≡ true
  unfolding parse_manager
  parse_manager-defined b manager chain h = guarded (ltb (length manager) 66) _ (λ g.
      cut_inner-defined b manager chain (sequence_of manager) (read_be manager 64 2) h
        (sequence_of-defined manager (ground arith)) (read_be-defined manager 64 2 (ground arith)))

  cut_manager-defined :
      (b : Bytes) (chain : ℕ) (l : Option ℕ)
      → chain < 65_536
      → defined l ≡ true
      → defined (cut_manager keccak256 b chain l) ≡ true
  unfolding cut_manager defined
  cut_manager-defined b chain none h hl = absurd (cc)
  cut_manager-defined b chain (some l) h hl = parse_manager-defined b (subarray b 70 l) chain h

  -- Reading a payload never throws, whatever text it is given, if the source chain's number fits in two
  -- bytes: there is a transfer or a `null`.
  pub parse_ntt_transfer-defined :
      (payload : List ℕ) (chain : ℕ)
      → chain < 65_536
      → defined (parse_ntt_transfer keccak256 payload chain) ≡ true
  unfolding parse_ntt_transfer parse_bytes
  parse_ntt_transfer-defined payload chain h =
      let b = from_hex (without_0x payload) in
      guarded (ltb (length b) 70) _ (λ long.
        guarded (not (bytes_eq (hex b 0 4) transceiver_prefix)) _ (λ g.
          cut_manager-defined b chain (read_be b 68 2) h (read_be-defined b 68 2 (ground arith))))
