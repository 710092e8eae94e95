-- ===== src/Scan/ZcashTx/Pushes.antt =====
-- agents/scan/src/chains/zcash/tx.ts: the pushes of a script that a wallet writes.
use whm.Prelude.{ℕ, zero, suc, ◌-◌, ◌^◌, ◌≤◌, ◌<◌}
use whm.Prelude.{◌≡◌, refl, ap, ◌∙◌, inl, inr, arith}
use whm.Prelude.{Bool, true, false, Option, some}
use whm.Prelude.{List, [], ◌∷◌, ◌++◌, append_assoc}
use whm.Prelude.{ltb, leb, if◌then◌else◌, ltb→lt, Bool-cases}
use whm.Prelude.{length, take, drop, All}
use whm.Prelude.{length-append, length-drop}
use whm.Prelude.{take-append, drop-append}
use whm.Prelude.Text.{Bytes}
use whm.Prelude.LittleEndian.{le_bytes, length-le_bytes, le_value-le_bytes}
use whm.Scan.ZcashTx.Script.{Opcode, size, unsized, short, other, byte_size, le_size, opcode}
use whm.Scan.ZcashTx.Script.{prepend, push, push_loop, pushes}

-- How a wallet announces a push of so many bytes: by the shortest opcode.
unfoldable pub push_prefix : ℕ → Bytes
push_prefix n =
    if leb n 75
    then n ∷ []
    else if ltb n 256
    then 0x4c ∷ n ∷ []
    else if ltb n (256 ^ 2)
    then 0x4d ∷ le_bytes 2 n
    else 0x4e ∷ le_bytes 4 n

unfoldable pub push_data : Bytes → Bytes
push_data d = push_prefix (length d) ++ d

unfoldable pub script_of : List Bytes → Bytes
script_of [] = []
script_of (d ∷ ds) = push_data d ++ script_of ds

abbrev pub IsPush : Bytes → Type 0
IsPush d = (0 < length d) × (length d < 256 ^ 4)

-- What an opcode leaves is no longer than what followed it.
abbrev Leaves : Bytes → Opcode → Type 0
Leaves rest (size n tail) = length tail ≤ length rest
Leaves rest unsized = Unit {0}
Leaves rest short = Unit {0}
Leaves rest other = Unit {0}

byte_size-Leaves : (rest : Bytes) → Leaves rest (byte_size rest)
unfolding byte_size
byte_size-Leaves [] = tt
byte_size-Leaves (n ∷ rest) = omega arith

le_size-Leaves : (n : ℕ) (rest : Bytes) → Leaves rest (le_size n rest)
unfolding le_size
le_size-Leaves n rest = elim (Bool-cases (leb n (length rest))) [
  | inl fits ↦ rw fits (omega (arith, length-drop n rest))
  | inr past ↦ rw past tt
]

if-Leaves :
    (c : Bool) (rest : Bytes) (a b : Opcode)
    → Leaves rest a
    → Leaves rest b
    → Leaves rest (if c then a else b)
if-Leaves true rest a b p q = p
if-Leaves false rest a b p q = q

here : (op : ℕ) (rest : Bytes) → Leaves rest (size op rest)
here op rest = omega arith

opcode-Leaves : (op : ℕ) (rest : Bytes) → Leaves rest (opcode op rest)
unfolding opcode
opcode-Leaves op rest =
    search
      (if-Leaves, byte_size-Leaves rest, le_size-Leaves 2 rest, le_size-Leaves 4 rest, here, tt)

-- A round depends on the rounds that follow it at what is left only.
push_agree :
    (more same : Bytes → Option (List Bytes)) (rest : Bytes) (o : Opcode)
    → Leaves rest o
    → ((s : Bytes) → length s ≤ length rest → more s ≡ same s)
    → push more rest o ≡ push same rest o
unfolding push
push_agree more same rest (size n tail) fits h =
    ap (prepend (take n tail)) (h (drop n tail) (omega (arith, length-drop n tail)))
push_agree more same rest unsized fits h = refl
push_agree more same rest short fits h = refl
push_agree more same rest other fits h = h rest (omega arith)

-- Rounds past the script's length change nothing.
pub push_loop_fuel :
    (k l : ℕ) (s : Bytes) → length s ≤ k → length s ≤ l → push_loop k s ≡ push_loop l s
unfolding push_loop
push_loop_fuel zero zero [] p q = refl
push_loop_fuel zero (suc l) [] p q = refl
push_loop_fuel (suc k) zero [] p q = refl
push_loop_fuel (suc k) (suc l) [] p q = refl
push_loop_fuel zero l (op ∷ rest) p q = absurd (omega arith)
push_loop_fuel (suc k) zero (op ∷ rest) p q = absurd (omega arith)
push_loop_fuel (suc k) (suc l) (op ∷ rest) p q =
    push_agree (push_loop k) (push_loop l) rest (opcode op rest) (opcode-Leaves op rest)
      (λ s h. push_loop_fuel k l s (omega arith) (omega arith))

-- One announced push, with rounds to spare.
sized_push :
    (fuel op : ℕ) (lengths d rest : Bytes)
    → opcode op (lengths ++ (d ++ rest)) ≡ size (length d) (d ++ rest)
    → push_loop (suc fuel) (op ∷ lengths ++ (d ++ rest)) ≡ prepend d (push_loop fuel rest)
unfolding push_loop
sized_push fuel op lengths d rest e =
    rw (e, push, take-append (length d) d rest refl, drop-append (length d) d rest refl) refl

opcode_le :
    (op k n : ℕ) (rest : Bytes)
    → ((tail : Bytes) → opcode op tail ≡ le_size k tail)
    → n < 256 ^ k
    → opcode op (le_bytes k n ++ rest) ≡ size n rest
unfolding le_size
opcode_le op k n rest tail h =
    let enough : leb k (length (le_bytes k n ++ rest)) ≡ true =
      ground (arith, length-append (le_bytes k n) rest, length-le_bytes k n) in
    rw
      (
        tail (le_bytes k n ++ rest),
        enough,
        take-append k (le_bytes k n) rest (length-le_bytes k n),
        drop-append k (le_bytes k n) rest (length-le_bytes k n),
        le_value-le_bytes k n h,
      )
      refl

opcode_direct : (n : ℕ) (rest : Bytes) → 0 < n → n ≤ 75 → opcode n rest ≡ size n rest
unfolding opcode
opcode_direct n rest p q = ground arith

opcode_16 : (tail : Bytes) → opcode 0x4d tail ≡ le_size 2 tail
unfolding opcode
opcode_16 tail = refl

opcode_32 : (tail : Bytes) → opcode 0x4e tail ≡ le_size 4 tail
unfolding opcode
opcode_32 tail = refl

opcode_8 : (n : ℕ) (tail : Bytes) → opcode 0x4c (n ∷ tail) ≡ size n tail
unfolding opcode byte_size
opcode_8 n tail = refl

push_data_step :
    (fuel : ℕ) (d rest : Bytes)
    → IsPush d
    → push_loop (suc fuel) (push_data d ++ rest) ≡ prepend d (push_loop fuel rest)
unfolding push_data push_prefix
push_data_step fuel d rest (some_bytes, short_enough) = elim (Bool-cases (leb (length d) 75)) [
  | inl direct ↦ rw direct (
      sized_push fuel (length d) [] d rest
        (opcode_direct (length d) (d ++ rest) some_bytes (ground arith)))
  | inr longer ↦ rw longer (elim (Bool-cases (ltb (length d) 256)) [
    | inl one ↦
        rw one (sized_push fuel 0x4c (length d ∷ []) d rest (opcode_8 (length d) (d ++ rest)))
    | inr more ↦ rw more (elim (Bool-cases (ltb (length d) (256 ^ 2))) [
      | inl two ↦
          rw (two, append_assoc (le_bytes 2 (length d)) d rest)
            (sized_push fuel 0x4d (le_bytes 2 (length d)) d rest
              (opcode_le 0x4d 2 (length d) (d ++ rest) opcode_16 (ltb→lt (length d) (256 ^ 2) two)))
      | inr four ↦
          rw (four, append_assoc (le_bytes 4 (length d)) d rest)
            (sized_push fuel 0x4e (le_bytes 4 (length d)) d rest
              (opcode_le 0x4e 4 (length d) (d ++ rest) opcode_32 short_enough))
    ])
  ])
]

length-push_data : (d : Bytes) → 0 < length (push_data d)
unfolding push_data push_prefix
length-push_data d = ground (arith, length-append (push_prefix (length d)) d)

pushes_cons : (d rest : Bytes) → IsPush d → pushes (push_data d ++ rest) ≡ prepend d (pushes rest)
unfolding pushes
pushes_cons d rest h =
    let whole = length-append (push_data d) rest in
    let front = length-push_data d in
    let spare = length (push_data d ++ rest) - 1 in
    let rounds : length (push_data d ++ rest) ≡ suc spare = omega arith in
    ap (λ (k : ℕ). push_loop k (push_data d ++ rest)) rounds
    ∙ (push_data_step spare d rest h
        ∙ ap (prepend d) (push_loop_fuel spare (length rest) rest (omega arith) (omega arith)))

-- Items of 1 to 2 ^ 32 - 1 bytes that a script pushes by the shortest opcodes are read back, in order.
pub pushes-script_of : (ds : List Bytes) → All IsPush ds → pushes (script_of ds) ≡ some ds
unfolding script_of prepend
pushes-script_of [] _ = unfold pushes push_loop in refl
pushes-script_of (d ∷ ds) (h, hs) =
    rw (pushes_cons d (script_of ds) h, pushes-script_of ds hs, prepend) refl
