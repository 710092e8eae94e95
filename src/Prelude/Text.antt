-- ===== src/Prelude/Text.antt =====
-- Texts and buffers as lists of numbers: the code points of a literal, comparison, and Node's
-- `toString("hex")` and `Buffer.from(text, "hex")`.
use Prim.Native.Char.{code}
use whm.Prelude.{ℕ, ◌+◌, ◌-◌, ◌*◌, ◌/◌, ◌%◌, ◌<◌, ◌≡◌, refl, arith, String}
use whm.Prelude.{Bool, true, false, ◌&&◌, Option, none, some, List, [], ◌∷◌}
use whm.Prelude.{◌↔◌, ==_iff}
use whm.Prelude.Assoc.{Key}
use whm.Prelude.Radix.{emit_digits}
use whm.Prelude.{ltb, leb, ◌==◌, if◌then◌else◌, All}

abbrev pub codes : String → List ℕ
codes String.[] = []
codes (String.◌∷◌ c s) = code c ∷ codes s

abbrev pub IsByte : ℕ → Type 0
IsByte b = b < 256

abbrev pub Bytes : Type 0
Bytes = List ℕ

-- `Buffer.equals`, and `===` on texts.
unfoldable pub bytes_eq : Bytes → Bytes → Bool
bytes_eq [] [] = true
bytes_eq [] (y ∷ ys) = false
bytes_eq (x ∷ xs) [] = false
bytes_eq (x ∷ xs) (y ∷ ys) = x == y && bytes_eq xs ys

pub bytes_eq_sound : (xs ys : Bytes) → bytes_eq xs ys ≡ true → xs ≡ ys
unfolding bytes_eq
bytes_eq_sound [] [] h = refl
bytes_eq_sound [] (y ∷ ys) h = ground arith
bytes_eq_sound (x ∷ xs) [] h = ground arith
bytes_eq_sound (x ∷ xs) (y ∷ ys) h = ground (arith, bytes_eq_sound xs ys)

pub bytes_eq_refl : (xs : Bytes) → bytes_eq xs xs ≡ true
unfolding bytes_eq
bytes_eq_refl [] = refl
bytes_eq_refl (x ∷ xs) = ground (arith, bytes_eq_refl xs)

pub bytes_eq_iff : (a b : Bytes) → (bytes_eq a b ≡ true) ↔ (a ≡ b)
bytes_eq_iff a b = (bytes_eq_sound a b, λ e. rw e (bytes_eq_refl b))

instance abbrev pub number_key : Key ℕ
number_key = record { same = ◌==◌; same_iff = ==_iff }

instance abbrev pub text_key : Key Bytes
text_key = record { same = bytes_eq; same_iff = bytes_eq_iff }

-- `toLowerCase`, of ASCII.
unfoldable pub to_lower_case : List ℕ → List ℕ
to_lower_case [] = []
to_lower_case (c ∷ s) = (if leb b'A' c && leb c b'Z' then c + 32 else c) ∷ to_lower_case s

unfoldable pub hex_digit : ℕ → ℕ
hex_digit n = if ltb n 10 then b'0' + n else b'a' + (n - 10)

unfoldable pub to_hex : Bytes → List ℕ
to_hex [] = []
to_hex (b ∷ bs) = hex_digit (b / 16) ∷ hex_digit (b % 16) ∷ to_hex bs

unfoldable pub hex_value : ℕ → Option ℕ
hex_value c =
    if leb b'0' c && leb c b'9'
    then some (c - b'0')
    else if leb b'a' c && leb c b'f'
    then some (c - b'a' + 10)
    else if leb b'A' c && leb c b'F'
    then some (c - b'A' + 10)
    else none

pair_up : Option ℕ → Option ℕ → Bytes → Bytes
pair_up (some x) (some y) rest = (16 * x + y) ∷ rest
pair_up (some x) none rest = []
pair_up none y rest = []

-- Node stops at the first pair that is not hexadecimal.
unfoldable pub from_hex : List ℕ → Bytes
unfolding pair_up
from_hex [] = []
from_hex (a ∷ []) = []
from_hex (a ∷ b ∷ s) = pair_up (hex_value a) (hex_value b) (from_hex s)

hex_value-hex_digit : (n : ℕ) → n < 16 → hex_value (hex_digit n) ≡ some n
unfolding hex_value hex_digit
hex_value-hex_digit n h = ground arith

pub from_hex-to_hex : (bs : Bytes) → All IsByte bs → from_hex (to_hex bs) ≡ bs
unfolding from_hex to_hex
from_hex-to_hex [] _ = refl
from_hex-to_hex (b ∷ bs) (h, hs) =
    let whole : 16 * (b / 16) + b % 16 ≡ b = omega arith in
    rw
      (
        from_hex,
        hex_value-hex_digit (b / 16) (omega arith),
        hex_value-hex_digit (b % 16) (omega arith),
      )
      (rw (whole, from_hex-to_hex bs hs))

-- A number in a template literal, and `toString` of a bigint.
unfoldable pub to_string : ℕ → List ℕ
to_string n = if n == 0 then b'0' ∷ [] else emit_digits (λ d. b'0' + d) 10 n []
