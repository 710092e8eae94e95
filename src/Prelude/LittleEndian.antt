-- ===== src/Prelude/LittleEndian.antt =====
-- Little-endian numbers in a buffer: the value of some bytes, and the bytes of a number.
use whm.Prelude.{ℕ, zero, suc, ◌+◌, ◌*◌, ◌/◌, ◌%◌, ◌^◌, ◌<◌, ◌≡◌, refl, ap, arith}
use whm.Prelude.{[], ◌∷◌, length, All}
use native.Mathlib.Nat.{pow-suc}
use whm.Prelude.Text.{Bytes, IsByte}

-- `readUInt16LE`, `readUInt32LE` and `readBigUInt64LE`, on the bytes that they read.
unfoldable pub le_value : Bytes → ℕ
le_value [] = 0
le_value (b ∷ bs) = b + 256 * le_value bs

-- A number below 256 ^ k as k bytes.
unfoldable pub le_bytes : ℕ → ℕ → Bytes
le_bytes zero x = []
le_bytes (suc k) x = (x % 256) ∷ le_bytes k (x / 256)

pub length-le_bytes : (k x : ℕ) → length (le_bytes k x) ≡ k
unfolding le_bytes
length-le_bytes zero x = refl
length-le_bytes (suc k) x = ap suc (length-le_bytes k (x / 256))

pub le_value-le_bytes : (k x : ℕ) → x < 256 ^ k → le_value (le_bytes k x) ≡ x
unfolding le_value le_bytes
le_value-le_bytes zero x h = omega arith
le_value-le_bytes (suc k) x h =
    let step : 256 ^ suc k ≡ 256 ^ k * 256 = pow-suc 256 k in
    let small : x / 256 < 256 ^ k = omega (arith, step) in
    omega (arith, le_value-le_bytes k (x / 256) small)

pub le_value-lt : (bs : Bytes) → All IsByte bs → le_value bs < 256 ^ length bs
unfolding le_value
le_value-lt [] _ = omega arith
le_value-lt (b ∷ bs) (h, hs) =
    let step : 256 ^ suc (length bs) ≡ 256 ^ length bs * 256 = pow-suc 256 (length bs) in
    omega (arith, step, le_value-lt bs hs)

pub le_bytes-le_value : (bs : Bytes) → All IsByte bs → le_bytes (length bs) (le_value bs) ≡ bs
unfolding le_value le_bytes
le_bytes-le_value [] _ = refl
le_bytes-le_value (b ∷ bs) (h, hs) =
    let low : (b + 256 * le_value bs) % 256 ≡ b = omega arith in
    let high : (b + 256 * le_value bs) / 256 ≡ le_value bs = omega arith in
    rw (low, high, le_bytes-le_value bs hs) refl
