-- ===== src/Scan/ZcashTx/Reader.antt =====
-- agents/scan/src/chains/zcash/tx.ts: `Reader`, the little-endian cursor. Its state is what it has not read yet, and `none`
-- is a read past the end, which throws.
use whm.Prelude.{ℕ, ◌^◌, ◌<◌, ◌≡◌, refl, arith}
use whm.Prelude.{true, Option, none, some, ◌++◌, append_assoc}
use whm.Prelude.{
  ltb, leb, ◌==◌, if◌then◌else◌, length, take, drop, lt→ltb, ltb→lt, Bool-cases, inl, inr,
}
use whm.Prelude.{length-append, take-append, drop-append}
use whm.Prelude.Text.{Bytes}
use whm.Prelude.LittleEndian.{le_value, le_bytes, length-le_bytes, le_value-le_bytes}

abbrev pub Reader : Type 0 → Type 0
Reader A = Bytes → Option (A × Bytes)

abbrev pub and_read : {A B : Type 0} → Option (A × Bytes) → (A → Reader B) → Option (B × Bytes)
and_read none f = none
and_read (some (a, rest)) f = f a rest

infixl 5 ◌>>=◌ ◌>>◌
abbrev pub ◌>>=◌ : {A B : Type 0} → Reader A → (A → Reader B) → Reader B
◌>>=◌ m f b = and_read (m b) f

abbrev pub ◌>>◌ : {A B : Type 0} → Reader A → Reader B → Reader B
m >> k = m >>= λ _. k

abbrev pub pure : {A : Type 0} → A → Reader A
pure a b = some (a, b)

abbrev pub throws : {A : Type 0} → Reader A
throws b = none

-- What the `try` returns of it.
abbrev pub result : {A : Type 0} → Option (A × Bytes) → Option A
result none = none
result (some (a, rest)) = some a

-- `bytes`
unfoldable pub read_bytes : ℕ → Reader Bytes
read_bytes n b = if leb n (length b) then some (take n b, drop n b) else none

unfoldable pub skip : ℕ → Reader Bytes
skip n = read_bytes n

-- `u32` and `u64`, for 4 and 8 bytes, and the `readUInt16LE` of `compact`.
unfoldable pub read_le : ℕ → Reader ℕ
read_le n = do b ← read_bytes n; pure (le_value b)

unfoldable pub compact_tail : ℕ → Reader ℕ
compact_tail v =
    if ltb v 0xfd
    then pure v
    else if v == 0xfd
    then read_le 2
    else if v == 0xfe
    then read_le 4
    else read_le 8

-- `compact`. A 64-bit count is rounded by `Number` above 2 ^ 53, where it is longer than any buffer
-- in either form.
unfoldable pub compact : Reader ℕ
compact = do v ← read_le 1; compact_tail v

-- How a writer puts a count.
unfoldable pub compact_bytes : ℕ → Bytes
compact_bytes n =
    if ltb n 0xfd
    then le_bytes 1 n
    else if ltb n (256 ^ 2)
    then le_bytes 1 0xfd ++ le_bytes 2 n
    else if ltb n (256 ^ 4)
    then le_bytes 1 0xfe ++ le_bytes 4 n
    else le_bytes 1 0xff ++ le_bytes 8 n

pub read_bytes-append :
    (n : ℕ) (f rest : Bytes) → length f ≡ n → read_bytes n (f ++ rest) ≡ some (f, rest)
unfolding read_bytes
read_bytes-append n f rest h =
    let enough : leb n (length (f ++ rest)) ≡ true = ground (arith, length-append f rest) in
    rw (enough, take-append n f rest h, drop-append n f rest h) refl

pub read_le-le_bytes :
    (k x : ℕ) (rest : Bytes) → x < 256 ^ k → read_le k (le_bytes k x ++ rest) ≡ some (x, rest)
unfolding read_le
read_le-le_bytes k x rest h =
    rw
      (
        read_bytes-append k (le_bytes k x) rest (length-le_bytes k x),
        and_read,
        le_value-le_bytes k x h,
      )
      refl

-- A marker, and a number of the size that it announces.
compact_marked :
    (m k n : ℕ) (rest : Bytes)
    → m < 256
    → compact_tail m ≡ read_le k
    → n < 256 ^ k
    → compact ((le_bytes 1 m ++ le_bytes k n) ++ rest) ≡ some (n, rest)
unfolding compact
compact_marked m k n rest small tail h =
    rw
      (
        append_assoc (le_bytes 1 m) (le_bytes k n) rest,
        read_le-le_bytes 1 m (le_bytes k n ++ rest) (omega arith),
        and_read,
        tail,
      )
      (read_le-le_bytes k n rest h)

compact_direct : (n : ℕ) (rest : Bytes) → n < 0xfd → compact (le_bytes 1 n ++ rest) ≡ some (n, rest)
unfolding compact compact_tail
compact_direct n rest h =
    rw (read_le-le_bytes 1 n rest (omega arith), and_read, lt→ltb n 0xfd h) refl

tail_16 : compact_tail 0xfd ≡ read_le 2
unfolding compact_tail
tail_16 = refl

tail_32 : compact_tail 0xfe ≡ read_le 4
unfolding compact_tail
tail_32 = refl

tail_64 : compact_tail 0xff ≡ read_le 8
unfolding compact_tail
tail_64 = refl

pub compact-compact_bytes :
    (n : ℕ) (rest : Bytes) → n < 256 ^ 8 → compact (compact_bytes n ++ rest) ≡ some (n, rest)
unfolding compact_bytes
compact-compact_bytes n rest h = elim (Bool-cases (ltb n 0xfd)) [
  | inl one ↦ rw one (compact_direct n rest (ltb→lt n 0xfd one))
  | inr many ↦ rw many (elim (Bool-cases (ltb n (256 ^ 2))) [
    | inl two ↦ rw two (compact_marked 0xfd 2 n rest (omega arith) tail_16 (ltb→lt n (256 ^ 2) two))
    | inr more ↦ rw more (elim (Bool-cases (ltb n (256 ^ 4))) [
      | inl four ↦
          rw four (compact_marked 0xfe 4 n rest (omega arith) tail_32 (ltb→lt n (256 ^ 4) four))
      | inr eight ↦ rw eight (compact_marked 0xff 8 n rest (omega arith) tail_64 h)
    ])
  ])
]
