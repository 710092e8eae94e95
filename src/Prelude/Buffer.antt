-- ===== src/Prelude/Buffer.antt =====
-- Node's buffers as lists of bytes: slices, which stop at the end, and big-endian reads, which throw
-- (`none`) where they would go past it.
use whm.Prelude.{
  ℕ, zero, suc, ◌+◌, ◌-◌, ◌*◌, ◌/◌, ◌%◌, ◌^◌, ◌≤◌, ◌<◌, ◌≡◌, refl, sym, ap, ◌∙◌, arith,
}
use whm.Prelude.{Option, none, some, List, [], ◌∷◌, ◌++◌}
use whm.Prelude.{leb, if◌then◌else◌, length, take, drop}
use whm.Prelude.{length-append, length-take, length-drop, take-append, drop-append}
use native.Mathlib.Nat.{pow-suc}
use whm.Prelude.Radix.{eval}
use whm.Prelude.Text.{Bytes}

-- `b.subarray(at, at + n)`
abbrev pub subarray : Bytes → ℕ → ℕ → Bytes
subarray b at n = take n (drop at b)

-- `readUInt8`, `readUInt16BE` and `readBigUInt64BE`, for n = 1, 2 and 8.
unfoldable pub read_be : Bytes → ℕ → ℕ → Option ℕ
read_be b at n = if leb (at + n) (length b) then some (eval 256 0 (subarray b at n)) else none

-- A number below 256 ^ k as k bytes, as `writeUInt16BE` and its like put them.
unfoldable pub be_bytes : ℕ → ℕ → Bytes
be_bytes zero x = []
be_bytes (suc k) x = be_bytes k (x / 256) ++ (x % 256) ∷ []

module _ {ℓ} {A : Type ℓ} where
  pub drop-drop : (a c : ℕ) (xs : List A) → drop c (drop a xs) ≡ drop (a + c) xs
  drop-drop zero c xs = let e : 0 + c ≡ c = omega arith in rw e refl
  drop-drop (suc a) zero [] = let e : suc a + 0 ≡ suc a = omega arith in rw e refl
  drop-drop (suc a) (suc c) [] = let e : suc a + suc c ≡ suc (a + suc c) = omega arith in rw e refl
  drop-drop (suc a) c (x ∷ xs) =
      let e : suc a + c ≡ suc (a + c) = omega arith in rw e (drop-drop a c xs)

  drop-take : (c n : ℕ) (xs : List A) → drop c (take (c + n) xs) ≡ take n (drop c xs)
  drop-take zero n xs = let e : 0 + n ≡ n = omega arith in rw e refl
  drop-take (suc c) zero [] = let e : suc c + 0 ≡ suc c = omega arith in rw e refl
  drop-take (suc c) (suc n) [] = let e : suc c + suc n ≡ suc (c + suc n) = omega arith in rw e refl
  drop-take (suc c) n (x ∷ xs) =
      let e : suc c + n ≡ suc (c + n) = omega arith in rw e (drop-take c n xs)

  take-take : (l n : ℕ) (xs : List A) → l ≤ n → take l (take n xs) ≡ take l xs
  take-take zero n xs h = refl
  take-take (suc l) zero xs h = absurd (omega arith)
  take-take (suc l) (suc n) [] h = refl
  take-take (suc l) (suc n) (x ∷ xs) h = ap (λ (r : List A). x ∷ r) (take-take l n xs (omega arith))

-- A slice of a slice is a slice of the whole, where it does not reach past the end of the first.
pub subarray-subarray :
    (b : Bytes) (a n c l : ℕ) → c + l ≤ n → subarray (subarray b a n) c l ≡ subarray b (a + c) l
subarray-subarray b a n c l h =
    let whole : n ≡ c + (n - c) = omega arith in
    ap (λ (k : ℕ). take l (drop c (take k (drop a b)))) whole
    ∙ (ap (λ (ys : Bytes). take l ys) (drop-take c (n - c) (drop a b))
        ∙ (take-take l (n - c) (drop c (drop a b)) (omega arith)
            ∙ ap (λ (ys : Bytes). take l ys) (drop-drop a c b)))

length-subarray : (b : Bytes) (at n : ℕ) → at + n ≤ length b → length (subarray b at n) ≡ n
length-subarray b at n h = omega (arith, length-take n (drop at b), length-drop at b)

pub read_be-subarray :
    (b : Bytes) (a n c l : ℕ)
    → 0 < l
    → c + l ≤ length (subarray b a n)
    → read_be (subarray b a n) c l ≡ read_be b (a + c) l
unfolding read_be
read_be-subarray b a n c l some_bytes h =
    let cut = length-take n (drop a b) in
    let rest = length-drop a b in
    let inside : a + c + l ≤ length b = omega arith in
    let same = subarray-subarray b a n c l (omega arith) in ground (arith, same)

-- Past a field at the front.
pub subarray_skip :
    (f rest : Bytes) (k at n : ℕ)
    → length f ≡ k
    → subarray (f ++ rest) (k + at) n ≡ subarray rest at n
subarray_skip f rest k at n h = rw (sym (drop-drop k at (f ++ rest)), drop-append k f rest h) refl

pub read_be-skip :
    (f rest : Bytes) (k at n : ℕ)
    → length f ≡ k
    → read_be (f ++ rest) (k + at) n ≡ read_be rest at n
unfolding read_be
read_be-skip f rest k at n h =
    let same = subarray_skip f rest k at n h in ground (arith, same, length-append f rest)

eval-snoc : (b acc : ℕ) (ds : List ℕ) (d : ℕ) → eval b acc (ds ++ d ∷ []) ≡ eval b acc ds * b + d
unfolding eval
eval-snoc b acc [] d = refl
eval-snoc b acc (x ∷ ds) d = eval-snoc b (acc * b + x) ds d

pub eval-be_bytes : (k x : ℕ) → x < 256 ^ k → eval 256 0 (be_bytes k x) ≡ x
unfolding be_bytes eval
eval-be_bytes zero x h = omega arith
eval-be_bytes (suc k) x h =
    let step : 256 ^ suc k ≡ 256 ^ k * 256 = pow-suc 256 k in
    let small : x / 256 < 256 ^ k = omega (arith, step) in
    rw (eval-snoc 256 0 (be_bytes k (x / 256)) (x % 256), eval-be_bytes k (x / 256) small)
      (omega arith)

pub length-be_bytes : (k x : ℕ) → length (be_bytes k x) ≡ k
unfolding be_bytes eval
length-be_bytes zero x = refl
length-be_bytes (suc k) x =
    omega
      (arith, length-append (be_bytes k (x / 256)) ((x % 256) ∷ []), length-be_bytes k (x / 256))

pub read_be-be_bytes :
    (k x : ℕ) (rest : Bytes) → x < 256 ^ k → read_be (be_bytes k x ++ rest) 0 k ≡ some x
unfolding read_be
read_be-be_bytes k x rest h =
    let same = take-append k (be_bytes k x) rest (length-be_bytes k x) in
    ground
      (arith, same, length-append (be_bytes k x) rest, length-be_bytes k x, eval-be_bytes k x h)

module _ {ℓ} {A : Type ℓ} where
  take-drop_front :
      (at n : ℕ) (xs ys : List A)
      → at + n ≤ length xs
      → take n (drop at (xs ++ ys)) ≡ take n (drop at xs)
  take-drop_front zero zero xs ys h = refl
  take-drop_front zero (suc n) [] ys h = absurd (omega arith)
  take-drop_front zero (suc n) (x ∷ xs) ys h =
      ap (λ (l : List A). x ∷ l) (take-drop_front zero n xs ys (omega arith))
  take-drop_front (suc at) zero [] ys h = absurd (omega arith)
  take-drop_front (suc at) (suc n) [] ys h = absurd (omega arith)
  take-drop_front (suc at) n (x ∷ xs) ys h = take-drop_front at n xs ys (omega arith)

-- A read within the first of two buffers.
pub read_be-front :
    (b rest : Bytes) (at n : ℕ) → at + n ≤ length b → read_be (b ++ rest) at n ≡ read_be b at n
unfolding read_be
read_be-front b rest at n h =
    let same = take-drop_front at n b rest h in ground (arith, same, length-append b rest)
