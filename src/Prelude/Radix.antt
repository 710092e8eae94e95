-- ===== src/Prelude/Radix.antt =====
-- Positional notation: the digits of a number in a base, most significant first, and their value.
use native.Mathlib.Nat.{div-lt_self, div-add-mod', mod-lt, mod-eq_of_lt, div-eq_of_lt}
use native.Mathlib.Nat.{mul-add-div_right, mul-add-mod_self_right}
use mathlib.Core.List.{map-id}
use whm.Prelude.{ℕ, zero, suc, ◌+◌, ◌*◌, ◌/◌, ◌%◌, ◌≤◌, ◌<◌, ◌≡◌, ◌∙◌, refl, ap, arith}
use whm.Prelude.{inl, inr, List, [], ◌∷◌, ◌++◌, map, append-nil, ◌⊎◌}
use whm.Prelude.{replicate, All}

-- `for (; n > 0; n /= b) out.unshift(f(n % b))`, on fuel that `n` itself bounds.
emit {ℓ} : {A : Type ℓ} → (ℕ → A) → ℕ → ℕ → ℕ → List A → List A
emit f b zero n out = out
emit f b (suc fuel) n out = elim n [
  | zero ↦ out
  | suc m ↦ emit f b fuel (suc m / b) (f (suc m % b) ∷ out)
]

unfoldable pub emit_digits {ℓ} : {A : Type ℓ} → (ℕ → A) → ℕ → ℕ → List A → List A
unfolding emit
emit_digits f b n out = emit f b n n out

-- `n = n * b + d` over the digits.
unfoldable pub eval : ℕ → ℕ → List ℕ → ℕ
eval b n [] = n
eval b n (d ∷ ds) = eval b (n * b + d) ds

-- How many zeros lead the list, and what follows them.
unfoldable pub zeros : List ℕ → ℕ
zeros [] = 0
zeros (zero ∷ ds) = suc (zeros ds)
zeros (suc d ∷ ds) = 0

pub drop_zeros : List ℕ → List ℕ
drop_zeros [] = []
drop_zeros (zero ∷ ds) = drop_zeros ds
drop_zeros (suc d ∷ ds) = suc d ∷ ds

emit_fuel {ℓ} :
    {A : Type ℓ} (f : ℕ → A) (b : ℕ)
    → 1 < b
    → (k l n : ℕ) (out : List A) → n ≤ k
    → n ≤ l
    → emit f b k n out ≡ emit f b l n out
unfolding emit
emit_fuel f b h zero zero n out p q = refl
emit_fuel f b h zero (suc l) zero out p q = refl
emit_fuel f b h zero (suc l) (suc n) out p q = absurd (omega arith)
emit_fuel f b h (suc k) zero zero out p q = refl
emit_fuel f b h (suc k) zero (suc n) out p q = absurd (omega arith)
emit_fuel f b h (suc k) (suc l) zero out p q = refl
emit_fuel f b h (suc k) (suc l) (suc n) out p q =
    let small : suc n / b < suc n = div-lt_self (omega arith) h in
    emit_fuel f b h k l (suc n / b) (f (suc n % b) ∷ out) (omega arith) (omega arith)

module _ {ℓ} {A : Type ℓ} (f : ℕ → A) (b : ℕ) (big : 1 < b) where
  emit_digits_step :
      (n : ℕ) (out : List A)
      → 0 < n
      → emit_digits f b n out ≡ emit_digits f b (n / b) (f (n % b) ∷ out)
  unfolding emit_digits
  emit_digits_step zero out h = absurd (omega arith)
  emit_digits_step (suc n) out h =
      let small : suc n / b < suc n = div-lt_self (omega arith) big in
      emit_fuel f b big n (suc n / b) (suc n / b) (f (suc n % b) ∷ out) (omega arith) (omega arith)

  -- The digits of a value, after those of the number it started from.
  emit_digits-eval :
      (n : ℕ) (ds : List ℕ) (out : List A)
      → 0 < n
      → All (λ d. d < b) ds
      → emit_digits f b (eval b n ds) out ≡ emit_digits f b n (map f ds ++ out)
  unfolding eval
  emit_digits-eval n [] out h _ = refl
  emit_digits-eval n (d ∷ ds) out h (small, rest) =
      let q : (n * b + d) / b ≡ n =
        mul-add-div_right (omega arith) n d ∙ rw (div-eq_of_lt small) (omega arith) in
      let r : (n * b + d) % b ≡ d = mul-add-mod_self_right n b d ∙ mod-eq_of_lt small in
      let pos : 0 < n * b + d = grind arith in
      emit_digits-eval (n * b + d) ds out pos rest
      ∙ emit_digits_step (n * b + d) (map f ds ++ out) pos
      ∙ rw (q, r)

abbrev pub IsDigit : ℕ → ℕ → Type 0
IsDigit b d = d < b

-- The digits as numbers.
unfoldable pub digits : ℕ → ℕ → List ℕ
digits b n = emit_digits (λ d. d) b n []

module _ (b : ℕ) (big : 1 < b) where
  -- Reading a value back in its own base drops the leading zeros and nothing else.
  pub digits-eval : (ds : List ℕ) → All (IsDigit b) ds → digits b (eval b 0 ds) ≡ drop_zeros ds
  unfolding digits eval drop_zeros
  digits-eval [] _ = unfold emit_digits in refl
  digits-eval (zero ∷ ds) (_, rest) =
      let z : zero * b + zero ≡ 0 = omega arith in rw z (digits-eval ds rest)
  digits-eval (suc d ∷ ds) (small, rest) =
      let z : zero * b + suc d ≡ suc d = omega arith in
      rw z (
        emit_digits-eval (λ d. d) b big (suc d) ds [] (omega arith) rest
        ∙ emit_digits_step (λ d. d) b big (suc d) (map (λ d. d) ds ++ []) (omega arith)
        ∙ rw (div-eq_of_lt small, mod-eq_of_lt small, map-id, append-nil)
            (unfold emit_digits in refl))

  -- The number that digits stand for, and the shape of the list.
  eval-emit_digits :
      (fuel n : ℕ) (out : List ℕ)
      → n ≤ fuel
      → eval b 0 (emit_digits (λ d. d) b n out) ≡ eval b n out
  eval-emit_digits fuel zero out h = unfold emit_digits in refl
  eval-emit_digits zero (suc n) out h = absurd (omega arith)
  eval-emit_digits (suc fuel) (suc n) out h =
      let small : suc n / b < suc n = div-lt_self (omega arith) big in
      rw (emit_digits_step (λ d. d) b big (suc n) out (omega arith)) (
        eval-emit_digits fuel (suc n / b) ((suc n % b) ∷ out) (omega arith)
        ∙ unfold eval in rw (div-add-mod' (suc n) b))

  pub eval-digits : (n : ℕ) → eval b 0 (digits b n) ≡ n
  unfolding digits
  eval-digits n = eval-emit_digits n n [] (omega arith) ∙ unfold eval in refl

  All-emit_digits :
      (fuel n : ℕ) (out : List ℕ)
      → n ≤ fuel
      → All (IsDigit b) out
      → All (IsDigit b) (emit_digits (λ d. d) b n out)
  All-emit_digits fuel zero out h p = unfold emit_digits in p
  All-emit_digits zero (suc n) out h p = absurd (omega arith)
  All-emit_digits (suc fuel) (suc n) out h p =
      let small : suc n / b < suc n = div-lt_self (omega arith) big in
      rw (emit_digits_step (λ d. d) b big (suc n) out (omega arith)) (
        All-emit_digits fuel (suc n / b) ((suc n % b) ∷ out) (omega arith)
          (mod-lt (suc n) (omega arith), p))

  pub All-digits : (n : ℕ) → All (IsDigit b) (digits b n)
  unfolding digits
  All-digits n = All-emit_digits n n [] (omega arith) tt

  last_digit : (n : ℕ) → 0 < n → (out : List ℕ) → (0 < n / b) ⊎ (zeros ((n % b) ∷ out) ≡ 0)
  unfolding zeros
  last_digit n h out = go (n / b) (n % b) (div-add-mod' n b)
    where
      go : (q r : ℕ) → q * b + r ≡ n → (0 < q) ⊎ (zeros (r ∷ out) ≡ 0)
      go (suc q) r e = inl (omega arith)
      go zero zero e = absurd (omega arith)
      go zero (suc r) e = inr refl

  zeros-emit_digits :
      (fuel n : ℕ) (out : List ℕ)
      → n ≤ fuel
      → (0 < n) ⊎ (zeros out ≡ 0)
      → zeros (emit_digits (λ d. d) b n out) ≡ 0
  zeros-emit_digits fuel zero out h (inl p) = absurd (omega arith)
  zeros-emit_digits fuel zero out h (inr p) = unfold emit_digits in p
  zeros-emit_digits zero (suc n) out h p = absurd (omega arith)
  zeros-emit_digits (suc fuel) (suc n) out h p =
      let small : suc n / b < suc n = div-lt_self (omega arith) big in
      rw (emit_digits_step (λ d. d) b big (suc n) out (omega arith)) (
        zeros-emit_digits fuel (suc n / b) ((suc n % b) ∷ out) (omega arith)
          (last_digit (suc n) (omega arith) out))

  -- No zero leads the digits of a number.
  pub zeros-digits : (n : ℕ) → zeros (digits b n) ≡ 0
  unfolding digits
  zeros-digits zero = unfold emit_digits zeros in refl
  zeros-digits (suc n) = zeros-emit_digits (suc n) (suc n) [] (omega arith) (inl (omega arith))

pub replicate-drop_zeros : (ds : List ℕ) → replicate (zeros ds) 0 ++ drop_zeros ds ≡ ds
unfolding zeros drop_zeros
replicate-drop_zeros [] = refl
replicate-drop_zeros (zero ∷ ds) = ap (λ (l : List ℕ). 0 ∷ l) (replicate-drop_zeros ds)
replicate-drop_zeros (suc d ∷ ds) = refl

pub zeros-replicate : (k : ℕ) (ds : List ℕ) → zeros ds ≡ 0 → zeros (replicate k 0 ++ ds) ≡ k
unfolding zeros
zeros-replicate zero ds h = h
zeros-replicate (suc k) ds h = ap suc (zeros-replicate k ds h)

pub eval-replicate : (b k : ℕ) (ds : List ℕ) → eval b 0 (replicate k 0 ++ ds) ≡ eval b 0 ds
unfolding eval
eval-replicate b zero ds = refl
eval-replicate b (suc k) ds =
    let z : 0 * b + 0 ≡ 0 = omega arith in rw (z, eval) (eval-replicate b k ds)

pub All-replicate :
    (b k : ℕ) (ds : List ℕ) → 0 < b → All (IsDigit b) ds → All (IsDigit b) (replicate k 0 ++ ds)
All-replicate b zero ds h p = p
All-replicate b (suc k) ds h p = (h, All-replicate b k ds h p)

-- A text of base `a` digits written in base `b`, one leading zero for each leading zero.
unfoldable pub recode : ℕ → ℕ → List ℕ → List ℕ
recode a b ds = replicate (zeros ds) 0 ++ digits b (eval a 0 ds)

-- Coding the digits into another base and back gives the same digits, leading zeros included.
pub recode-recode :
    (a b : ℕ) (ds : List ℕ) → 1 < a → 1 < b → All (IsDigit a) ds → recode b a (recode a b ds) ≡ ds
unfolding recode
recode-recode a b ds ha hb p =
    rw
      (
        zeros-replicate (zeros ds) (digits b (eval a 0 ds)) (zeros-digits b hb (eval a 0 ds)),
        eval-replicate b (zeros ds) (digits b (eval a 0 ds)),
        eval-digits b hb (eval a 0 ds),
        digits-eval a ha ds p,
      )
      (replicate-drop_zeros ds)

pub All-recode : (a b : ℕ) (ds : List ℕ) → 1 < b → All (IsDigit b) (recode a b ds)
unfolding recode
All-recode a b ds hb = All-replicate b (zeros ds) _ (omega arith) (All-digits b hb (eval a 0 ds))

pub map-emit_digits {ℓ} :
    {A : Type ℓ} (f : ℕ → A) (b : ℕ)
    → 1 < b
    → (fuel n : ℕ) (out : List ℕ) → n ≤ fuel
    → emit_digits f b n (map f out) ≡ map f (emit_digits (λ d. d) b n out)
map-emit_digits f b big fuel zero out h = unfold emit_digits in refl
map-emit_digits f b big zero (suc n) out h = absurd (omega arith)
map-emit_digits f b big (suc fuel) (suc n) out h =
    let small : suc n / b < suc n = div-lt_self (omega arith) big in
    rw
      (
        emit_digits_step f b big (suc n) (map f out) (omega arith),
        emit_digits_step (λ d. d) b big (suc n) out (omega arith),
      )
      (map-emit_digits f b big fuel (suc n / b) ((suc n % b) ∷ out) (omega arith))
