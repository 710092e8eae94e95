-- ===== src/Utxo/Base58/RoundTrip.antt =====
-- Base58 text and bytes, there and back.
use whm.Prelude.{if◌then◌else◌}
use whm.Prelude.{ℕ, zero, suc, ◌+◌, ◌*◌, ◌<◌}
use whm.Prelude.{◌≡◌, refl, sym, ap, ◌∙◌, inl, inr, arith}
use whm.Prelude.{false, Option, none, some}
use whm.Prelude.{List, [], ◌∷◌, ◌++◌, map}
use whm.Prelude.{◌==◌, ==_iff, Bool-cases, Option-cases}
use whm.Prelude.{length, get_elem?, replicate, All}
use whm.Prelude.Radix.{
  eval, zeros, digits, recode, recode-recode, All-recode, map-emit_digits, IsDigit,
}
use whm.Prelude.Text.{Bytes, IsByte}
use whm.Utxo.Base58.{
  alphabet, index_of, symbol, scan, unshift_zeros, unshift_ones, decode_base58, encode_base58,
}

-- The indices below a bound whose symbol is not found at that index.
misplaced : ℕ → List ℕ
misplaced zero = []
misplaced (suc k) = elim (index_of alphabet (symbol k)) [
  | none ↦ k ∷ misplaced k
  | some j ↦ let others = misplaced k in if j == k then others else k ∷ others
]

none_misplaced : misplaced 58 ≡ []
unfolding misplaced index_of symbol
none_misplaced = refl

in_place : (k i : ℕ) → misplaced k ≡ [] → i < k → index_of alphabet (symbol i) ≡ some i
unfolding misplaced
in_place zero i h below = absurd (omega arith)
in_place (suc k) i h below = elim (Bool-cases (i == k)) [
  | inl last ↦ let e = (==_iff i k).0 last in rw e (ground arith)
  | inr other ↦ in_place k i (ground arith) (ground arith)
]

pub index_of-symbol : (i : ℕ) → i < 58 → index_of alphabet (symbol i) ≡ some i
index_of-symbol i h = in_place 58 i none_misplaced h

get_elem?-index_of :
    (xs : List ℕ) (c i : ℕ) → index_of xs c ≡ some i → (get_elem? xs i ≡ some c) × (i < length xs)
unfolding index_of
get_elem?-index_of [] c i h = cc
get_elem?-index_of (x ∷ xs) c zero h = ground arith
get_elem?-index_of (x ∷ xs) c (suc i) h = ground (arith, get_elem?-index_of xs c i)

-- A character of the alphabet is the symbol at its index.
pub symbol-index_of : (c i : ℕ) → index_of alphabet c ≡ some i → (c ≡ symbol i) × (i < 58)
unfolding symbol
symbol-index_of c i h = let (at, small) = get_elem?-index_of alphabet c i h in (rw at refl, small)

scan-map :
    (n : ℕ) (ds : List ℕ) → All (IsDigit 58) ds → scan n (map symbol ds) ≡ some (eval 58 n ds)
unfolding scan eval
scan-map n [] _ = refl
scan-map n (d ∷ ds) (h, hs) = rw (scan, index_of-symbol d h) (scan-map (n * 58 + d) ds hs)

-- The characters that `scan` accepts, as digits.
scan-some :
    (n m : ℕ) (text : List ℕ)
    → scan n text ≡ some m
    → (ds : List ℕ) × (text ≡ map symbol ds) × All (IsDigit 58) ds
unfolding scan
scan-some n m [] h = ([], refl, tt)
scan-some n m (c ∷ text) h = go (index_of alphabet c) refl h (λ i. scan-some (n * 58 + i) m text)
  where
    go :
        (o : Option ℕ)
        → index_of alphabet c ≡ o
        → elim o [ none ↦ none | some i ↦ scan (n * 58 + i) text ] ≡ some m
        → ((i : ℕ)
            → scan (n * 58 + i) text ≡ some m
            → (ds : List ℕ) × (text ≡ map symbol ds) × All (IsDigit 58) ds)
        → (ds : List ℕ) × (c ∷ text ≡ map symbol ds) × All (IsDigit 58) ds
    go none e p ih = absurd (cc)
    go (some i) e p ih =
        let (ds, same, ok) = ih i p in
        let (here, small) = symbol-index_of c i e in (i ∷ ds, cc, (small, ok))

symbol_not_one : (d : ℕ) → suc d < 58 → (symbol (suc d) == b'1') ≡ false
symbol_not_one d h = elim (Bool-cases (symbol (suc d) == b'1')) [
  | inl same ↦
      let e : symbol (suc d) ≡ b'1' = (==_iff _ _).0 same in
      let one : index_of alphabet b'1' ≡ some 0 = unfold index_of in refl in
      absurd (cc (index_of-symbol (suc d) h, e, one))
  | inr other ↦ other
]

replicate_shift {ℓ} :
    {A : Type ℓ} (k : ℕ) (a : A) (out : List A)
    → replicate k a ++ a ∷ out ≡ a ∷ replicate k a ++ out
replicate_shift zero a out = refl
replicate_shift (suc k) a out = rw (replicate_shift k a out)

unshift_zeros-map :
    (ds : List ℕ) (out : Bytes)
    → All (IsDigit 58) ds
    → unshift_zeros (map symbol ds) out ≡ replicate (zeros ds) 0 ++ out
unfolding unshift_zeros zeros symbol
unshift_zeros-map [] out _ = refl
unshift_zeros-map (zero ∷ ds) out (h, hs) =
    unshift_zeros-map ds (0 ∷ out) hs ∙ replicate_shift (zeros ds) 0 out
unshift_zeros-map (suc d ∷ ds) out (h, hs) = rw (unshift_zeros, symbol_not_one d h)

unshift_ones-replicate :
    (bs : Bytes) (out : List ℕ) → unshift_ones bs out ≡ replicate (zeros bs) b'1' ++ out
unfolding unshift_ones zeros
unshift_ones-replicate [] out = refl
unshift_ones-replicate (zero ∷ bs) out =
    unshift_ones-replicate bs (b'1' ∷ out) ∙ replicate_shift (zeros bs) b'1' out
unshift_ones-replicate (suc b ∷ bs) out = ground arith

map-replicate :
    (k : ℕ) (ds : List ℕ) → map symbol (replicate k 0 ++ ds) ≡ replicate k b'1' ++ map symbol ds
unfolding symbol
map-replicate zero ds = refl
map-replicate (suc k) ds = ap (λ (l : List ℕ). b'1' ∷ l) (map-replicate k ds)

-- The two functions are changes of base between bytes and alphabet indices.
pub decode_base58-recode :
    (ds : List ℕ) → All (IsDigit 58) ds → decode_base58 (map symbol ds) ≡ some (recode 58 256 ds)
unfolding decode_base58 recode digits
decode_base58-recode ds h = rw (decode_base58, scan-map 0 ds h, unshift_zeros-map ds _ h)

pub encode_base58-recode : (bs : Bytes) → encode_base58 bs ≡ map symbol (recode 256 58 bs)
unfolding encode_base58 recode digits
encode_base58-recode bs =
    unshift_ones-replicate bs _
    ∙ ap (λ (l : List ℕ). replicate (zeros bs) b'1' ++ l)
        (map-emit_digits symbol 58 (omega arith) (eval 256 0 bs) (eval 256 0 bs) [] (omega arith))
    ∙ sym (map-replicate (zeros bs) (digits 58 (eval 256 0 bs)))

-- Decoding an encoded buffer gives its bytes back, leading zero bytes included.
pub decode-encode : (bs : Bytes) → All IsByte bs → decode_base58 (encode_base58 bs) ≡ some bs
decode-encode bs h =
    rw (encode_base58-recode bs, decode_base58-recode _ (All-recode 256 58 bs (omega arith)))
      (ap some (recode-recode 256 58 bs (omega arith) (omega arith) h))

-- Base58 text is canonical: a text that decodes is the encoding of the bytes it decodes to.
pub encode-decode :
    (text : List ℕ) (bs : Bytes)
    → decode_base58 text ≡ some bs
    → (encode_base58 bs ≡ text) × All IsByte bs
encode-decode text bs h = elim (Option-cases (scan 0 text)) [
  | inl bad ↦ absurd (unfold decode_base58 in cc)
  | inr (n, good) ↦
      let (ds, same, ok) = scan-some 0 n text good in
      let e : bs ≡ recode 58 256 ds = cc (decode_base58-recode ds ok) in
      (
        encode_base58-recode bs
            ∙ rw (e, recode-recode 58 256 ds (omega arith) (omega arith) ok) (sym same),
        rw e (All-recode 58 256 ds (omega arith)),
      )
]
