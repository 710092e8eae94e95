-- ===== src/Utxo/Delegate/Reads.antt =====
-- agents/utxo/src/near/delegate.ts: what a reader makes of the bytes that it stands before, and the rules by which readers
-- are put together.
use whm.Prelude.{ℕ, ◌+◌, ◌^◌, ◌<◌}
use whm.Prelude.{◌≡◌, refl, sym, ap, ◌∙◌, arith}
use whm.Prelude.{true, some}
use whm.Prelude.{[], ◌∷◌, ◌++◌, append-nil, append_assoc}
use whm.Prelude.{leb, ◌==◌, ==_iff}
use whm.Prelude.{length, drop}
use whm.Prelude.{length-append}
use whm.Prelude.{take-append, drop-append}
use mathlib.Core.Path.{subst}
use whm.Prelude.Text.{Bytes}
use whm.Prelude.Buffer.{drop-drop}
use whm.Prelude.LittleEndian.{le_bytes, length-le_bytes, le_value-le_bytes}
use whm.Utxo.Delegate.{
  Reader, and_read, ◌>>=◌, pure, raw, read_le, check_value, check_byte, expect_u32, expect_byte,
  counted,
}

-- Before these bytes and others, the reader takes these and no more, and gives the value.
pub record Reads {A : Type 0} (m : Reader A) (f : Bytes) (a : A) : Type 0 where
  pub apply : (b rest : Bytes) (at : ℕ) → drop at b ≡ f ++ rest → m b at ≡ some (a, at + length f)

pub bind-Reads :
    {A B : Type 0} {m : Reader A} (k : A → Reader B) {f g : Bytes} {a : A} {c : B}
    → Reads m f a
    → Reads (k a) g c
    → Reads (m >>= k) (f ++ g) c
bind-Reads k {f = f} {g = g} {a = a} {c = c} first second = record {
  apply = λ b rest at here.
      let whole : drop at b ≡ f ++ (g ++ rest) = here ∙ append_assoc f g rest in
      let behind : drop (at + length f) b ≡ g ++ rest =
        sym (drop-drop at (length f) b)
        ∙ (ap (λ (l : Bytes). drop (length f) l) whole
            ∙ drop-append (length f) f (g ++ rest) refl) in
      let size : at + length f + length g ≡ at + length (f ++ g) =
        omega (arith, length-append f g) in
      rw
        (
          first.apply b (g ++ rest) at whole,
          and_read,
          second.apply b rest (at + length f) behind,
          size,
        )
        refl;
}

-- Where the second reader takes nothing.
pub last-Reads :
    {A B : Type 0} {m : Reader A} (k : A → Reader B) {f : Bytes} {a : A} {c : B}
    → Reads m f a
    → Reads (k a) [] c
    → Reads (m >>= k) f c
last-Reads {m = m} k {f = f} {c = c} first second =
    subst (λ (g : Bytes). Reads (m >>= k) g c) (append-nil f) (bind-Reads k first second)

pub pure-Reads : {A : Type 0} (a : A) → Reads (pure a) [] a
pure-Reads a = record {
  apply = λ b rest at here. let none_read : at + 0 ≡ at = omega arith in rw none_read refl;
}

pub raw-Reads : (n : ℕ) (f : Bytes) → length f ≡ n → Reads (raw n) f f
unfolding raw
raw-Reads n f size = record {
  apply = λ b rest at here. rw (here, take-append n f rest size, size) refl;
}

pub read_le-Reads : (n x : ℕ) → x < 256 ^ n → Reads (read_le n) (le_bytes n x) x
unfolding read_le
read_le-Reads n x small = record {
  apply = λ b rest at here.
      let enough : leb n n ≡ true = ground arith in
      rw
        (
          here,
          take-append n (le_bytes n x) rest (length-le_bytes n x),
          length-le_bytes n x,
          enough,
          le_value-le_bytes n x small,
        )
        refl;
}

pub counted-Reads : (f : Bytes) → length f < 256 ^ 4 → Reads counted (le_bytes 4 (length f) ++ f) f
unfolding counted
counted-Reads f small =
    bind-Reads _ (read_le-Reads 4 (length f) small) (raw-Reads (length f) f refl)

check_value-Reads : (v : ℕ) → Reads (check_value v v) [] tt
unfolding check_value
check_value-Reads v = record {
  apply = λ b rest at here.
      let same : (v == v) ≡ true = (==_iff v v).1 refl in
      let none_read : at + 0 ≡ at = omega arith in rw (same, none_read) refl;
}

check_byte-Reads : (v : ℕ) → Reads (check_byte v (v ∷ [])) [] tt
unfolding check_byte
check_byte-Reads v = record {
  apply = λ b rest at here.
      let same : (v == v) ≡ true = (==_iff v v).1 refl in
      let none_read : at + 0 ≡ at = omega arith in rw (same, none_read) refl;
}

pub expect_u32-Reads : (v : ℕ) → v < 256 ^ 4 → Reads (expect_u32 v) (le_bytes 4 v) tt
unfolding expect_u32
expect_u32-Reads v small = last-Reads _ (read_le-Reads 4 v small) (check_value-Reads v)

pub expect_byte-Reads : (v : ℕ) → Reads (expect_byte v) (v ∷ []) tt
unfolding expect_byte
expect_byte-Reads v = last-Reads _ (raw-Reads 1 (v ∷ []) refl) (check_byte-Reads v)
