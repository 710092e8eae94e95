-- ===== src/Prelude/Assoc.antt =====
-- A JavaScript `Map` and `Set` in insertion order, over an equality of keys.
use whm.Prelude.{◌≡◌, refl, ◌↔◌, arith}
use whm.Prelude.{Bool, true, false, ◌||◌, Option, none, some, List, [], ◌∷◌, if◌then◌else◌}

pub record Key (K : Type 0) : Type 0 where
  pub same : K → K → Bool
  pub same_iff : (a b : K) → (same a b ≡ true) ↔ (a ≡ b)

module _ {K : Type 0} ⦃key : Key K⦄ where
  unfoldable pub contains : K → List K → Bool
  contains k [] = false
  contains k (j ∷ ks) = key.same j k || contains k ks

  unfoldable pub without : K → List K → List K
  without k [] = []
  without k (j ∷ ks) = let rest = without k ks in if key.same j k then rest else j ∷ rest

  -- `[...new Set(ks)]`
  unfoldable pub uniq : List K → List K
  uniq [] = []
  uniq (k ∷ ks) = k ∷ without k (uniq ks)

  module _ {V : Type 0} where
    unfoldable pub get : K → List (K × V) → Option V
    get k [] = none
    get k ((j, v) ∷ m) = if key.same j k then some v else get k m

    unfoldable pub put : K → V → List (K × V) → List (K × V)
    put k v [] = (k, v) ∷ []
    put k v ((j, w) ∷ m) = if key.same j k then (j, v) ∷ m else (j, w) ∷ put k v m

    pub get-put :
        (j k : K) (v : V) (m : List (K × V))
        → get j (put k v m) ≡ (if key.same k j then some v else get j m)
    unfolding get put
    get-put j k v [] = refl
    get-put j k v ((i, w) ∷ m) =
        ground (arith, key.same_iff k j, key.same_iff i k, key.same_iff i j, get-put j k v m)

  contains-without :
      (j k : K) (ks : List K)
      → contains j (without k ks) ≡ (if key.same k j then false else contains j ks)
  unfolding contains without
  contains-without j k [] = ground arith
  contains-without j k (i ∷ ks) =
      ground (arith, key.same_iff k j, key.same_iff i k, key.same_iff i j, contains-without j k ks)

  pub contains-uniq : (j : K) (ks : List K) → contains j (uniq ks) ≡ contains j ks
  unfolding contains uniq
  contains-uniq j [] = refl
  contains-uniq j (k ∷ ks) = ground (arith, contains-without j k (uniq ks), contains-uniq j ks)
