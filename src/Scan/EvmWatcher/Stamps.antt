-- ===== src/Scan/EvmWatcher/Stamps.antt =====
-- agents/scan/src/chains/evm/watcher.ts, `blockTimes`: the timestamps that a batch of logs is given.
use whm.Prelude.{ℕ, zero, suc, ◌*◌, ◌≤◌, ◌<◌}
use whm.Prelude.{◌≡◌, refl, ap, ◌∙◌, inl, inr, arith}
use whm.Prelude.{Bool, true, false, ◌&&◌, ◌||◌, Option, none, some}
use whm.Prelude.{List, [], ◌∷◌, ◌++◌}
use whm.Prelude.{ltb, ◌==◌, if◌then◌else◌, ==_iff, Bool-cases}
use whm.Prelude.{length, take, drop}
use whm.Prelude.{take-append-drop, length-drop}
use whm.Prelude.Text.{number_key}
use whm.Prelude.Assoc.{Key, contains, uniq, get, get-put, contains-uniq}
use whm.Scan.EvmWatcher.Lookups.{Answer, refused, null, found}
use whm.Scan.EvmWatcher.Lookups.{any_refused, keep, keep_slice, lookup_slices, lookup_all}
use whm.Scan.EvmWatcher.Lookups.{
  Times, time_cache_max, is_missing, missing, clear_large, block_times,
}
use whm.Scan.EvmWatcher.Sweep.{stamp, or_zero}

-- What the map holds of a key once its request was answered.
unfoldable pub answered : {V W : Type 0} → (V → W) → Answer V → Option W → Option W
answered value refused old = old
answered value null old = old
answered value (found v) old = some (value v)

if_same : {A : Type 0} (b : Bool) (a : A) → (if b then a else a) ≡ a
if_same true a = refl
if_same false a = refl

module _ {K V W : Type 0} ⦃key : Key K⦄ (ask : K → Answer V) (value : V → W) where
  get-keep :
      (j k : K) (a : Answer V) (m : List (K × W))
      → get j (keep ask value k a m)
        ≡ (if key.same k j then answered value a (get j m) else get j m)
  unfolding keep answered
  get-keep j k refused m = ground arith
  get-keep j k null m = ground arith
  get-keep j k (found v) m = get-put j k (value v) m

  -- Asking again gives the same.
  answered_twice :
      (a : Answer V) (old : Option W)
      → answered value a (answered value a old) ≡ answered value a old
  unfolding answered
  answered_twice refused old = refl
  answered_twice null old = refl
  answered_twice (found v) old = refl

  get-keep_slice :
      (j : K) (ks : List K) (m : List (K × W))
      → get j (keep_slice ask value ks m)
        ≡ (if contains j ks then answered value (ask j) (get j m) else get j m)
  unfolding keep_slice contains
  get-keep_slice j [] m = refl
  get-keep_slice j (k ∷ ks) m = elim (Bool-cases (key.same k j)) [
    | inl hit ↦
        let once = get-keep j k (ask k) m in
        let here = (key.same_iff k j).0 hit in
        let asked : ask k ≡ ask j = ap ask here in
        rw
          (
            get-keep_slice j ks (keep ask value k (ask k) m),
            once,
            hit,
            asked,
            answered_twice (ask j) (get j m),
            if_same (contains j ks) (answered value (ask j) (get j m)),
          )
          refl
    | inr miss ↦
        rw (get-keep_slice j ks (keep ask value k (ask k) m), get-keep j k (ask k) m, miss) refl
  ]

  contains-append :
      (j : K) (xs ys : List K) → contains j (xs ++ ys) ≡ (contains j xs || contains j ys)
  unfolding contains
  contains-append j [] ys = refl
  contains-append j (x ∷ xs) ys = ground (arith, contains-append j xs ys)

  slices_step :
      (j : K) (front back : List K) (m : List (K × W))
      → (if contains j back
          then answered value (ask j) (get j (keep_slice ask value front m))
          else get j (keep_slice ask value front m))
        ≡ (if contains j (front ++ back) then answered value (ask j) (get j m) else get j m)
  slices_step j front back m =
      rw (get-keep_slice j front m, contains-append j front back)
        (ground (arith, answered_twice (ask j) (get j m)))

  -- Whatever the slices, a key that is asked for is answered, if no request is refused.
  get-lookup_slices :
      (j : K) (concurrency : ℕ)
      → 0 < concurrency
      → (passes : ℕ) (ks : List K) (m : List (K × W)) → length ks ≤ passes
      → (lookup_slices ask value passes concurrency ks m).1 ≡ true
      → get j (lookup_slices ask value passes concurrency ks m).0
        ≡ (if contains j ks then answered value (ask j) (get j m) else get j m)
  unfolding lookup_slices
  get-lookup_slices j c some_room zero [] m le ok = unfold contains in refl
  get-lookup_slices j c some_room (suc passes) [] m le ok = unfold contains in refl
  get-lookup_slices j c some_room zero (k ∷ ks) m le ok = absurd (omega arith)
  get-lookup_slices j c some_room (suc passes) (k ∷ ks) m le ok =
      let front = take c (k ∷ ks) in
      let back = drop c (k ∷ ks) in
      elim (Bool-cases (any_refused ask value front)) [
        | inl refusal ↦ let bad = (rw refusal at ok) in cc
        | inr fine ↦ rw fine (
            get-lookup_slices j c some_room passes back (keep_slice ask value front m)
              (omega (arith, length-drop c (k ∷ ks))) (rw fine at ok)
            ∙ (slices_step j front back m
                ∙ ap
                    (λ (l : List K).
                      if contains j l then answered value (ask j) (get j m) else get j m)
                    (take-append-drop c (k ∷ ks))))
      ]

contains-missing :
    (times : Times) (n : ℕ) (ns : List ℕ)
    → contains n (missing times ns) ≡ (is_missing (get n times) && contains n ns)
unfolding contains missing
contains-missing times n [] = ground arith
contains-missing times n (k ∷ ns) = elim (Bool-cases (k == n)) [
  | inl hit ↦
      let here = (==_iff k n).0 hit in
      let again : (n == n) ≡ true = (==_iff n n).1 refl in
      elim (Bool-cases (is_missing (get n times))) [
        | inl gone ↦ rw (here, gone, again) refl
        | inr held ↦ rw (here, held, contains-missing times n ns, held) refl
      ]
  | inr miss ↦ elim (Bool-cases (is_missing (get k times))) [
    | inl gone ↦ rw (gone, miss, contains-missing times n ns) refl
    | inr held ↦ rw (held, miss, contains-missing times n ns) refl
  ]
]

-- The timestamp that the block has in the cache, or else the one that the node gives, or else 0.
unfoldable pub known_time : (ℕ → Answer ℕ) → Times → ℕ → Option ℕ
known_time get_block times n =
    if is_missing (get n times)
    then answered (λ (s : ℕ). s * 1000) (get_block n) none
    else get n times

-- The cache before its size is looked at.
unfoldable pub filled_cache : (ℕ → Answer ℕ) → ℕ → List ℕ → Times → Times
filled_cache get_block concurrency numbers times =
    (lookup_all get_block (λ (s : ℕ). s * 1000) concurrency (missing times (uniq numbers)) times).0

asked_once :
    (a : Answer ℕ) (old : Option ℕ)
    → (if is_missing old && true then answered (λ (s : ℕ). s * 1000) a old else old)
      ≡ (if is_missing old then answered (λ (s : ℕ). s * 1000) a none else old)
unfolding is_missing
asked_once a none = refl
asked_once a (some t) = refl

module _ (get_block : ℕ → Answer ℕ) (concurrency : ℕ) (numbers : List ℕ) (times : Times)
    (some_room : 0 < concurrency) where
  get-filled_cache :
      (n : ℕ)
      → contains n numbers ≡ true
      → (lookup_all get_block
          (λ (s : ℕ). s * 1000)
          concurrency
          (missing times (uniq numbers))
          times).1
        ≡ true
      → get n (filled_cache get_block concurrency numbers times) ≡ known_time get_block times n
  unfolding filled_cache known_time lookup_all
  get-filled_cache n asked fine =
      let ks = missing times (uniq numbers) in
      get-lookup_slices get_block (λ (s : ℕ). s * 1000) n concurrency some_room (length ks) ks times
        (omega arith) fine
      ∙ rw (contains-missing times n (uniq numbers), contains-uniq n numbers, asked)
          (asked_once (get_block n) (get n times))

  clear_large-true :
      (r : Times × Bool)
      → (clear_large r).1 ≡ true
      → (r.1 ≡ true) × ((clear_large r).0 ≡ (if ltb time_cache_max (length r.0) then [] else r.0))
  unfolding clear_large
  clear_large-true (m, true) h = (refl, refl)
  clear_large-true (m, false) h = cc

  -- With a concurrency of at least one, if no request of the lookup is refused, a block of the batch is given the timestamp
  -- that the cache had for it, or else the node's in milliseconds, or else 0; but where the cache has grown
  -- past its maximum of 20,000 blocks, it is given 0.
  pub stamp-block_times :
      (n : ℕ)
      → contains n numbers ≡ true
      → (block_times get_block concurrency numbers times).1 ≡ true
      → stamp (block_times get_block concurrency numbers times).0 n ≡ (
          if ltb time_cache_max (length (filled_cache get_block concurrency numbers times))
          then 0
          else or_zero (known_time get_block times n))
  unfolding block_times stamp filled_cache
  stamp-block_times n asked fine =
      let cached =
        lookup_all get_block (λ (s : ℕ). s * 1000) concurrency (missing times (uniq numbers))
          times in
      let (whole, cut) = clear_large-true cached fine in
      elim (Bool-cases (ltb time_cache_max (length cached.0))) [
        | inl large ↦ rw (cut, large) (unfold get or_zero in refl)
        | inr small ↦ rw (cut, small) (ap or_zero (get-filled_cache n asked whole))
      ]
