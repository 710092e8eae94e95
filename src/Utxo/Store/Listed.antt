-- ===== src/Utxo/Store/Listed.antt =====
-- agents/utxo/src/apps/relayer/store.ts, `open`: the records that it lists.
use whm.Prelude.{ℕ, ◌≤◌}
use whm.Prelude.{◌≡◌, refl, sym, ap, ◌∙◌, ◌↔◌, ◌⊎◌, inl, inr, arith}
use whm.Prelude.{Bool, true, false, ◌||◌, some}
use whm.Prelude.{List, [], ◌∷◌, map}
use whm.Prelude.{leb, Bool-cases, Option-cases, if_elim}
use whm.Prelude.{All, In}
use whm.Prelude.Text.{bytes_eq, bytes_eq_sound, bytes_eq_refl}
use whm.Utxo.Store.Redis.{Redis, contains_text}
use whm.Utxo.Store.Records.{
  Text, Withdrawal, open_state, id, key_of, open_key, present, insert_by_age, sort_by_age,
  open_records,
}
use whm.Utxo.Store.View.{view, is_listed, get-some, parsed}
use whm.Utxo.Store.Consistent.{open_record, IsConsistent}

In-insert :
    (w u : Withdrawal) (vs : List Withdrawal) → In w (insert_by_age u vs) ↔ ((w ≡ u) ⊎ In w vs)
unfolding insert_by_age
In-insert w u [] = (λ i. i, λ i. i)
In-insert w u (v ∷ vs) =
    let later = In-insert w u vs in
    elim (Bool-cases (leb u.created_at v.created_at)) [
      | inl older ↦ rw older (λ i. i, λ i. i)
      | inr younger ↦ rw younger (
        λ i. elim i [
          | inl here ↦ inr (inl here)
          | inr behind ↦ elim (later.0 behind) [ inl new ↦ inl new | inr old ↦ inr (inr old) ]
        ],
        λ i. elim i [
          | inl new ↦ inr (later.1 (inl new))
          | inr old ↦ elim old [ inl here ↦ inl here | inr behind ↦ inr (later.1 (inr behind)) ]
        ],
      )
    ]

In-sort : (w : Withdrawal) (vs : List Withdrawal) → In w (sort_by_age vs) ↔ In w vs
unfolding sort_by_age
In-sort w [] = (λ i. i, λ i. i)
In-sort w (v ∷ vs) =
    let first = In-insert w v (sort_by_age vs) in
    let later = In-sort w vs in
    (
      λ i. elim (first.0 i) [ inl here ↦ inl here | inr behind ↦ inr (later.0 behind) ],
      λ i. elim i [ inl here ↦ first.1 (inl here) | inr behind ↦ first.1 (inr (later.1 behind)) ],
    )

or_right : (a b : Bool) → b ≡ true → (a || b) ≡ true
or_right true b h = refl
or_right false b h = h

-- Oldest first.
unfoldable pub IsByAge : List Withdrawal → Type 0
IsByAge [] = Unit
IsByAge (w ∷ ws) = All (λ v. w.created_at ≤ v.created_at) ws × IsByAge ws

module _ (n : ℕ) where
  All-insert :
      (u : Withdrawal) (vs : List Withdrawal)
      → n ≤ u.created_at
      → All (λ v. n ≤ v.created_at) vs
      → All (λ v. n ≤ v.created_at) (insert_by_age u vs)
  unfolding insert_by_age
  All-insert u [] h _ = (h, tt)
  All-insert u (v ∷ vs) h (k, ks) =
      if_elim (All (λ r. n ≤ r.created_at)) (leb u.created_at v.created_at) _ _
        (λ older. (h, (k, ks))) (λ younger. (k, All-insert u vs h ks))

All-older :
    (n m : ℕ) (vs : List Withdrawal)
    → n ≤ m
    → All (λ v. m ≤ v.created_at) vs
    → All (λ v. n ≤ v.created_at) vs
All-older n m [] h _ = tt
All-older n m (v ∷ vs) h (k, ks) = (omega arith, All-older n m vs h ks)

insert-IsByAge : (u : Withdrawal) (vs : List Withdrawal) → IsByAge vs → IsByAge (insert_by_age u vs)
unfolding insert_by_age IsByAge
insert-IsByAge u [] h = (tt, tt)
insert-IsByAge u (v ∷ vs) (h, hs) =
    if_elim IsByAge (leb u.created_at v.created_at) _ _
      (λ older.
        let le : u.created_at ≤ v.created_at = ground arith in
        ((le, All-older u.created_at v.created_at vs le h), (h, hs)))
      (λ younger. (All-insert v.created_at u vs (ground arith) h, insert-IsByAge u vs hs))

sort-IsByAge : (vs : List Withdrawal) → IsByAge (sort_by_age vs)
unfolding sort_by_age IsByAge
sort-IsByAge [] = tt
sort-IsByAge (v ∷ vs) = insert-IsByAge v (sort_by_age vs) (sort-IsByAge vs)

module _ (redis : Redis) (prefix : Text) (stringify : Withdrawal → Text) (parse : Text → Withdrawal)
    (parse-stringify : (w : Withdrawal) → parse (stringify w) ≡ w) where
  open redis use {Db, get, smembers}

  -- What `mget` gives for some ids, parsed.
  fetched : Db → List Text → List Withdrawal
  fetched db ids = map parse (present (map (λ x. get db (key_of prefix x)) ids))

  found-In :
      (db : Db) (ids : List Text) (x : Text) (w : Withdrawal)
      → contains_text ids x ≡ true
      → view redis prefix parse db x ≡ some w
      → In w (fetched db ids)
  unfolding fetched contains_text present
  found-In db [] x w listed h = cc
  found-In db (y ∷ ids) x w listed h = elim (Bool-cases (bytes_eq y x)) [
    | inl hit ↦
        let here = bytes_eq_sound y x hit in
        let (v, e, read) =
          get-some redis prefix parse db y w
            (ap (λ (z : Text). view redis prefix parse db z) here ∙ h) in
        rw e (inl (sym read))
    | inr miss ↦
        let later = found-In db ids x w (rw miss at listed) h in
        elim (Option-cases (get db (key_of prefix y))) [
          | inl empty ↦ rw empty later
          | inr (u, e) ↦ rw e (inr later)
        ]
  ]

  In-found :
      (db : Db) (ids : List Text) (w : Withdrawal)
      → In w (fetched db ids)
      → (x : Text) × (contains_text ids x ≡ true) × (view redis prefix parse db x ≡ some w)
  unfolding fetched contains_text present view parsed
  In-found db [] w i = absurd i
  In-found db (y ∷ ids) w i = elim (Option-cases (get db (key_of prefix y))) [
    | inl empty ↦
        let (x, listed, h) = In-found db ids w (rw empty at i) in
        (x, or_right (bytes_eq y x) _ listed, h)
    | inr (v, e) ↦ elim (rw e at i) [
      | inl here ↦ (y, rw (bytes_eq_refl y) refl, rw e (ap some (sym here)))
      | inr behind ↦
          let (x, listed, h) = In-found db ids w behind in (x, or_right (bytes_eq y x) _ listed, h)
    ]
  ]

  -- Where JSON gives a record back, and the listed ids are those of the open records: `open` gives the records that the store
  -- has as open, and no others, oldest first.
  pub open_records_lem :
      (db : Db)
      → IsConsistent redis prefix stringify parse parse-stringify db
      → IsByAge (open_records redis prefix stringify parse db)
        × ((w : Withdrawal)
            → In w (open_records redis prefix stringify parse db)
              ↔ ((view redis prefix parse db (id w) ≡ some w) × (open_state w.state ≡ true)))
  unfolding open_records fetched open_record is_listed
  open_records_lem db c =
      let ids = smembers db (open_key prefix) in
      (
        sort-IsByAge (fetched db ids),
        λ w. (
          λ i.
              let (x, listed, h) = In-found db ids w ((In-sort w (fetched db ids)).0 i) in
              let own = c.own x w h in
              (
                ap (λ (y : Text). view redis prefix parse db y) own ∙ h,
                sym (ap open_record h) ∙ (sym (c.listed x) ∙ listed),
              ),
          λ p.
              (In-sort w (fetched db ids)).1
                (found-In db ids (id w) w (c.listed (id w) ∙ (ap open_record p.0 ∙ p.1)) p.0),
        ),
      )
