-- ===== src/Utxo/Store/View.antt =====
-- agents/utxo/src/apps/relayer/store.ts: the store as a map from record ids to records, and a set of ids.
use whm.Prelude.{◌≡◌, refl, ap, ◌∙◌, inl, inr}
use whm.Prelude.{Bool, true, false, Option, none, some}
use whm.Prelude.{[], ◌∷◌, ◌++◌}
use whm.Prelude.{◌==◌, if◌then◌else◌, ==_iff, Option-cases}
use whm.Prelude.Text.{bytes_eq}
use whm.Utxo.Store.Redis.{Redis, contains_text}
use whm.Utxo.Store.Records.{Text, Withdrawal, id, key_of, key, open_key}

bytes_eq-append : (p x y : Text) → bytes_eq (p ++ x) (p ++ y) ≡ bytes_eq x y
unfolding bytes_eq
bytes_eq-append [] x y = refl
bytes_eq-append (c ∷ p) x y =
    let same : (c == c) ≡ true = (==_iff c c).1 refl in rw same (bytes_eq-append p x y)

pub bytes_eq-key_of : (p x y : Text) → bytes_eq (key_of p x) (key_of p y) ≡ bytes_eq x y
unfolding key_of
bytes_eq-key_of p x y =
    let same : (b':' == b':') ≡ true = refl in
    bytes_eq-append p (b':' ∷ x) (b':' ∷ y) ∙ unfold bytes_eq in refl

module _ (redis : Redis) (prefix : Text) where
  open redis use {Db, smembers}

  -- Whether an id stands in the set of the open ones.
  unfoldable pub is_listed : Db → Text → Bool
  is_listed db x = contains_text (smembers db (open_key prefix)) x

module _ (redis : Redis) (prefix : Text) (parse : Text → Withdrawal) where
  open redis use {Db, get, set, sadd, srem, expire, get-set, get-sadd, get-srem, get-expire}

  unfoldable pub parsed : Option Text → Option Withdrawal
  parsed none = none
  parsed (some v) = some (parse v)

  -- The record under an id.
  unfoldable pub view : Db → Text → Option Withdrawal
  view db x = parsed (get db (key_of prefix x))

  pub get-none : (db : Db) (x : Text) → view db x ≡ none → get db (key_of prefix x) ≡ none
  unfolding view parsed
  get-none db x h = elim (Option-cases (get db (key_of prefix x))) [
    | inl empty ↦ empty
    | inr (v, e) ↦ let bad = (rw e at h) in cc
  ]

  pub get-some :
      (db : Db) (x : Text) (w : Withdrawal)
      → view db x ≡ some w
      → (v : Text) × (get db (key_of prefix x) ≡ some v) × (parse v ≡ w)
  unfolding view parsed
  get-some db x w h = elim (Option-cases (get db (key_of prefix x))) [
    | inl empty ↦ let bad = (rw empty at h) in cc
    | inr (v, e) ↦ let found : some (parse v) ≡ some w = (rw e at h) in (v, e, cc)
  ]

  parsed_if :
      (b : Bool) (v : Text) (o : Option Text) (w : Withdrawal)
      → parse v ≡ w
      → parsed (if b then some v else o) ≡ (if b then some w else parsed o)
  unfolding parsed
  parsed_if true v o w e = ap some e
  parsed_if false v o w e = refl

  pub view-set :
      (v : Text) (w u : Withdrawal) (db : Db) (x : Text)
      → parse v ≡ u
      → view (set (key prefix w) v db) x ≡ (if bytes_eq (id w) x then some u else view db x)
  unfolding view key
  view-set v w u db x e =
      rw (get-set (key_of prefix (id w)) v (key_of prefix x) db, bytes_eq-key_of prefix (id w) x)
        (parsed_if (bytes_eq (id w) x) v (get db (key_of prefix x)) u e)

  pub view-sadd : (s y x : Text) (db : Db) → view (sadd s y db) x ≡ view db x
  unfolding view
  view-sadd s y x db = rw (get-sadd s y (key_of prefix x) db) refl

  pub view-srem : (s y x : Text) (db : Db) → view (srem s y db) x ≡ view db x
  unfolding view
  view-srem s y x db = rw (get-srem s y (key_of prefix x) db) refl

  pub view-expire : (k x : Text) (db : Db) → view (expire k db) x ≡ view db x
  unfolding view
  view-expire k x db = rw (get-expire k (key_of prefix x) db) refl
