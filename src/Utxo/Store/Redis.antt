-- ===== src/Utxo/Store/Redis.antt =====
-- What agents/utxo/src/apps/relayer/store.ts relies on of Redis: strings under keys, and sets under keys.
use whm.Prelude.{◌≡◌}
use whm.Prelude.{Bool, true, false, ◌||◌, Option, none, some}
use whm.Prelude.{List, [], ◌∷◌}
use whm.Prelude.{if◌then◌else◌}
use whm.Prelude.Text.{Bytes, bytes_eq}

unfoldable pub contains_text : List Bytes → Bytes → Bool
contains_text [] x = false
contains_text (y ∷ ys) x = bytes_eq y x || contains_text ys x

pub record Redis : Type 1 where
  pub Db : Type 0
  pub get : Db → Bytes → Option Bytes
  pub smembers : Db → Bytes → List Bytes
  pub set : Bytes → Bytes → Db → Db
  -- `SET key value NX`, and whether it was set.
  pub set_nx : Bytes → Bytes → Db → Db × Bool
  pub sadd : Bytes → Bytes → Db → Db
  pub srem : Bytes → Bytes → Db → Db
  pub expire : Bytes → Db → Db
  pub get-set :
      (k v j : Bytes) (db : Db) → get (set k v db) j ≡ (if bytes_eq k j then some v else get db j)
  pub get-sadd : (s x j : Bytes) (db : Db) → get (sadd s x db) j ≡ get db j
  pub get-srem : (s x j : Bytes) (db : Db) → get (srem s x db) j ≡ get db j
  pub get-expire : (k j : Bytes) (db : Db) → get (expire k db) j ≡ get db j
  pub set_nx_new : (k v : Bytes) (db : Db) → get db k ≡ none → set_nx k v db ≡ (set k v db, true)
  pub set_nx_known : (k v u : Bytes) (db : Db) → get db k ≡ some u → set_nx k v db ≡ (db, false)
  pub members-set :
      (k v s x : Bytes) (db : Db)
      → contains_text (smembers (set k v db) s) x ≡ contains_text (smembers db s) x
  pub members-expire :
      (k s x : Bytes) (db : Db)
      → contains_text (smembers (expire k db) s) x ≡ contains_text (smembers db s) x
  pub members-sadd :
      (s y x : Bytes) (db : Db)
      → contains_text (smembers (sadd s y db) s) x
        ≡ (if bytes_eq y x then true else contains_text (smembers db s) x)
  pub members-srem :
      (s y x : Bytes) (db : Db)
      → contains_text (smembers (srem s y db) s) x
        ≡ (if bytes_eq y x then false else contains_text (smembers db s) x)
