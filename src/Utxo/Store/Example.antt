-- ===== src/Utxo/Store/Example.antt =====
-- A Redis of pairs, a JSON of fields behind their lengths, and a store with one record.
use whm.Prelude.{ℕ, zero, suc}
use whm.Prelude.{◌≡◌, refl, ◌↔◌, arith}
use whm.Prelude.{Bool, true, false, ◌&&◌, Option, none, some}
use whm.Prelude.{List, [], ◌∷◌, ◌++◌}
use whm.Prelude.{if◌then◌else◌}
use whm.Prelude.{length, take, drop, In}
use whm.Prelude.{take-append, drop-append}
use whm.Prelude.Text.{bytes_eq, bytes_eq_refl, bytes_eq_iff, text_key, codes, to_lower_case}
use whm.Prelude.Assoc
use whm.Prelude.Assoc.{get-put}
use whm.Utxo.Store.Redis.{Redis, contains_text}
use whm.Utxo.Store.Records.{
  Text, Status, is_open, is_withdrawn, is_mismatch, Withdrawal, open_state, id, record_of, add,
  open_records, on_withdrawal,
}
use whm.Utxo.Store.View.{view, parsed, is_listed}
use whm.Utxo.Store.Consistent.{
  open_record, IsConsistent, add_record, apply, Fits, apply-IsConsistent, add_interrupted,
}
use whm.Utxo.Store.Listed.{IsByAge, open_records_lem}
use whm.Utxo.Store.Events.{on_withdrawal-IsConsistent}

abbrev Pairs : Type 0
Pairs = List (Text × Text) × List (Text × Text)

members_of : Text → List (Text × Text) → List Text
members_of s [] = []
members_of s ((t, x) ∷ ps) = let rest = members_of s ps in if bytes_eq t s then x ∷ rest else rest

remove : Text → Text → List (Text × Text) → List (Text × Text)
remove s y [] = []
remove s y ((t, x) ∷ ps) =
    let rest = remove s y ps in if bytes_eq t s && bytes_eq y x then rest else (t, x) ∷ rest

contains-remove :
    (s y x : Text) (ps : List (Text × Text))
    → contains_text (members_of s (remove s y ps)) x
      ≡ (if bytes_eq y x then false else contains_text (members_of s ps) x)
unfolding contains_text members_of remove
contains-remove s y x [] = ground arith
contains-remove s y x ((t, z) ∷ ps) =
    ground (arith, bytes_eq_iff y x, bytes_eq_iff z x, bytes_eq_iff y z, contains-remove s y x ps)

set_new : Option Text → Text → Text → Pairs → Pairs × Bool
set_new none k v (m, ps) = ((Assoc.put k v m, ps), true)
set_new (some u) k v db = (db, false)

set_new-none :
    (k v : Text) (db : Pairs) (o : Option Text)
    → o ≡ none
    → set_new o k v db ≡ ((Assoc.put k v db.0, db.1), true)
unfolding set_new
set_new-none k v db none h = refl
set_new-none k v db (some u) h = cc

set_new-some :
    (k v u : Text) (db : Pairs) (o : Option Text) → o ≡ some u → set_new o k v db ≡ (db, false)
unfolding set_new
set_new-some k v u db none h = cc
set_new-some k v u db (some t) h = refl

contains-sadd :
    (s y x : Text) (ps : List (Text × Text))
    → contains_text (members_of s ((s, y) ∷ ps)) x
      ≡ (if bytes_eq y x then true else contains_text (members_of s ps) x)
unfolding contains_text members_of
contains-sadd s y x ps = rw (bytes_eq_refl s) (ground arith)

abbrev pairs : Redis
pairs = record {
  Db = Pairs;
  get = λ db k. Assoc.get k db.0;
  smembers = λ db s. members_of s db.1;
  set = λ k v db. (Assoc.put k v db.0, db.1);
  set_nx = λ k v db. set_new (Assoc.get k db.0) k v db;
  sadd = λ s y db. (db.0, (s, y) ∷ db.1);
  srem = λ s y db. (db.0, remove s y db.1);
  expire = λ k db. db;
  get-set = λ k v j db. get-put j k v db.0;
  get-sadd = λ s x j db. refl;
  get-srem = λ s x j db. refl;
  get-expire = λ k j db. refl;
  set_nx_new = λ k v db h. set_new-none k v db (Assoc.get k db.0) h;
  set_nx_known = λ k v u db h. set_new-some k v u db (Assoc.get k db.0) h;
  members-set = λ k v s x db. refl;
  members-expire = λ k s x db. refl;
  members-sadd = λ s y x db. contains-sadd s y x db.1;
  members-srem = λ s y x db. contains-remove s y x db.1;
}

-- A field behind its length.
field : Text → Text → Text
field t rest = length t ∷ t ++ rest

first_field : Text → Text
first_field [] = []
first_field (n ∷ v) = take n v

other_fields : Text → Text
other_fields [] = []
other_fields (n ∷ v) = drop n v

first_field-field : (t rest : Text) → first_field (field t rest) ≡ t
unfolding first_field field
first_field-field t rest = take-append (length t) t rest refl

other_fields-field : (t rest : Text) → other_fields (field t rest) ≡ rest
unfolding other_fields field
other_fields-field t rest = drop-append (length t) t rest refl

of_status : Status → ℕ
of_status is_open = 0
of_status is_withdrawn = 1
of_status is_mismatch = 2

status : ℕ → Status
status zero = is_open
status (suc zero) = is_withdrawn
status (suc (suc n)) = is_mismatch

status-of_status : (s : Status) → status (of_status s) ≡ s
unfolding status of_status
status-of_status is_open = refl
status-of_status is_withdrawn = refl
status-of_status is_mismatch = refl

of_option : Option Text → Text
of_option none = []
of_option (some t) = 1 ∷ t

option : Text → Option Text
option [] = none
option (n ∷ t) = some t

option-of_option : (o : Option Text) → option (of_option o) ≡ o
unfolding option of_option
option-of_option none = refl
option-of_option (some t) = refl

head : Text → ℕ
head [] = 0
head (n ∷ t) = n

stringify : Withdrawal → Text
stringify w = field w.chain (
    field w.sequence (
      field w.account (
        field w.address (
          field w.amount (
            field w.block (
              field (of_option w.withdraw_tx) (
                field (of_option w.last_error)
                  (of_status w.state ∷ w.created_at ∷ w.updated_at ∷ []))))))))

third : Text → ℕ
third (a ∷ b ∷ c ∷ v) = c
third v = 0

second : Text → ℕ
second (a ∷ b ∷ v) = b
second v = 0

parse : Text → Withdrawal
parse v1 =
    let v2 = other_fields v1 in
    let v3 = other_fields v2 in
    let v4 = other_fields v3 in
    let v5 = other_fields v4 in
    let v6 = other_fields v5 in
    let v7 = other_fields v6 in
    let v8 = other_fields v7 in
    let v9 = other_fields v8 in
    record {
      chain = first_field v1;
      sequence = first_field v2;
      account = first_field v3;
      address = first_field v4;
      amount = first_field v5;
      block = first_field v6;
      state = status (head v9);
      created_at = second v9;
      updated_at = third v9;
      withdraw_tx = option (first_field v7);
      last_error = option (first_field v8);
    }

parse-stringify : (w : Withdrawal) → parse (stringify w) ≡ w
unfolding parse stringify head second third
parse-stringify w = simp (first_field-field, other_fields-field, status-of_status, option-of_option)

abbrev prefix : Text
prefix = codes "utxo"

abbrev nothing : Pairs
nothing = ([], [])

abbrev withdrawal : Withdrawal
withdrawal = record {
  chain = codes "zcash";
  sequence = codes "7";
  account = codes "da66";
  address = codes "t1Kf";
  amount = codes "150000";
  block = codes "900";
  state = is_open;
  created_at = 5;
  updated_at = 5;
  withdraw_tx = none;
  last_error = none;
}

nothing-IsConsistent : IsConsistent pairs prefix stringify parse parse-stringify nothing
unfolding is_listed view open_record members_of contains_text parsed Assoc.get
nothing-IsConsistent = record { listed = λ x. refl; own = λ x w h. cc }

apply-IsConsistent_example :
    IsConsistent pairs prefix stringify parse parse-stringify
      (apply pairs prefix stringify parse parse-stringify (add_record withdrawal) nothing)
apply-IsConsistent_example =
    apply-IsConsistent pairs prefix stringify parse parse-stringify (add_record withdrawal) nothing
      (unfold Fits in tt) nothing-IsConsistent

unknown : view pairs prefix parse nothing (id withdrawal) ≡ none
unfolding view parsed Assoc.get
unknown = refl

add_interrupted_example :
    (view pairs prefix parse
        (add pairs prefix stringify parse false withdrawal nothing).0
        (id withdrawal)
      ≡ some withdrawal)
    × (is_listed pairs prefix
          (add pairs prefix stringify parse false withdrawal nothing).0
          (id withdrawal)
        ≡ false)
    × (add pairs prefix stringify parse true withdrawal
          (add pairs prefix stringify parse false withdrawal nothing).0
        ≡ ((add pairs prefix stringify parse false withdrawal nothing).0, some false))
add_interrupted_example =
    add_interrupted pairs prefix stringify parse parse-stringify withdrawal true nothing unknown
      (unfold is_listed members_of contains_text in refl)

abbrev one : Pairs
one = apply pairs prefix stringify parse parse-stringify (add_record withdrawal) nothing

one-IsConsistent : IsConsistent pairs prefix stringify parse parse-stringify one
one-IsConsistent =
    apply-IsConsistent pairs prefix stringify parse parse-stringify (add_record withdrawal) nothing
      (unfold Fits in tt) nothing-IsConsistent

open_records_lem_example :
    IsByAge (open_records pairs prefix stringify parse one)
    × ((w : Withdrawal)
        → In w (open_records pairs prefix stringify parse one)
          ↔ ((view pairs prefix parse one (id w) ≡ some w) × (open_state w.state ≡ true)))
open_records_lem_example =
    open_records_lem pairs prefix stringify parse parse-stringify one one-IsConsistent

abbrev event : Withdrawal
event = record_of (codes "zcash") 7 (codes "0xDA66") (codes "t1Kf") (codes "da66") 150_000 900 5

event_unknown : view pairs prefix parse nothing (id event) ≡ none
unfolding view parsed Assoc.get
event_unknown = refl

on_withdrawal-IsConsistent_example :
    (is_listed pairs prefix
        (on_withdrawal pairs prefix stringify parse true
          (codes "zcash")
          7
          (codes "0xDA66")
          (codes "t1Kf")
          (codes "da66")
          150_000
          900
          5
          nothing).0
        (id event)
      ≡ bytes_eq (codes "da66") (to_lower_case (drop 2 (codes "0xDA66"))))
    × IsConsistent pairs prefix stringify parse parse-stringify
        (on_withdrawal pairs prefix stringify parse true
          (codes "zcash")
          7
          (codes "0xDA66")
          (codes "t1Kf")
          (codes "da66")
          150_000
          900
          5
          nothing).0
on_withdrawal-IsConsistent_example =
    on_withdrawal-IsConsistent pairs prefix stringify parse parse-stringify (codes "zcash") 7
      (codes "0xDA66") (codes "t1Kf") (codes "da66") 150_000 900 5 nothing nothing-IsConsistent
      event_unknown
