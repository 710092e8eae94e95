-- ===== src/Utxo/Store/Consistent.antt =====
-- agents/utxo/src/apps/relayer/store.ts: the set of open ids beside the records' states.
use whm.Prelude.{ℕ}
use whm.Prelude.{◌≡◌, refl, sym, ap, ◌∙◌, inl, inr}
use whm.Prelude.{Bool, true, false, Option, none, some}
use whm.Prelude.{if◌then◌else◌, Bool-cases, Option-cases, if_elim}
use whm.Prelude.Text.{bytes_eq, bytes_eq_sound, bytes_eq_refl}
use whm.Utxo.Store.Redis.{Redis}
use whm.Utxo.Store.Records.{Text, Withdrawal, open_state, id, key_of, key, open_key}
use whm.Utxo.Store.Records.{closed, failed, add_new, after_set, add, fail, withdrawn}
use whm.Utxo.Store.View.{
  view, is_listed, get-none, get-some, view-set, view-sadd, view-srem, view-expire,
}

unfoldable pub open_record : Option Withdrawal → Bool
open_record none = false
open_record (some w) = open_state w.state

module _ (redis : Redis) (prefix : Text) (stringify : Withdrawal → Text) (parse : Text → Withdrawal)
    (parse-stringify : (w : Withdrawal) → parse (stringify w) ≡ w) where
  open redis use {
    Db, set, sadd, srem, expire, set_nx_new, set_nx_known, members-set, members-expire,
    members-sadd, members-srem,
  }

  -- The ids of the open records, and no others, are listed; a record stands under its own id.
  pub record IsConsistent (db : Db) : Type 0 where
    pub listed :
        (x : Text) → is_listed redis prefix db x ≡ open_record (view redis prefix parse db x)
    pub own : (x : Text) (w : Withdrawal) → view redis prefix parse db x ≡ some w → id w ≡ x

  own-set :
      (b : Bool) (u : Withdrawal) (o : Option Withdrawal) (x : Text) (w : Withdrawal)
      → (b ≡ true → id u ≡ x)
      → (o ≡ some w → id w ≡ x)
      → (if b then some u else o) ≡ some w
      → id w ≡ x
  own-set true u o x w here there h = let same : u ≡ w = cc in ap id (sym same) ∙ here refl
  own-set false u o x w here there h = there h

  -- A record is set, and its id is listed if it is open.
  set-IsConsistent :
      (w u : Withdrawal) (db after : Db)
      → id u ≡ id w
      → IsConsistent db
      → ((x : Text)
          → view redis prefix parse after x
            ≡ (if bytes_eq (id w) x then some u else view redis prefix parse db x))
      → ((x : Text)
          → is_listed redis prefix after x
            ≡ (if bytes_eq (id w) x then open_state u.state else is_listed redis prefix db x))
      → IsConsistent after
  unfolding open_record
  set-IsConsistent w u db after same c viewed listed = record {
    listed = λ x. elim (Bool-cases (bytes_eq (id w) x)) [
      | inl hit ↦ rw (listed x, viewed x, hit) refl
      | inr miss ↦ rw (listed x, viewed x, miss) (c.listed x)
    ];
    own = λ x v h.
        own-set (bytes_eq (id w) x) u (view redis prefix parse db x) x v
          (λ hit. same ∙ bytes_eq_sound (id w) x hit) (c.own x v) (sym (viewed x) ∙ h);
  }

  withdrawn-IsConsistent :
      (w : Withdrawal) (tx : Text) (now : ℕ) (db : Db)
      → IsConsistent db
      → IsConsistent (withdrawn redis prefix stringify parse w tx now db)
  unfolding withdrawn is_listed
  withdrawn-IsConsistent w tx now db c =
      let u = closed w tx now in
      let stored = set (key prefix w) (stringify u) db in
      set-IsConsistent w u db (srem (open_key prefix) (id w) stored) (unfold closed id in refl) c
        (λ x.
          view-srem redis prefix parse (open_key prefix) (id w) x stored
          ∙ view-set redis prefix parse (stringify u) w u db x (parse-stringify u))
        (λ x.
          members-srem (open_key prefix) (id w) x stored
          ∙ unfold closed open_state in
            rw (members-set (key prefix w) (stringify u) (open_key prefix) x db) refl)

  as_listed :
      (w : Withdrawal) (db : Db) (x : Text)
      → open_record (view redis prefix parse db (id w)) ≡ open_state w.state
      → IsConsistent db
      → is_listed redis prefix db x
        ≡ (if bytes_eq (id w) x then open_state w.state else is_listed redis prefix db x)
  as_listed w db x same_state c = elim (Bool-cases (bytes_eq (id w) x)) [
    | inl hit ↦
        let here = bytes_eq_sound (id w) x hit in
        rw hit (
          ap (λ (y : Text). is_listed redis prefix db y) (sym here)
          ∙ (c.listed (id w) ∙ same_state))
    | inr miss ↦ rw miss refl
  ]

  unlisted :
      (w : Withdrawal) (db : Db) (x : Text)
      → view redis prefix parse db (id w) ≡ none
      → open_state w.state ≡ false
      → IsConsistent db
      → is_listed redis prefix db x
        ≡ (if bytes_eq (id w) x then open_state w.state else is_listed redis prefix db x)
  unfolding open_record
  unlisted w db x new starts_closed c = as_listed w db x (rw (new, starts_closed) refl) c

  add_known :
      (reached : Bool) (w v : Withdrawal) (db : Db)
      → view redis prefix parse db (id w) ≡ some v
      → add redis prefix stringify parse reached w db ≡ (db, some false)
  unfolding add after_set key
  add_known reached w v db h =
      let (u, held, _) = get-some redis prefix parse db (id w) v h in
      rw (set_nx_known (key_of prefix (id w)) (stringify w) u db held) refl

  add_unknown :
      (reached : Bool) (w : Withdrawal) (db : Db)
      → view redis prefix parse db (id w) ≡ none
      → add redis prefix stringify parse reached w db
        ≡ add_new redis prefix stringify parse reached w (set (key prefix w) (stringify w) db)
  unfolding add after_set key
  add_unknown reached w db h =
      rw
        (set_nx_new (key_of prefix (id w)) (stringify w) db
          (get-none redis prefix parse db (id w) h))
        refl

  add_new-IsConsistent :
      (w : Withdrawal) (db : Db)
      → view redis prefix parse db (id w) ≡ none
      → IsConsistent db
      → IsConsistent
          (add_new redis prefix stringify parse true w (set (key prefix w) (stringify w) db)).0
  unfolding add_new is_listed
  add_new-IsConsistent w db new c =
      let stored = set (key prefix w) (stringify w) db in
      if_elim IsConsistent (open_state w.state) _ _
        (λ starts_open.
          set-IsConsistent w w db (sadd (open_key prefix) (id w) stored) refl c
            (λ x.
              view-sadd redis prefix parse (open_key prefix) (id w) x stored
              ∙ view-set redis prefix parse (stringify w) w w db x (parse-stringify w))
            (λ x.
              members-sadd (open_key prefix) (id w) x stored
              ∙ rw (members-set (key prefix w) (stringify w) (open_key prefix) x db, starts_open)
                  refl))
        (λ starts_closed.
          set-IsConsistent w w db (expire (key prefix w) stored) refl c
            (λ x.
              view-expire redis prefix parse (key prefix w) x stored
              ∙ view-set redis prefix parse (stringify w) w w db x (parse-stringify w))
            (λ x.
              members-expire (key prefix w) (open_key prefix) x stored
              ∙ (members-set (key prefix w) (stringify w) (open_key prefix) x db
                  ∙ unlisted w db x new starts_closed c)))

  pub add-IsConsistent :
      (w : Withdrawal) (db : Db)
      → IsConsistent db
      → IsConsistent (add redis prefix stringify parse true w db).0
  add-IsConsistent w db c = elim (Option-cases (view redis prefix parse db (id w))) [
    | inl new ↦ rw (add_unknown true w db new) (add_new-IsConsistent w db new c)
    | inr (v, known) ↦ rw (add_known true w v db known) c
  ]

  fail-IsConsistent :
      (w : Withdrawal) (error : Text) (now : ℕ) (db : Db)
      → open_record (view redis prefix parse db (id w)) ≡ open_state w.state
      → IsConsistent db
      → IsConsistent (fail redis prefix stringify parse w error now db)
  unfolding fail is_listed
  fail-IsConsistent w error now db same_state c =
      let u = failed w error now in
      set-IsConsistent w u db (set (key prefix w) (stringify u) db) (unfold failed id in refl) c
        (λ x. view-set redis prefix parse (stringify u) w u db x (parse-stringify u))
        (λ x.
          members-set (key prefix w) (stringify u) (open_key prefix) x db
          ∙ unfold failed in as_listed w db x same_state c)

  -- What the relayer asks of the store.
  pub data Operation : Type 0 where
    add_record : Withdrawal → Operation
    fail_record : Withdrawal → Text → ℕ → Operation
    close_record : Withdrawal → Text → ℕ → Operation

  unfoldable pub apply : Operation → Db → Db
  apply (add_record w) db = (add redis prefix stringify parse true w db).0
  apply (fail_record w error now) db = fail redis prefix stringify parse w error now db
  apply (close_record w tx now) db = withdrawn redis prefix stringify parse w tx now db

  -- A failure is recorded of a record that is as open as the store has it.
  unfoldable pub Fits : Operation → Db → Type 0
  Fits (add_record w) db = Unit
  Fits (fail_record w error now) db =
      open_record (view redis prefix parse db (id w)) ≡ open_state w.state
  Fits (close_record w tx now) db = Unit

  -- Where JSON gives a record back: if the listed ids are those of the open records and every record stands under its own
  -- id, then this stays so when a record is added, closed, or noted as failed, the last provided that the
  -- store has it as open as the caller does.
  pub apply-IsConsistent :
      (op : Operation) (db : Db) → Fits op db → IsConsistent db → IsConsistent (apply op db)
  unfolding apply Fits
  apply-IsConsistent (add_record w) db f c = add-IsConsistent w db c
  apply-IsConsistent (fail_record w error now) db f c = fail-IsConsistent w error now db f c
  apply-IsConsistent (close_record w tx now) db f c = withdrawn-IsConsistent w tx now db c

  -- Where JSON gives a record back: an open record that the store does not know, and whose id is not listed, is kept but not
  -- listed when the second command of `add` fails, and adding it again, however often the events are read
  -- again, changes nothing.
  pub add_interrupted :
      (w : Withdrawal) (again : Bool) (db : Db)
      → view redis prefix parse db (id w) ≡ none
      → is_listed redis prefix db (id w) ≡ false
      → (view redis prefix parse (add redis prefix stringify parse false w db).0 (id w) ≡ some w)
        × (is_listed redis prefix (add redis prefix stringify parse false w db).0 (id w) ≡ false)
        × (add redis prefix stringify parse again w (add redis prefix stringify parse false w db).0
            ≡ ((add redis prefix stringify parse false w db).0, some false))
  unfolding add_new is_listed
  add_interrupted w again db new unlisted_before =
      let stored = set (key prefix w) (stringify w) db in
      let here : view redis prefix parse stored (id w) ≡ some w =
        view-set redis prefix parse (stringify w) w w db (id w) (parse-stringify w)
        ∙ rw (bytes_eq_refl (id w)) refl in
      rw (add_unknown false w db new) (
        here,
        members-set (key prefix w) (stringify w) (open_key prefix) (id w) db ∙ unlisted_before,
        add_known again w w stored here,
      )

  -- What `add` keeps of a record that the store did not know.
  pub add-view :
      (w : Withdrawal) (db : Db)
      → view redis prefix parse db (id w) ≡ none
      → view redis prefix parse (add redis prefix stringify parse true w db).0 (id w) ≡ some w
  unfolding add_new
  add-view w db new =
      let stored = set (key prefix w) (stringify w) db in
      let here : view redis prefix parse stored (id w) ≡ some w =
        view-set redis prefix parse (stringify w) w w db (id w) (parse-stringify w)
        ∙ rw (bytes_eq_refl (id w)) refl in
      rw (add_unknown true w db new) (
        if_elim (λ (d : Db). view redis prefix parse d (id w) ≡ some w) (open_state w.state) _ _
          (λ starts_open.
            view-sadd redis prefix parse (open_key prefix) (id w) (id w) stored ∙ here)
          (λ starts_closed. view-expire redis prefix parse (key prefix w) (id w) stored ∙ here))
