-- ===== src/Scan/Store/Stored.antt =====
-- agents/scan/src/db.ts, `insertEvents`: what is known under an event's key.
use whm.Prelude.{ℕ}
use whm.Prelude.{◌≡◌, refl, inl, inr, arith}
use whm.Prelude.{Bool, true, false, ◌||◌, Option}
use whm.Prelude.{List, [], ◌∷◌, ◌++◌}
use whm.Prelude.{◌==◌, if◌then◌else◌, ==_iff, Bool-cases}
use whm.Prelude.Text.{bytes_eq_refl}
use whm.Scan.Route.{Text, EventRow}
use whm.Scan.Store.{
  RawEvent, row_of, is_same, is_stored, filled, fill_extrinsic, Store, insert_event,
}

is_same-fill :
    (b : Bool) (x : RawEvent) (row : EventRow) (e : Option Text)
    → is_same x (if b then record row { extrinsic = e } else row) ≡ is_same x row
unfolding is_same
is_same-fill true x row e = refl
is_same-fill false x row e = refl

is_stored-fill_extrinsic :
    (x e : RawEvent) (rows : List EventRow) → is_stored (fill_extrinsic e rows) x ≡ is_stored rows x
unfolding is_stored fill_extrinsic
is_stored-fill_extrinsic x e [] = refl
is_stored-fill_extrinsic x e (row ∷ rows) =
    rw
      (
        is_same-fill (is_same e row) x row (filled row.extrinsic e.extrinsic),
        is_stored-fill_extrinsic x e rows,
      )
      refl

is_stored-append :
    (x : RawEvent) (rows more : List EventRow)
    → is_stored (rows ++ more) x ≡ (is_stored rows x || is_stored more x)
unfolding is_stored
is_stored-append x [] more = refl
is_stored-append x (row ∷ rows) more = ground (arith, is_stored-append x rows more)

is_same_self : (chain : Text) (seq : ℕ) (e : RawEvent) → is_same e (row_of chain seq e) ≡ true
unfolding is_same row_of
is_same_self chain seq e =
    let number : (e.log_index == e.log_index) ≡ true = (==_iff _ _).1 refl in
    rw (bytes_eq_refl e.tx_hash, number) refl

pub is_stored-insert_event :
    (chain : Text) (x e : RawEvent) (store : Store)
    → is_stored store.0 x ≡ true
    → is_stored (insert_event chain e store).0 x ≡ true
unfolding insert_event
is_stored-insert_event chain x e (rows, next) h = elim (Bool-cases (is_stored rows e)) [
  | inl old ↦ rw (old, is_stored-fill_extrinsic x e rows) h
  | inr new ↦ rw (new, is_stored-append x rows (row_of chain next e ∷ []), h) refl
]

pub is_stored-insert_event_self :
    (chain : Text) (e : RawEvent) (store : Store)
    → is_stored (insert_event chain e store).0 e ≡ true
unfolding insert_event
is_stored-insert_event_self chain e (rows, next) = elim (Bool-cases (is_stored rows e)) [
  | inl old ↦ rw (old, is_stored-fill_extrinsic e e rows) old
  | inr new ↦
      let here : is_stored (row_of chain next e ∷ []) e ≡ true =
        unfold is_stored in rw (is_same_self chain next e) refl in
      rw (new, is_stored-append e rows (row_of chain next e ∷ []), new, here) refl
]
