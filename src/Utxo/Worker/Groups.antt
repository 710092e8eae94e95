-- ===== src/Utxo/Worker/Groups.antt =====
-- The groups of byAccount.
use whm.Prelude.{◌≡◌, refl, sym, ap, ◌∙◌, inl, inr, arith}
use whm.Prelude.{true, false}
use whm.Prelude.{List, [], ◌∷◌, ◌++◌, append-nil, append_assoc}
use whm.Prelude.{if◌then◌else◌, Bool-cases}
use whm.Prelude.Text.{bytes_eq, bytes_eq_sound, bytes_eq_refl}
use whm.Utxo.Worker.{Text, Withdrawal, put, group, by_account}

-- The group of an account, and the records that are its.
unfoldable pub group_of : List (Text × List Withdrawal) → Text → List Withdrawal
group_of [] account = []
group_of ((a, ws) ∷ groups) account =
    let rest = group_of groups account in if bytes_eq a account then ws else rest

unfoldable pub records_of : List Withdrawal → Text → List Withdrawal
records_of [] account = []
records_of (w ∷ ws) account =
    let rest = records_of ws account in if bytes_eq w.account account then w ∷ rest else rest

unfoldable one_of : Withdrawal → Text → List Withdrawal
one_of w account = if bytes_eq w.account account then w ∷ [] else []

differ : (a b c : Text) → bytes_eq a b ≡ false → a ≡ c → bytes_eq b c ≡ false
differ a b c ne e = elim (Bool-cases (bytes_eq b c)) [
  | inl same ↦
      let f : a ≡ b = e ∙ sym (bytes_eq_sound b c same) in
      let k : bytes_eq a b ≡ true = ap (λ (x : Text). bytes_eq a x) (sym f) ∙ bytes_eq_refl a in
      absurd (cc)
  | inr other ↦ other
]

group_of-put :
    (groups : List (Text × List Withdrawal)) (w : Withdrawal) (account : Text)
    → group_of (put groups w) account ≡ group_of groups account ++ one_of w account
unfolding group_of put one_of
group_of-put [] w account = ground arith
group_of-put ((a, ws) ∷ groups) w account = elim (Bool-cases (bytes_eq a w.account)) [
  | inl same ↦
      let e = bytes_eq_sound a w.account same in
      elim (Bool-cases (bytes_eq a account)) [
        | inl its ↦
            let k : bytes_eq w.account account ≡ true = (rw e at its) in
            rw (same, group_of, its, k) refl
        | inr other ↦
            let k : bytes_eq w.account account ≡ false = (rw e at other) in
            rw (same, group_of, other, k) (sym (append-nil (group_of groups account)))
      ]
  | inr another ↦ elim (Bool-cases (bytes_eq a account)) [
    | inl its ↦
        let e = bytes_eq_sound a account its in
        let k : bytes_eq w.account account ≡ false = differ a w.account account another e in
        rw (another, group_of, its, k) (sym (append-nil ws))
    | inr other ↦ rw (another, group_of, other) (group_of-put groups w account)
  ]
]

one_and_more :
    (w : Withdrawal) (ws : List Withdrawal) (account : Text)
    → one_of w account ++ records_of ws account ≡ records_of (w ∷ ws) account
unfolding one_of records_of
one_and_more w ws account = ground arith

group_of-group :
    (groups : List (Text × List Withdrawal)) (ws : List Withdrawal) (account : Text)
    → group_of (group groups ws) account ≡ group_of groups account ++ records_of ws account
unfolding group records_of
group_of-group groups [] account = sym (append-nil (group_of groups account))
group_of-group groups (w ∷ ws) account =
    group_of-group (put groups w) ws account
    ∙ (ap (λ (l : List Withdrawal). l ++ records_of ws account) (group_of-put groups w account)
        ∙ (append_assoc (group_of groups account) (one_of w account) (records_of ws account)
            ∙ ap (λ (l : List Withdrawal). group_of groups account ++ l)
                (one_and_more w ws account)))

-- The group under an account holds the open records of this account, all of them, each once, in the order of
-- the store.
pub group_of-by_account :
    (records : List Withdrawal) (account : Text)
    → group_of (by_account records) account ≡ records_of records account
unfolding group_of
group_of-by_account records account = group_of-group [] records account
