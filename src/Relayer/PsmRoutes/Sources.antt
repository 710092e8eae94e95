-- ===== src/Relayer/PsmRoutes/Sources.antt =====
-- agents/relayer/src/apps/psm/routes.ts, `assertNoDuplicateSources`: the map of the sources that were seen.
use whm.Prelude.{ℕ}
use whm.Prelude.{◌≡◌, refl, ◌≢◌, ◌↔◌, inl, inr}
use whm.Prelude.{false, none}
use whm.Prelude.{List, [], ◌∷◌}
use whm.Prelude.{◌==◌, Bool-cases, if_elim}
use whm.Prelude.{All}
use whm.Prelude.Assoc.{get, put, get-put}
use whm.Prelude.Text.{bytes_eq, bytes_eq_sound, bytes_eq_iff, text_key}
use whm.Relayer.PsmRoutes.{Text, PsmRoute, duplicate_source, throw_if, is_blank}
use whm.Relayer.PsmRoutes.{source_key, is_taken, no_duplicates}
use whm.Relayer.PsmRoutes.{landing_on}
use whm.Relayer.PsmRoutes.Checks.{and_check_iff, throw_if_iff}

-- No two routes have the same source.
abbrev pub AreApart : List PsmRoute → Type 0
AreApart [] = Unit
AreApart (r ∷ rs) = All (λ s. source_key r ≢ source_key s) rs × AreApart rs

abbrev pub Fresh : List (Text × Text) → List PsmRoute → Type 0
Fresh seen rs = All (λ r. is_taken (get (source_key r) seen) ≡ false) rs

is_taken-put :
    (r s : PsmRoute) (seen : List (Text × Text))
    → is_blank r.name ≡ false
    → (is_taken (get (source_key s) (put (source_key r) r.name seen)) ≡ false)
      ↔ ((is_taken (get (source_key s) seen) ≡ false) × (source_key r ≢ source_key s))
unfolding is_taken
is_taken-put r s seen named =
    let law = get-put (source_key s) (source_key r) r.name seen in
    elim (Bool-cases (bytes_eq (source_key r) (source_key s))) [
      | inl hit ↦
          rw (law, hit, named)
            (λ h. cc, λ p. absurd (p.1 (bytes_eq_sound (source_key r) (source_key s) hit)))
      | inr miss ↦
          rw (law, miss)
            (
              λ h. (h, λ e. let both = (bytes_eq_iff (source_key r) (source_key s)).1 e in cc),
              λ p. p.0,
            )
    ]

Fresh-put :
    (r : PsmRoute) (seen : List (Text × Text)) (rs : List PsmRoute)
    → is_blank r.name ≡ false
    → Fresh (put (source_key r) r.name seen) rs
      ↔ (Fresh seen rs × All (λ s. source_key r ≢ source_key s) rs)
Fresh-put r seen [] named = (λ _. (tt, tt), λ _. tt)
Fresh-put r seen (s ∷ rs) named =
    let here = is_taken-put r s seen named in
    let later = Fresh-put r seen rs named in
    (
      λ p. (((here.0 p.0).0, (later.0 p.1).0), ((here.0 p.0).1, (later.0 p.1).1)),
      λ p. (here.1 (p.0.0, p.1.0), later.1 (p.0.1, p.1.1)),
    )

abbrev pub AreNamed : List PsmRoute → Type 0
AreNamed rs = All (λ r. is_blank r.name ≡ false) rs

pub no_duplicates_iff :
    (seen : List (Text × Text)) (rs : List PsmRoute)
    → AreNamed rs
    → (no_duplicates seen rs ≡ none) ↔ (Fresh seen rs × AreApart rs)
unfolding no_duplicates
no_duplicates_iff seen [] _ = (λ _. (tt, tt), λ _. refl)
no_duplicates_iff seen (r ∷ rs) (named, names) =
    let here = throw_if_iff (is_taken (get (source_key r) seen)) duplicate_source in
    let next = put (source_key r) r.name seen in
    let later = no_duplicates_iff next rs names in
    let both =
      and_check_iff (throw_if (is_taken (get (source_key r) seen)) duplicate_source)
        (no_duplicates next rs) in
    let split = Fresh-put r seen rs named in
    (
      λ h.
          let (fresh, apart) = later.0 (both.0 h).1 in
          let (old, other) = split.0 fresh in ((here.0 (both.0 h).0, old), (other, apart)),
      λ p. both.1 (here.1 p.0.0, later.1 (split.1 (p.0.1, p.1.0), p.1.1)),
    )

pub nothing_taken : (rs : List PsmRoute) → Fresh [] rs
unfolding get is_taken
nothing_taken [] = tt
nothing_taken (r ∷ rs) = (refl, nothing_taken rs)

pub landing_on-AreNamed :
    (chain : ℕ) (rs : List PsmRoute) → AreNamed rs → AreNamed (landing_on chain rs)
unfolding landing_on
landing_on-AreNamed chain [] _ = tt
landing_on-AreNamed chain (r ∷ rs) (n, ns) =
    if_elim AreNamed (r.destination_chain == chain) _ _
      (λ here. (n, landing_on-AreNamed chain rs ns)) (λ away. landing_on-AreNamed chain rs ns)
