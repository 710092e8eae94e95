-- ===== src/Relayer/PsmRoutes/Checks.antt =====
-- agents/relayer/src/apps/psm/routes.ts: when a check, and a check of each row, passes.
use whm.Prelude.{◌≡◌, refl, ◌↔◌}
use whm.Prelude.{Bool, true, false, not, Option, none, some}
use whm.Prelude.{List, [], ◌∷◌}
use whm.Prelude.{All}
use whm.Prelude.Text.{text_key}
use whm.Relayer.PsmRoutes.{PsmRoute, Reason, and_check, throw_if}
use whm.Relayer.PsmRoutes.{check_each}

pub and_check_iff : (a b : Option Reason) → (and_check a b ≡ none) ↔ ((a ≡ none) × (b ≡ none))
unfolding and_check
and_check_iff none b = (λ h. (refl, h), λ p. p.1)
and_check_iff (some r) b = (λ h. cc, λ p. cc)

pub throw_if_iff : (b : Bool) (r : Reason) → (throw_if b r ≡ none) ↔ (b ≡ false)
unfolding throw_if
throw_if_iff true r = (λ h. cc, λ h. cc)
throw_if_iff false r = (λ h. refl, λ h. refl)

pub throw_unless_iff : (b : Bool) (r : Reason) → (throw_if (not b) r ≡ none) ↔ (b ≡ true)
unfolding throw_if
throw_unless_iff true r = (λ h. refl, λ h. refl)
throw_unless_iff false r = (λ h. cc, λ h. cc)

pub check_each_iff :
    (P : PsmRoute → Type 0) (check : PsmRoute → Option Reason)
    → ((r : PsmRoute) → (check r ≡ none) ↔ P r)
    → (rs : List PsmRoute) → (check_each check rs ≡ none) ↔ All P rs
unfolding check_each
check_each_iff P check each [] = (λ h. tt, λ h. refl)
check_each_iff P check each (r ∷ rs) =
    let here = each r in
    let later = check_each_iff P check each rs in
    let both = and_check_iff (check r) (check_each check rs) in
    (λ h. (here.0 (both.0 h).0, later.0 (both.0 h).1), λ p. both.1 (here.1 p.0, later.1 p.1))
