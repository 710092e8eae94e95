-- ===== src/Relayer/PsmRoutes.antt =====
-- agents/relayer/src/apps/psm/routes.ts: the checks of a table of routes. A check that throws gives its reason.
mod Checks
mod Sources
mod Served
mod Example
use whm.Prelude.{ℕ, zero, suc, ◌+◌, ◌-◌, ◌*◌, ◌/◌, ◌%◌, ◌^◌, ◌≤◌, ◌<◌, min, String}
use whm.Prelude.{◌≡◌, refl, sym, ap, ◌∙◌, ◌≢◌, ◌↔◌, ◌⊎◌, inl, inr, arith}
use whm.Prelude.{Bool, true, false, not, ◌&&◌, ◌||◌, Option, none, some}
use whm.Prelude.{List, [], ◌∷◌, ◌++◌, map, append-nil, append_assoc}
use whm.Prelude.{
  ltb, leb, ◌==◌, if◌then◌else◌, ltb→lt, lt→ltb, ==_iff, Bool-cases, Option-cases, if_elim,
}
use whm.Prelude.{length, get_elem?, take, drop, replicate, All, All-append}
use whm.Prelude.{length-append, take-append-drop, length-take, length-drop, length-replicate}
use whm.Prelude.{take-append, drop-append}
use whm.Prelude.{str_eq, eq_iff, eq_refl}
use whm.Prelude.Assoc.{get, put}
use whm.Prelude.Text.{bytes_eq, to_lower_case, to_string, text_key}

abbrev pub Text : Type 0
Text = List ℕ

pub record PsmRoute : Type 0 where
  pub name : Text
  pub source_chain : ℕ
  pub source_emitter : Text
  pub destination_chain : ℕ
  pub destination_contract : Text

pub data Reason : Type 0 where
  unknown_chain : Reason
  same_chain : Reason
  blank_address : Reason
  malformed_address : Reason
  zero_address : Reason
  not_closed : Reason
  duplicate_source : Reason
  no_return : Reason

-- `none` where a check passes; the first one that does not is the one that throws.
unfoldable pub and_check : Option Reason → Option Reason → Option Reason
and_check none next = next
and_check (some r) next = some r

unfoldable pub throw_if : Bool → Reason → Option Reason
throw_if true r = some r
throw_if false r = none

-- `WORMHOLE`
abbrev pub known_chains : List ℕ
known_chains = 1 ∷ 2 ∷ 15 ∷ 21 ∷ 30 ∷ 72 ∷ 73 ∷ []

unfoldable pub is_known : ℕ → List ℕ → Bool
is_known c [] = false
is_known c (k ∷ ks) = k == c || is_known c ks

unfoldable pub validate_chain_id : ℕ → Option Reason
validate_chain_id value = throw_if (not (is_known value known_chains)) unknown_chain

unfoldable pub is_blank : Text → Bool
is_blank [] = true
is_blank (c ∷ cs) = false

-- The find of a route's return route. A valid route is not its own, since its chains differ, so
-- that `r !== a` excludes nothing.
unfoldable pub is_back : PsmRoute → PsmRoute → Bool
is_back a r = r.source_chain == a.destination_chain && (r.destination_chain == a.source_chain)

unfoldable pub find_back : PsmRoute → List PsmRoute → Option PsmRoute
find_back a [] = none
find_back a (r ∷ rs) = let rest = find_back a rs in if is_back a r then some r else rest

unfoldable pub closes_with : PsmRoute → Option PsmRoute → Option Reason
closes_with a none = none
closes_with a (some b) =
    throw_if
      (not (bytes_eq (to_lower_case a.destination_contract) (to_lower_case b.source_emitter)))
      not_closed

unfoldable pub check_each : (PsmRoute → Option Reason) → List PsmRoute → Option Reason
check_each check [] = none
check_each check (r ∷ rs) = and_check (check r) (check_each check rs)

unfoldable pub assert_corridor_closure : List PsmRoute → Option Reason
assert_corridor_closure table = check_each (λ a. closes_with a (find_back a table)) table

unfoldable pub source_key : PsmRoute → Text
source_key r = to_string r.source_chain ++ (b':' ∷ to_lower_case r.source_emitter)

-- `if (existing)`: a name that is empty does not count.
unfoldable pub is_taken : Option Text → Bool
is_taken none = false
is_taken (some name) = not (is_blank name)

unfoldable pub no_duplicates : List (Text × Text) → List PsmRoute → Option Reason
no_duplicates seen [] = none
no_duplicates seen (r ∷ rs) =
    and_check (throw_if (is_taken (get (source_key r) seen)) duplicate_source)
      (no_duplicates (put (source_key r) r.name seen) rs)

unfoldable pub assert_no_duplicate_sources : List PsmRoute → Option Reason
assert_no_duplicate_sources routes = no_duplicates [] routes

-- `table.filter`
unfoldable pub landing_on : ℕ → List PsmRoute → List PsmRoute
landing_on chain [] = []
landing_on chain (r ∷ rs) =
    let rest = landing_on chain rs in if r.destination_chain == chain then r ∷ rest else rest

unfoldable pub is_found : Option PsmRoute → Bool
is_found none = false
is_found (some r) = true

unfoldable pub returns : List PsmRoute → PsmRoute → Option Reason
returns table r = throw_if (not (is_found (find_back r table))) no_return

pub data Routes : Type 0 where
  served : List PsmRoute → Routes
  refused : Reason → Routes

unfoldable pub unless : Option Reason → List PsmRoute → Routes
unless none rs = served rs
unless (some reason) rs = refused reason

unfoldable pub then_check : Routes → (List PsmRoute → Option Reason) → Routes
then_check (refused reason) check = refused reason
then_check (served rs) check = unless (check rs) rs

-- viem's tests of an address.
module _ (is_address : Text → Bool) (is_zero_address : Text → Bool) where
  unfoldable pub validate_address_field : Text → Option Reason
  validate_address_field value = and_check (throw_if (is_blank value) blank_address) (
      and_check (throw_if (not (is_address value)) malformed_address)
        (throw_if (is_zero_address value) zero_address))

  unfoldable pub validate_route : PsmRoute → Option Reason
  validate_route r = and_check (validate_chain_id r.source_chain) (
      and_check (validate_chain_id r.destination_chain) (
        and_check (throw_if (r.source_chain == r.destination_chain) same_chain) (
          and_check (validate_address_field r.source_emitter)
            (validate_address_field r.destination_contract))))

  unfoldable pub routes_for : ℕ → List PsmRoute → Routes
  routes_for chain table =
      unless
        (and_check (check_each validate_route table) (
          and_check (assert_corridor_closure table)
            (assert_no_duplicate_sources (landing_on chain table))))
        (landing_on chain table)

  unfoldable pub served_routes : ℕ → List PsmRoute → Routes
  served_routes chain table = then_check (routes_for chain table) (check_each (returns table))
