-- ===== src/Scan/Route/Once.antt =====
-- How often a leg stands under one route.
use whm.Prelude.{◌≡◌, refl, inl, inr, arith}
use whm.Prelude.{false}
use whm.Prelude.{List, [], ◌∷◌, ◌++◌}
use whm.Prelude.{◌==◌, Bool-cases}
use whm.Prelude.{All}
use whm.Prelude.Text.{bytes_eq}
use whm.Scan.Route.{
  Text, Leg, Flow, Watch, Route, RouteTable, get, put, has_leg, or_empty, add_route, is_on,
  add_addresses, add_watches, add_legs, add_flows, routes_of, route_key,
}

module _ {A : Type 0} where
  -- Each leg of a list is in it once.
  unfoldable pub Distinct : List (Route A) → Type 0
  Distinct [] = Unit
  Distinct ((flow, leg) ∷ rs) = (has_leg rs leg ≡ false) × Distinct rs

  abbrev AllDistinct : RouteTable A → Type 0
  AllDistinct table = All (λ e. Distinct e.1) table

  has_leg-snoc :
      (rs : List (Route A)) (flow : Flow A) (leg other : Leg A)
      → has_leg rs other ≡ false
      → (leg.id == other.id) ≡ false
      → has_leg (rs ++ (flow, leg) ∷ []) other ≡ false
  unfolding has_leg
  has_leg-snoc [] flow leg other h ne = ground arith
  has_leg-snoc ((f, x) ∷ rs) flow leg other h ne =
      let rest = has_leg-snoc rs flow leg other in ground (arith, rest)

  Distinct-snoc :
      (rs : List (Route A)) (flow : Flow A) (leg : Leg A)
      → has_leg rs leg ≡ false
      → Distinct rs
      → Distinct (rs ++ (flow, leg) ∷ [])
  unfolding Distinct has_leg
  Distinct-snoc [] flow leg h d = (refl, tt)
  Distinct-snoc ((f, x) ∷ rs) flow leg h (fresh, d) =
      (has_leg-snoc rs flow leg x fresh (ground arith), Distinct-snoc rs flow leg (ground arith) d)

  put-AllDistinct :
      (table : RouteTable A) (key : Text) (rs : List (Route A))
      → AllDistinct table
      → Distinct rs
      → AllDistinct (put table key rs)
  unfolding put
  put-AllDistinct [] key rs h d = (d, tt)
  put-AllDistinct ((k, qs) ∷ table) key rs (h, hs) d = elim (Bool-cases (bytes_eq k key)) [
    | inl same ↦ rw same (d, hs)
    | inr another ↦ rw another (h, put-AllDistinct table key rs hs d)
  ]

  get-Distinct :
      (table : RouteTable A) (key : Text) → AllDistinct table → Distinct (or_empty (get table key))
  unfolding get or_empty Distinct
  get-Distinct [] key h = tt
  get-Distinct ((k, qs) ∷ table) key (h, hs) = elim (Bool-cases (bytes_eq k key)) [
    | inl same ↦ rw same h
    | inr another ↦ rw another (get-Distinct table key hs)
  ]

  module _ (flow : Flow A) (leg : Leg A) where
    add_route-AllDistinct :
        (key : Text) (table : RouteTable A)
        → AllDistinct table
        → AllDistinct (add_route flow leg key table)
    unfolding add_route
    add_route-AllDistinct key table h =
        let routes = or_empty (get table key) in
        elim (Bool-cases (has_leg routes leg)) [
          | inl there ↦ rw there h
          | inr fresh ↦ rw fresh (
              put-AllDistinct table key (routes ++ (flow, leg) ∷ []) h
                (Distinct-snoc routes flow leg fresh (get-Distinct table key h)))
        ]

    add_addresses-AllDistinct :
        (chain : Text) (addresses : List Text) (table : RouteTable A)
        → AllDistinct table
        → AllDistinct (add_addresses flow leg chain addresses table)
    unfolding add_addresses
    add_addresses-AllDistinct chain [] table h = h
    add_addresses-AllDistinct chain (a ∷ more) table h =
        add_addresses-AllDistinct chain more _
          (add_route-AllDistinct (route_key chain a leg.topic0) table h)

    add_watches-AllDistinct :
        (ws : List Watch) (table : RouteTable A)
        → AllDistinct table
        → AllDistinct (add_watches flow leg ws table)
    unfolding add_watches
    add_watches-AllDistinct [] table h = h
    add_watches-AllDistinct (w ∷ ws) table h = elim (Bool-cases (is_on leg w)) [
      | inl on ↦
          rw on (add_watches-AllDistinct ws _ (add_addresses-AllDistinct w.chain w.at table h))
      | inr off ↦ rw off (add_watches-AllDistinct ws table h)
    ]

  add_legs-AllDistinct :
      (flow : Flow A) (legs : List (Leg A)) (ws : List Watch) (table : RouteTable A)
      → AllDistinct table
      → AllDistinct (add_legs flow legs ws table)
  unfolding add_legs
  add_legs-AllDistinct flow [] ws table h = h
  add_legs-AllDistinct flow (leg ∷ legs) ws table h =
      add_legs-AllDistinct flow legs ws _ (add_watches-AllDistinct flow leg ws table h)

  add_flows-AllDistinct :
      (flows : List (Flow A)) (ws : List Watch) (table : RouteTable A)
      → AllDistinct table
      → AllDistinct (add_flows flows ws table)
  unfolding add_flows
  add_flows-AllDistinct [] ws table h = h
  add_flows-AllDistinct (flow ∷ flows) ws table h =
      add_flows-AllDistinct flows ws _ (add_legs-AllDistinct flow flow.legs ws table h)

  -- Whatever the flows and the watch entries: under the key of any event, each leg stands at most once, also
  -- where several entries name the same contract under its role.
  pub routes_of-Distinct :
      (flows : List (Flow A)) (watches : List Watch) (key : Text)
      → Distinct (or_empty (get (routes_of flows watches) key))
  unfolding routes_of
  routes_of-Distinct flows watches key =
      get-Distinct (routes_of flows watches) key (add_flows-AllDistinct flows watches [] tt)
