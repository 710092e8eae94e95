-- ===== src/Relayer/PsmRoutes/Served.antt =====
-- agents/relayer/src/apps/psm/routes.ts: the tables that a process serves.
use whm.Prelude.{ℕ}
use whm.Prelude.{◌≡◌, refl, sym, ap, ◌∙◌, ◌≢◌, ◌↔◌, arith}
use whm.Prelude.{Bool, true, false, not, Option, none, some}
use whm.Prelude.{List, []}
use whm.Prelude.{◌==◌}
use whm.Prelude.{All}
use whm.Prelude.Text.{bytes_eq, bytes_eq_sound, bytes_eq_iff, to_lower_case, text_key}
use whm.Relayer.PsmRoutes.{
  Text, PsmRoute, Reason, not_closed, no_return, unknown_chain, same_chain, blank_address,
  malformed_address, zero_address, throw_if, known_chains, is_known, validate_chain_id, is_blank,
}
use whm.Relayer.PsmRoutes.{
  find_back, closes_with, check_each, assert_corridor_closure, no_duplicates,
  assert_no_duplicate_sources,
}
use whm.Relayer.PsmRoutes.{
  landing_on, is_found, returns, Routes, served, refused, unless, then_check,
  validate_address_field, validate_route, routes_for, served_routes,
}
use whm.Relayer.PsmRoutes.Checks.{and_check_iff, throw_if_iff, throw_unless_iff, check_each_iff}
use whm.Relayer.PsmRoutes.Sources.{
  AreApart, AreNamed, no_duplicates_iff, nothing_taken, landing_on-AreNamed,
}

-- Its contract is the emitter of the first route that runs back.
abbrev pub Closes : List PsmRoute → PsmRoute → Type 0
Closes table a =
    (b : PsmRoute)
    → find_back a table ≡ some b
    → to_lower_case a.destination_contract ≡ to_lower_case b.source_emitter

closes_with_iff :
    (a : PsmRoute) (o : Option PsmRoute)
    → (closes_with a o ≡ none) ↔ (
        (b : PsmRoute)
        → o ≡ some b
        → to_lower_case a.destination_contract ≡ to_lower_case b.source_emitter)
unfolding closes_with
closes_with_iff a none = (λ h b e. cc, λ h. refl)
closes_with_iff a (some c) =
    let address = to_lower_case a.destination_contract in
    let test = throw_unless_iff (bytes_eq address (to_lower_case c.source_emitter)) not_closed in
    (
      λ h b e.
          let which : c ≡ b = cc in
          bytes_eq_sound address (to_lower_case c.source_emitter) (test.0 h)
          ∙ ap (λ (r : PsmRoute). to_lower_case r.source_emitter) which,
      λ all. test.1 ((bytes_eq_iff address (to_lower_case c.source_emitter)).1 (all c refl)),
    )

returns_iff :
    (table : List PsmRoute) (r : PsmRoute)
    → (returns table r ≡ none) ↔ (is_found (find_back r table) ≡ true)
unfolding returns
returns_iff table r = throw_unless_iff (is_found (find_back r table)) no_return

module _ (is_address is_zero_address : Text → Bool) where
  pub record IsRoute (r : PsmRoute) : Type 0 where
    pub source_known : is_known r.source_chain known_chains ≡ true
    pub destination_known : is_known r.destination_chain known_chains ≡ true
    pub crosses : r.source_chain ≢ r.destination_chain
    pub emitter_set : is_blank r.source_emitter ≡ false
    pub emitter_valid : is_address r.source_emitter ≡ true
    pub emitter_nonzero : is_zero_address r.source_emitter ≡ false
    pub contract_set : is_blank r.destination_contract ≡ false
    pub contract_valid : is_address r.destination_contract ≡ true
    pub contract_nonzero : is_zero_address r.destination_contract ≡ false

  address_field_iff :
      (v : Text)
      → (validate_address_field is_address is_zero_address v ≡ none)
        ↔ ((is_blank v ≡ false) × (is_address v ≡ true) × (is_zero_address v ≡ false))
  unfolding validate_address_field
  address_field_iff v =
      let blank = throw_if_iff (is_blank v) blank_address in
      let valid = throw_unless_iff (is_address v) malformed_address in
      let zeros = throw_if_iff (is_zero_address v) zero_address in
      let outer = and_check_iff (throw_if (is_blank v) blank_address) _ in
      let inner =
        and_check_iff (throw_if (not (is_address v)) malformed_address)
          (throw_if (is_zero_address v) zero_address) in
      (
        λ h.
            let (a, rest) = outer.0 h in
            let (b, c) = inner.0 rest in (blank.0 a, valid.0 b, zeros.0 c),
        λ p. outer.1 (blank.1 p.0, inner.1 (valid.1 p.1, zeros.1 p.2)),
      )

  same_iff : (a b : ℕ) → ((a == b) ≡ false) ↔ (a ≢ b)
  same_iff a b = (λ h. ground arith, λ h. ground arith)

  validate_route_iff :
      (r : PsmRoute) → (validate_route is_address is_zero_address r ≡ none) ↔ IsRoute r
  unfolding validate_route validate_chain_id
  validate_route_iff r =
      let source = throw_unless_iff (is_known r.source_chain known_chains) unknown_chain in
      let destination =
        throw_unless_iff (is_known r.destination_chain known_chains) unknown_chain in
      let crossing = throw_if_iff (r.source_chain == r.destination_chain) same_chain in
      let apart = same_iff r.source_chain r.destination_chain in
      let emitter = address_field_iff r.source_emitter in
      let contract = address_field_iff r.destination_contract in
      let first =
        and_check_iff (throw_if (not (is_known r.source_chain known_chains)) unknown_chain) _ in
      let second =
        and_check_iff (throw_if (not (is_known r.destination_chain known_chains)) unknown_chain)
          _ in
      let third = and_check_iff (throw_if (r.source_chain == r.destination_chain) same_chain) _ in
      let fourth =
        and_check_iff (validate_address_field is_address is_zero_address r.source_emitter)
          (validate_address_field is_address is_zero_address r.destination_contract) in
      (
        λ h.
            let (a, h1) = first.0 h in
            let (b, h2) = second.0 h1 in
            let (c, h3) = third.0 h2 in
            let (d, e) = fourth.0 h3 in
            let (d0, d1, d2) = emitter.0 d in
            let (e0, e1, e2) = contract.0 e in
            record {
              source_known = source.0 a;
              destination_known = destination.0 b;
              crosses = apart.0 (crossing.0 c);
              emitter_set = d0;
              emitter_valid = d1;
              emitter_nonzero = d2;
              contract_set = e0;
              contract_valid = e1;
              contract_nonzero = e2;
            },
        λ v. first.1 (
          source.1 v.source_known,
          second.1 (
            destination.1 v.destination_known,
            third.1 (
              crossing.1 (apart.1 v.crosses),
              fourth.1 (
                emitter.1 (v.emitter_set, v.emitter_valid, v.emitter_nonzero),
                contract.1 (v.contract_set, v.contract_valid, v.contract_nonzero),
              ),
            ),
          ),
        ),
      )

  -- The table passes every check, and the routes that land on the chain have sources of their own and return routes.
  pub record IsServed (chain : ℕ) (table routes : List PsmRoute) : Type 0 where
    pub each_valid : All IsRoute table
    pub closed : All (Closes table) table
    pub landing : routes ≡ landing_on chain table
    pub apart : AreApart routes
    pub returned : All (λ r. is_found (find_back r table) ≡ true) routes

  unless_iff :
      (o : Option Reason) (rs routes : List PsmRoute)
      → (unless o rs ≡ served routes) ↔ ((o ≡ none) × (routes ≡ rs))
  unfolding unless
  unless_iff none rs routes = (λ h. (refl, cc), λ p. ap served (sym p.1))
  unless_iff (some r) rs routes = (λ h. cc, λ p. cc)

  then_check_iff :
      (r : Routes) (check : List PsmRoute → Option Reason) (routes : List PsmRoute)
      → (then_check r check ≡ served routes) ↔ ((r ≡ served routes) × (check routes ≡ none))
  unfolding then_check
  then_check_iff (refused reason) check routes = (λ h. cc, λ p. cc)
  then_check_iff (served rs) check routes =
      let test = unless_iff (check rs) rs routes in
      (
        λ h. let same = (test.0 h).1 in (ap served (sym same), ap check same ∙ (test.0 h).0),
        λ p. let same : rs ≡ routes = let e = p.0 in cc in test.1 (ap check same ∙ p.1, sym same),
      )

  -- Where every route of the table has a name: a process serves some routes for a chain exactly when all routes of the table
  -- have known, different chains and valid addresses that are not zero, each route's contract is the
  -- emitter of the first route that runs back, and the served routes are those of the table that land on
  -- the chain, no two of them with the same source, and each with a route that runs back.
  pub served_routes_iff :
      (chain : ℕ) (table routes : List PsmRoute)
      → AreNamed table
      → (served_routes is_address is_zero_address chain table ≡ served routes)
        ↔ IsServed chain table routes
  unfolding served_routes routes_for assert_corridor_closure assert_no_duplicate_sources
  served_routes_iff chain table routes named =
      let landing = landing_on chain table in
      let valid = check_each_iff IsRoute _ validate_route_iff table in
      let closure =
        check_each_iff (Closes table) _ (λ a. closes_with_iff a (find_back a table)) table in
      let duplicates = no_duplicates_iff [] landing (landing_on-AreNamed chain table named) in
      let back =
        check_each_iff (λ r. is_found (find_back r table) ≡ true) (returns table)
          (returns_iff table) routes in
      let last =
        then_check_iff (routes_for is_address is_zero_address chain table)
          (check_each (returns table)) routes in
      let three = unless_iff _ landing routes in
      let outer = and_check_iff (check_each (validate_route is_address is_zero_address) table) _ in
      let inner =
        and_check_iff (check_each (λ a. closes_with a (find_back a table)) table)
          (no_duplicates [] landing) in
      (
        λ h.
            let (found, checked) = last.0 h in
            let (passed, same) = three.0 found in
            let (a, rest) = outer.0 passed in
            let (b, c) = inner.0 rest in
            record {
              each_valid = valid.0 a;
              closed = closure.0 b;
              landing = same;
              apart = rw same ((duplicates.0 c).1);
              returned = back.0 checked;
            },
        λ s. last.1 (
          three.1 (
            outer.1 (
              valid.1 s.each_valid,
              inner.1 (
                closure.1 s.closed,
                duplicates.1 (nothing_taken landing, (rw s.landing at s.apart)),
              ),
            ),
            s.landing,
          ),
          back.1 s.returned,
        ),
      )
