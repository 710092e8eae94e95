-- ===== src/Relayer/PsmRoutes/Example.antt =====
-- The corridor between Base and Hydration, with two made-up contracts.
use whm.Prelude.{◌≡◌, refl, ◌↔◌}
use whm.Prelude.{Bool, false}
use whm.Prelude.{[], ◌∷◌}
use whm.Prelude.{◌==◌}
use whm.Prelude.{length}
use whm.Prelude.Assoc.{get, put}
use whm.Prelude.Radix.{emit_digits}
use whm.Prelude.Text.{codes, bytes_eq, to_lower_case, to_string}
use whm.Relayer.PsmRoutes.{Text, PsmRoute, unknown_chain, served, refused, served_routes}
use whm.Relayer.PsmRoutes.{
  and_check, throw_if, is_known, validate_chain_id, is_blank, is_back, find_back, closes_with,
  check_each, assert_corridor_closure, source_key, is_taken, no_duplicates,
  assert_no_duplicate_sources, landing_on, is_found, returns, unless, then_check,
  validate_address_field, validate_route, routes_for,
}
use whm.Relayer.PsmRoutes.Served.{IsServed, served_routes_iff}

abbrev vault : Text
vault = codes "0xAa00000000000000000000000000000000000001"

abbrev vault_lower : Text
vault_lower = codes "0xaa00000000000000000000000000000000000001"

abbrev facilitator : Text
facilitator = codes "0xbb00000000000000000000000000000000000002"

abbrev mint : PsmRoute
mint = record {
  name = codes "mint";
  source_chain = 30;
  source_emitter = vault;
  destination_chain = 73;
  destination_contract = facilitator;
}

abbrev redeem : PsmRoute
redeem = record {
  name = codes "redeem";
  source_chain = 73;
  source_emitter = facilitator;
  destination_chain = 30;
  destination_contract = vault_lower;
}

abbrev is_address : Text → Bool
is_address a = length a == 42

abbrev is_zero : Text → Bool
is_zero a = false

served_routes_iff_example :
    (served_routes is_address is_zero 73 (mint ∷ redeem ∷ []) ≡ served (mint ∷ []))
    ↔ IsServed is_address is_zero 73 (mint ∷ redeem ∷ []) (mint ∷ [])
served_routes_iff_example =
    served_routes_iff is_address is_zero 73 (mint ∷ redeem ∷ []) (mint ∷ [])
      (unfold is_blank in (refl, (refl, tt)))

both_ways : served_routes is_address is_zero 73 (mint ∷ redeem ∷ []) ≡ served (mint ∷ [])
unfolding served_routes then_check routes_for unless and_check check_each validate_route
    validate_chain_id throw_if is_known validate_address_field is_blank assert_corridor_closure
    closes_with find_back is_back bytes_eq to_lower_case get put emit_digits to_string
    assert_no_duplicate_sources is_found is_taken landing_on no_duplicates returns source_key
both_ways = refl

-- A typo in the chain of a row that is not served is found.
typo :
    served_routes is_address is_zero 73 (mint ∷ record redeem { destination_chain = 3 } ∷ [])
    ≡ refused unknown_chain
unfolding served_routes then_check routes_for unless and_check check_each validate_route
    validate_chain_id throw_if is_known validate_address_field is_blank
typo = refl
