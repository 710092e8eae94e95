-- ===== src/Scan/Drain/Example.antt =====
-- A store of three events, the second of which cannot be decoded, and instances of the theorems at it.
use whm.Prelude.{ℕ, ◌%◌, ◌<◌, String}
use whm.Prelude.{◌≡◌, refl, arith}
use whm.Prelude.{Bool, false, Option, none, some}
use whm.Prelude.{List, [], ◌∷◌}
use whm.Prelude.{◌==◌, if◌then◌else◌}
use whm.Prelude.{length}
use whm.Prelude.Text.{codes}
use whm.Scan.Route.{EventRow, Leg, Flow, Watch, routes_of, get, or_empty, route_key}
use whm.Scan.Route.Once.{Distinct, routes_of-Distinct}
use whm.Scan.Drain.{Db, after, last_seq, drain_chain}
use whm.Scan.Drain.Progress.{Rising, Outcome, drain_chain-Outcome}
use whm.Scan.Drain.Complete.{drain_chain-last_seq}

abbrev leg : Leg String
leg = record {
  id = 0;
  role = codes "gate";
  chains = none;
  topic0 = codes "0x01";
  state = "sent";
  key_by = none;
  key = λ args ev tables. some (some args);
  patch = λ args ev. some args ∷ [];
}

abbrev flow : Flow String
flow = record { name = "transfers"; states = ("sent", 0) ∷ []; legs = leg ∷ [] }

abbrev watch : Watch
watch = record { chain = codes "base"; role = codes "gate"; at = codes "0xaa" ∷ [] }

abbrev event : ℕ → EventRow
event n = record {
  seq = n;
  chain = codes "base";
  tx_hash = codes "0x07";
  log_index = n;
  address = codes "0xAA";
  block_number = codes "9";
  block_timestamp = 0;
  topics = codes "0x01" ∷ [];
  payload = [];
  sender = none;
  extrinsic = none;
}

-- An event of an even sequence is poison.
abbrev decode : Leg String → EventRow → Option (String × String)
decode l row = if row.seq % 2 == 0 then none else some ("Sent", "k")

abbrev events : List EventRow
events = event 3 ∷ event 4 ∷ event 7 ∷ []

abbrev empty : Db
empty = record { tables = λ name. []; reader = 0; dead = [] }

abbrev sound : ℕ → Bool
sound moment = false

events-Rising : Rising 0 events
unfolding Rising
events-Rising = (omega arith, (omega arith, (omega arith, tt)))

drain_chain-Outcome_example :
    Outcome decode
      (routes_of (flow ∷ []) (watch ∷ []))
      sound
      empty
      (after 0 events)
      (drain_chain decode (routes_of (flow ∷ []) (watch ∷ [])) sound events 4 0 empty)
drain_chain-Outcome_example =
    drain_chain-Outcome decode (routes_of (flow ∷ []) (watch ∷ [])) sound events 0 events-Rising 4 0
      empty

few : length (after 0 events) < 4
unfolding after
few = omega arith

drain_chain-last_seq_example :
    (drain_chain decode (routes_of (flow ∷ []) (watch ∷ [])) sound events 4 0 empty).0.reader
    ≡ last_seq 0 (after 0 events)
drain_chain-last_seq_example =
    drain_chain-last_seq decode (routes_of (flow ∷ []) (watch ∷ [])) sound (λ moment. refl) events 0
      events-Rising 4 0 empty few

routes_of-Distinct_example : Distinct (
    or_empty (
      get
        (routes_of (flow ∷ []) (watch ∷ watch ∷ []))
        (route_key (codes "base") (codes "0xaa") (codes "0x01"))))
routes_of-Distinct_example =
    routes_of-Distinct (flow ∷ []) (watch ∷ watch ∷ [])
      (route_key (codes "base") (codes "0xaa") (codes "0x01"))
