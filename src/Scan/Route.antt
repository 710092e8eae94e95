-- ===== src/Scan/Route.antt =====
-- agents/scan/src/types.ts and the constructor of `Drain` in flow/drain.ts: which legs claim the events of
-- which contract. A leg's identity is its number, and its `topic0` what `legTopic` gives.
pub mod Once
use whm.Prelude.{ℕ, zero, suc, ◌+◌, ◌-◌, ◌*◌, ◌/◌, ◌%◌, ◌^◌, ◌≤◌, ◌<◌, min, String}
use whm.Prelude.{◌≡◌, refl, sym, ap, ◌∙◌, ◌≢◌, ◌↔◌, ◌⊎◌, inl, inr, arith}
use whm.Prelude.{Bool, true, false, not, ◌&&◌, ◌||◌, Option, none, some}
use whm.Prelude.{List, [], ◌∷◌, ◌++◌, map, append-nil, append_assoc}
use whm.Prelude.{ltb, leb, ◌==◌, if◌then◌else◌, ltb→lt, lt→ltb, ==_iff, Bool-cases, Option-cases}
use whm.Prelude.{length, get_elem?, take, drop, replicate, All, All-append}
use whm.Prelude.{length-append, take-append-drop, length-take, length-drop, length-replicate}
use whm.Prelude.{take-append, drop-append}
use whm.Prelude.{str_eq, eq_iff, eq_refl}
use whm.Prelude.Text.{bytes_eq, to_lower_case}
use whm.Scan.Upsert.{Cell, Table}

abbrev pub Text : Type 0
Text = List ℕ

abbrev pub Tables : Type 0
Tables = String → Table

-- One stored event.
pub record EventRow : Type 0 where
  pub seq : ℕ
  pub chain : Text
  pub tx_hash : Text
  pub log_index : ℕ
  pub address : Text
  pub block_number : Text
  pub block_timestamp : ℕ
  pub topics : List Text
  pub payload : Text
  pub sender : Option Text
  pub extrinsic : Option Text

pub record EventRef : Type 0 where
  pub chain : Text
  pub block_number : Text
  pub block_timestamp : ℕ
  pub tx_hash : Text
  pub log_index : ℕ
  pub extrinsic : Option Text

-- A decoded log; its arguments are handed over beside it.
pub record LogEvent : Type 0 where
  pub chain : Text
  pub role : Text
  pub address : Text
  pub ref : EventRef
  pub sender : Option Text
  pub event_name : String

pub record Leg (A : Type 0) : Type 0 where
  pub id : ℕ
  pub role : Text
  pub chains : Option (List Text)
  pub topic0 : Text
  pub state : String
  pub key_by : Option ℕ
  -- The outer `none` is a throw, the inner one the null of an event that is not ours.
  pub key : A → LogEvent → Tables → Option (Option String)
  pub patch : A → LogEvent → List Cell

pub record Flow (A : Type 0) : Type 0 where
  pub name : String
  pub states : List (String × ℕ)
  pub legs : List (Leg A)

pub record Watch : Type 0 where
  pub chain : Text
  pub role : Text
  pub at : List Text

-- The event that a leg is given.
unfoldable pub log_event : {A : Type 0} → Leg A → EventRow → String → LogEvent
log_event leg row event_name = record {
  chain = row.chain;
  role = leg.role;
  address = row.address;
  ref = record {
    chain = row.chain;
    block_number = row.block_number;
    block_timestamp = row.block_timestamp;
    tx_hash = row.tx_hash;
    log_index = row.log_index;
    extrinsic = row.extrinsic;
  };
  sender = row.sender;
  event_name = event_name;
}

unfoldable pub route_key : Text → Text → Text → Text
route_key chain address topic0 =
    chain ++ b':' ∷ (to_lower_case address ++ b':' ∷ to_lower_case topic0)

unfoldable pub includes : List Text → Text → Bool
includes [] t = false
includes (x ∷ xs) t = bytes_eq x t || includes xs t

abbrev pub Route : Type 0 → Type 0
Route A = Flow A × Leg A

-- `Map<string, Route[]>`
abbrev pub RouteTable : Type 0 → Type 0
RouteTable A = List (Text × List (Route A))

unfoldable pub or_empty {ℓ} : {X : Type ℓ} → Option (List X) → List X
or_empty none = []
or_empty (some xs) = xs

module _ {A : Type 0} where
  -- `routes.get(key)`
  unfoldable pub get : RouteTable A → Text → Option (List (Route A))
  get [] key = none
  get ((k, rs) ∷ table) key = let rest = get table key in if bytes_eq k key then some rs else rest

  unfoldable pub put : RouteTable A → Text → List (Route A) → RouteTable A
  put [] key rs = (key, rs) ∷ []
  put ((k, qs) ∷ table) key rs =
      let rest = put table key rs in if bytes_eq k key then (k, rs) ∷ table else (k, qs) ∷ rest

  unfoldable pub has_leg : List (Route A) → Leg A → Bool
  has_leg [] leg = false
  has_leg ((flow, x) ∷ rs) leg = (x.id == leg.id) || has_leg rs leg

  -- One address of a watch entry: the leg is added unless it is there.
  unfoldable pub add_route : Flow A → Leg A → Text → RouteTable A → RouteTable A
  unfolding or_empty
  add_route flow leg key table =
      let routes = or_empty (get table key) in
      if has_leg routes leg then table else put table key (routes ++ (flow, leg) ∷ [])

  -- `x.role === leg.role && (!leg.chains || leg.chains.includes(x.chain))`
  unfoldable pub is_on : Leg A → Watch → Bool
  is_on leg w =
      bytes_eq w.role leg.role && elim leg.chains [ none ↦ true | some cs ↦ includes cs w.chain ]

  unfoldable pub add_addresses : Flow A → Leg A → Text → List Text → RouteTable A → RouteTable A
  add_addresses flow leg chain [] table = table
  add_addresses flow leg chain (address ∷ more) table =
      add_addresses flow leg chain more
        (add_route flow leg (route_key chain address leg.topic0) table)

  unfoldable pub add_watches : Flow A → Leg A → List Watch → RouteTable A → RouteTable A
  add_watches flow leg [] table = table
  add_watches flow leg (w ∷ ws) table =
      add_watches flow leg ws
        (if is_on leg w then add_addresses flow leg w.chain w.at table else table)

  unfoldable pub add_legs : Flow A → List (Leg A) → List Watch → RouteTable A → RouteTable A
  add_legs flow [] watches table = table
  add_legs flow (leg ∷ legs) watches table =
      add_legs flow legs watches (add_watches flow leg watches table)

  unfoldable pub add_flows : List (Flow A) → List Watch → RouteTable A → RouteTable A
  add_flows [] watches table = table
  add_flows (flow ∷ flows) watches table =
      add_flows flows watches (add_legs flow flow.legs watches table)

  -- `this.routes`
  unfoldable pub routes_of : List (Flow A) → List Watch → RouteTable A
  routes_of flows watches = add_flows flows watches []
