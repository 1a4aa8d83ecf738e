-- ===== src/Risk/Checks.antt =====
-- src/risk_manager.cpp, `RiskManager`: the state, the checks, and what is charged to a client.
use rtes.Prelude.{
  ℕ, suc, ◌*◌, Bool, true, false, List, [], ◌∷◌, Option, none, some, leb, ◌==◌, ◌&&◌, if◌then◌else◌,
  add64, sub64, mul64, add32,
}
use rtes.Types.FixedString.{FixedString}
use rtes.Types.Orders.{Order, rejected, accepted}
use rtes.Queue.{SpscQueue}
use rtes.Requests.{Engine}
use rtes.Book.Levels.{Memory}
use rtes.Book.Matching.{modify, set_status}
use rtes.Book.Lookup.{insert, erase_key}
use rtes.Risk.Tables.{find_in, assign_in}

-- `RiskRequest`: `none` is the null pointer.
pub data RiskRequest : Type 0 where
  new_order : Option ℕ → RiskRequest
  cancel_order : ℕ → FixedString → RiskRequest

pub record ClientRiskState : Type 0 where
  pub active_orders : List ℕ
  pub notional_exposure_scaled : ℕ
  pub orders_in_window : ℕ
  pub window_start_ns : ℕ

pub record LocalStats : Type 0 where
  pub processed : ℕ
  pub approved_count : ℕ
  pub rejected_count : ℕ
  pub cancels_accepted : ℕ
  pub cancels_rejected : ℕ

pub record RiskManager : Type 0 where
  pub max_order_size : ℕ
  pub max_orders_per_second : ℕ
  pub price_collar_enabled : Bool
  pub max_notional_scaled : ℕ
  pub symbol_configs : List (FixedString × ℕ)
  pub matching_engines : List (FixedString × Engine)
  pub reference_prices : List (FixedString × ℕ)
  pub client_states : List (FixedString × ClientRiskState)
  pub order_symbol_index : List (ℕ × FixedString)
  pub input_queue : SpscQueue RiskRequest
  pub stats : LocalStats
  pub mem : Memory
  -- the readings of the clock, and how many have been taken
  pub clock : ℕ → ℕ
  pub ticks : ℕ

-- `Symbol` and `ClientID`: keys of 8 and of 32 bytes
abbrev pub symbol_width : ℕ
symbol_width = 8

abbrev pub client_width : ℕ
client_width = 32

-- `reject_order`
unfoldable pub reject_order : RiskManager → ℕ → RiskManager
reject_order m order = record m {
  mem = modify m.mem order (set_status rejected);
  stats = record (m.stats) { rejected_count = add64 m.stats.rejected_count 1 };
}

-- A client that is seen for the first time; its window starts now.
abbrev pub new_client : ℕ → ClientRiskState
new_client now = record {
  active_orders = [];
  notional_exposure_scaled = 0;
  orders_in_window = 0;
  window_start_ns = now;
}

-- `get_or_create_client`: the client's state, and the manager in which it has one.
unfoldable pub get_or_create_client : RiskManager → FixedString → ClientRiskState × RiskManager
get_or_create_client m id = elim (find_in client_width id m.client_states) [
  | some client ↦ (client, m)
  | none ↦
      let client = new_client (m.clock m.ticks) in
      (
        client,
        record m {
          client_states = assign_in client_width id client m.client_states;
          ticks = suc m.ticks;
        },
      )
]

abbrev pub write_client : RiskManager → FixedString → ClientRiskState → RiskManager
write_client m id client = record m {
  client_states = assign_in client_width id client m.client_states;
}

-- `RATE_LIMIT_WINDOW_NS`
abbrev pub rate_limit_window_ns : ℕ
rate_limit_window_ns = 1000000000

-- `check_rate_limit` at the time `now`
unfoldable pub check_rate_limit : ℕ → ℕ → ClientRiskState → Bool × ClientRiskState
check_rate_limit limit now client =
    let c =
      if leb rate_limit_window_ns (sub64 now client.window_start_ns)
      then record client { orders_in_window = 0; window_start_ns = now }
      else client in
    if leb limit c.orders_in_window
    then (false, c)
    else (true, record c { orders_in_window = add32 c.orders_in_window 1 })

-- `check_price_collar_int`, with its 128-bit products; `100 - collar_pct` is a word.
unfoldable pub check_price_collar : List (FixedString × ℕ) → Order → ℕ → Bool
check_price_collar references order collar_pct =
    elim (find_in symbol_width order.symbol references) [
      | none ↦ true
      | some ref_price ↦
          if ref_price == 0
          then true
          else leb (ref_price * sub64 100 collar_pct) (order.price * 100)
            && leb (order.price * 100) (ref_price * add64 100 collar_pct)
    ]

-- `calculate_notional_int`
abbrev pub calculate_notional : Order → ℕ
calculate_notional order = mul64 order.price order.quantity

-- `active_orders.erase(id)`
abbrev pub without : ℕ → List ℕ → List ℕ
without id [] = []
without id (j ∷ js) = let rest = without id js in if j == id then rest else j ∷ rest

-- The state of a client whose order has passed the checks.
abbrev pub charge : ClientRiskState → ℕ → ℕ → ClientRiskState
charge client id notional = record client {
  active_orders = id ∷ client.active_orders;
  notional_exposure_scaled = add64 client.notional_exposure_scaled notional;
}

-- The rollback of `charge`.
abbrev pub refund : ClientRiskState → ℕ → ℕ → ClientRiskState
refund client id notional = record client {
  active_orders = without id client.active_orders;
  notional_exposure_scaled = sub64 client.notional_exposure_scaled notional;
}

-- The order is on the client's account.
unfoldable pub track : RiskManager → ℕ → ClientRiskState → RiskManager
track m order client =
    let o = m.mem order in
    record (write_client m o.client_id (charge client o.id (calculate_notional o))) {
      order_symbol_index = insert o.id o.symbol m.order_symbol_index;
    }

-- `track`, then the rollback that takes it back.
unfoldable pub roll_back : RiskManager → ℕ → ClientRiskState → RiskManager
unfolding track
roll_back m order client =
    let o = m.mem order in
    let notional = calculate_notional o in
    let tracked = track m order client in
    record (write_client tracked o.client_id (refund (charge client o.id notional) o.id notional)) {
      order_symbol_index = erase_key o.id tracked.order_symbol_index;
    }

-- The engine of the symbol has taken the order.
abbrev pub approve : RiskManager → ℕ → RiskManager
approve m order = record m {
  mem = modify m.mem order (set_status accepted);
  stats = record (m.stats) { approved_count = add64 m.stats.approved_count 1 };
}

abbrev pub with_engines : RiskManager → List (FixedString × Engine) → RiskManager
with_engines m engines = record m { matching_engines = engines }
