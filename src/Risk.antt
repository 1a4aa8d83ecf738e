-- ===== src/Risk.antt =====
-- src/risk_manager.cpp, `RiskManager`: the checks before an order reaches its matching engine. The hash
-- maps are lists of entries. A collar percentage is the word that the code converts its floating-point
-- value to. Checks has the state and the checks. The worker thread, logs and published statistics are
-- left out.
pub mod Tables
pub mod Checks
pub mod Rate
pub mod Outcomes
use rtes.Prelude.{
  ℕ, zero, suc, ◌+◌, Bool, true, false, List, [], ◌∷◌, Option, none, some, ltb, ◌==◌, ◌&&◌, ◌||◌,
  not, if◌then◌else◌, add64, contains,
}
use rtes.Types.FixedString.{FixedString}
use rtes.Queue.{push, pop}
use rtes.Requests
use rtes.Requests.{Engine}
use rtes.Book.Lookup.{lookup, erase_key}
unfoldable pub use Checks.*
use Tables.{find_in, assign_in}

-- The end of `process_new_order`: the client is charged, the order sent to the engine of its symbol,
-- and the charge taken back where that fails.
unfoldable pub route : RiskManager → ℕ → ClientRiskState → RiskManager
route m order client =
    let o = m.mem order in
    elim (find_in symbol_width o.symbol m.matching_engines) [
      | none ↦ reject_order (roll_back m order client) order
      | some engine ↦
          let sent = Requests.submit_order engine (some order) in
          let engines = assign_in symbol_width o.symbol (sent.1) m.matching_engines in
          if sent.0
          then approve (with_engines (track m order client) engines) order
          else reject_order (with_engines (roll_back m order client) engines) order
    ]

-- `process_new_order` behind the symbol and the size check.
unfoldable pub screen : RiskManager → ℕ → ℕ → RiskManager
screen m order collar_pct =
    let o = m.mem order in
    let known = get_or_create_client m o.client_id in
    let checked = check_rate_limit m.max_orders_per_second (m.clock known.1.ticks) (known.0) in
    let m' = record (write_client (known.1) o.client_id (checked.1)) {
      ticks = suc known.1.ticks;
    } in
    if not checked.0
    then reject_order m' order
    else if contains o.id checked.1.active_orders
    then reject_order m' order
    else if m.price_collar_enabled && not (check_price_collar m.reference_prices o collar_pct)
    then reject_order m' order
    else if ltb m.max_notional_scaled
        (add64 checked.1.notional_exposure_scaled (calculate_notional o))
    then reject_order m' order
    else route m' order (checked.1)

abbrev count_rejection : RiskManager → RiskManager
count_rejection m = record m {
  stats = record (m.stats) { rejected_count = add64 m.stats.rejected_count 1 };
}

-- `process_new_order`: the order is a pointer, `none` the null pointer.
unfoldable pub process_new_order : RiskManager → Option ℕ → RiskManager
process_new_order m none = count_rejection m
process_new_order m (some order) =
    let o = m.mem order in
    elim (find_in symbol_width o.symbol m.symbol_configs) [
      | none ↦ reject_order m order
      | some collar_pct ↦
          if (o.quantity == 0) || ltb m.max_order_size o.quantity
          then reject_order m order
          else screen m order collar_pct
    ]

abbrev pub count_refused_cancel : RiskManager → RiskManager
count_refused_cancel m = record m {
  stats = record (m.stats) { cancels_rejected = add64 m.stats.cancels_rejected 1 };
}

-- The cancel goes to the engine of the order's symbol, whose answer is not looked at.
unfoldable pub route_cancel : RiskManager → ℕ → FixedString → RiskManager
route_cancel m order_id client_id = elim (lookup order_id m.order_symbol_index) [
  | none ↦ m
  | some symbol ↦ record m {
    order_symbol_index = erase_key order_id m.order_symbol_index;
    matching_engines = elim (find_in symbol_width symbol m.matching_engines) [
      | none ↦ m.matching_engines
      | some engine ↦
          assign_in symbol_width symbol (Requests.cancel_order engine order_id client_id).1
            m.matching_engines
    ];
  }
]

-- The cancel of an order that the client has.
unfoldable pub accept_cancel : RiskManager → ℕ → FixedString → ClientRiskState → RiskManager
accept_cancel m order_id client_id client =
    record (write_client (route_cancel m order_id client_id) client_id
      (record client { active_orders = without order_id client.active_orders })) {
        stats = record (m.stats) { cancels_accepted = add64 m.stats.cancels_accepted 1 };
      }

-- `process_cancel`
unfoldable pub process_cancel : RiskManager → ℕ → FixedString → RiskManager
process_cancel m order_id client_id = elim (find_in client_width client_id m.client_states) [
  | none ↦ count_refused_cancel m
  | some client ↦
      if contains order_id client.active_orders
      then accept_cancel m order_id client_id client
      else count_refused_cancel m
]

unfoldable pub process : RiskManager → RiskRequest → RiskManager
process m (new_order order) = process_new_order m order
process m (cancel_order order_id client_id) = process_cancel m order_id client_id

-- `RISK_BATCH_SIZE`
abbrev pub risk_batch_size : ℕ
risk_batch_size = 128

-- The loop of `drain_batch`, with what the batch still has room for.
unfoldable pub drain : ℕ → RiskManager → ℕ × RiskManager
drain zero m = (0, m)
drain (suc room) m =
    let popped = pop m.input_queue in
    let m' = record m { input_queue = popped.1 } in
    elim (popped.0) [
      | none ↦ (0, m')
      | some request ↦ let rest = drain room (process m' request) in (suc rest.0, rest.1)
    ]

-- `drain_batch`
unfoldable pub drain_batch : RiskManager → ℕ × RiskManager
drain_batch m =
    let drained = drain risk_batch_size m in
    (
      drained.0,
      record (drained.1) {
        stats = record (drained.1.stats) { processed = add64 drained.1.stats.processed drained.0 };
      },
    )

-- `submit_order` and `submit_cancel`, called by the gateway
unfoldable pub submit_order : RiskManager → Option ℕ → Bool × RiskManager
submit_order m none = (false, m)
submit_order m (some order) =
    let pushed = push m.input_queue (new_order (some order)) in
    (pushed.0, record m { input_queue = pushed.1 })

unfoldable pub submit_cancel : RiskManager → ℕ → FixedString → Bool × RiskManager
submit_cancel m order_id client_id =
    let pushed = push m.input_queue (cancel_order order_id client_id) in
    (pushed.0, record m { input_queue = pushed.1 })

-- `update_reference_price`
unfoldable pub update_reference_price : RiskManager → FixedString → ℕ → RiskManager
update_reference_price m symbol price = record m {
  reference_prices = assign_in symbol_width symbol price m.reference_prices;
}

-- `add_matching_engine`
unfoldable pub add_matching_engine : RiskManager → FixedString → Engine → RiskManager
add_matching_engine m symbol engine = record m {
  matching_engines = assign_in symbol_width symbol engine m.matching_engines;
}
