-- ===== src/Exchange.antt =====
-- src/exchange.cpp and include/rtes/exchange.hpp: the life cycle of the exchange. A call is the list of
-- the exchanges that another thread can see, one for each write, in the order of the writes; no write
-- gives the empty list. The threads that start and end with `running_`, the statistics and the logs are
-- left out.
pub mod Sound
pub mod Cycle
use rtes.Prelude.{
  ℕ, Bool, true, false, ◌&&◌, ◌||◌, List, [], ◌∷◌, ◌++◌, map, Option, none, some, if◌then◌else◌,
}
use rtes.Types.FixedString.{FixedString, of_c_string, eq}
use rtes.Validation.Configs.{SymbolConfig, Config}

-- `ExchangeState`
pub data ExchangeState : Type 0 where
  created starting running stopping stopped : ExchangeState

abbrev pub is_created : ExchangeState → Bool
is_created created = true
is_created _ = false

abbrev pub is_running : ExchangeState → Bool
is_running running = true
is_running _ = false

abbrev pub is_starting : ExchangeState → Bool
is_starting starting = true
is_starting _ = false

-- An entry of `matching_engines_`, with the engine's `running_`.
pub record EngineEntry : Type 0 where
  pub symbol : FixedString
  pub running : Bool

pub record Exchange : Type 0 where
  pub state : ExchangeState
  pub engines : List EngineEntry
  pub risk_running : Bool

-- `matching_engines_[symbol] = std::move(engine)`
pub put_engine : FixedString → List EngineEntry → List EngineEntry
put_engine symbol [] = record { symbol = symbol; running = false } ∷ []
put_engine symbol (x ∷ xs) =
    let rest = put_engine symbol xs in
    if eq 8 x.symbol symbol then record x { running = false } ∷ xs else x ∷ rest

-- The loop of `initialize_matching_engines`, over the engines so far.
unfoldable pub initialize_matching_engines :
    {D : Type 0} → List (SymbolConfig D) → List EngineEntry → List EngineEntry
initialize_matching_engines [] engines = engines
initialize_matching_engines (c ∷ cs) engines =
    initialize_matching_engines cs (put_engine (of_c_string 8 (some c.symbol)) engines)

-- The constructor; without a configuration it throws.
unfoldable pub new_exchange : {D : Type 0} → Option (Config D) → Option Exchange
new_exchange none = none
new_exchange (some config) = some (record {
  state = created;
  engines = initialize_matching_engines config.symbols [];
  risk_running = false;
})

-- `MatchingEngine::start` and `stop`, and `RiskManager::start` and `stop`, on `running_`: a second
-- call returns at once.
abbrev pub start_running : Bool → Bool
start_running false = true
start_running true = true

abbrev pub stop_running : Bool → Bool
stop_running true = false
stop_running false = false

-- The loop that starts or stops the engines one after the other: the engines after each round.
unfoldable pub each_engine : (Bool → Bool) → List EngineEntry → List (List EngineEntry)
each_engine f [] = []
each_engine f (x ∷ xs) =
    let y = record x { running = f x.running } in (y ∷ xs) ∷ map (λ ys. y ∷ ys) (each_engine f xs)

-- The engines when the loop is over.
unfoldable pub every_engine : (Bool → Bool) → List EngineEntry → List EngineEntry
every_engine f [] = []
every_engine f (x ∷ xs) = record x { running = f x.running } ∷ every_engine f xs

abbrev pub rounds_of : Exchange → List (List EngineEntry) → List Exchange
rounds_of e rounds = map (λ xs. record e { engines = xs }) rounds

-- `start`; `none` is the exception.
unfoldable pub start : Exchange → Option (List Exchange)
start e =
    let e1 = record e { state = starting } in
    let e2 = record e1 { engines = every_engine start_running e.engines } in
    let e3 = record e2 { risk_running = start_running e.risk_running } in
    let e4 = record e3 { state = running } in
    if is_created e.state
    then some ((e1 ∷ rounds_of e1 (each_engine start_running e.engines)) ++ (e3 ∷ (e4 ∷ [])))
    else none

-- `stop`
unfoldable pub stop : Exchange → List Exchange
stop e =
    let e1 = record e { state = stopping } in
    let e2 = record e1 { risk_running = stop_running e.risk_running } in
    let e3 = record e2 { engines = every_engine stop_running e.engines } in
    let e4 = record e3 { state = stopped } in
    if is_running e.state || is_starting e.state
    then (e1 ∷ (e2 ∷ rounds_of e2 (each_engine stop_running e.engines))) ++ (e4 ∷ [])
    else []

-- The `name` of a `ComponentHealth`
pub data ComponentName : Type 0 where
  risk_manager : ComponentName
  matching_engine : FixedString → ComponentName
  order_pool : ComponentName

-- `ComponentHealth` without its text
pub record ComponentHealth : Type 0 where
  pub name : ComponentName
  pub healthy : Bool

-- `ExchangeHealth`
pub record ExchangeHealth : Type 0 where
  pub overall_healthy : Bool
  pub state : ExchangeState
  pub components : List ComponentHealth

-- `push_back` of a component that is not the risk manager: one that is not healthy makes the whole so.
abbrev pub report : ExchangeHealth → ComponentName → Bool → ExchangeHealth
report h name healthy = record h {
  overall_healthy = if healthy then h.overall_healthy else false;
  components = h.components ++ (record { name = name; healthy = healthy } ∷ []);
}

-- The loop of `get_health` over the engines
unfoldable pub report_engines : ExchangeHealth → List EngineEntry → ExchangeHealth
report_engines h [] = h
report_engines h (x ∷ xs) = report_engines (report h (matching_engine x.symbol) x.running) xs

-- `get_health`. Whether less than 0.95 of the order pool is in use is given.
unfoldable pub get_health : Exchange → Bool → ExchangeHealth
get_health e pool_healthy =
    let h : ExchangeHealth = record {
      overall_healthy = is_running e.state;
      state = e.state;
      components = record { name = risk_manager; healthy = is_running e.state } ∷ [];
    } in
    report (report_engines h e.engines) order_pool pool_healthy
