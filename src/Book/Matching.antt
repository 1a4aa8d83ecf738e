-- ===== src/Book/Matching.antt =====
-- src/order_book.cpp: `execute_trade`, and the sweeps of `match_market_order` and
-- `match_limit_order`. `Env` holds what both sides of the book share: the orders in the pool, the
-- lookup map, the pool, the trade numbers, the clock, and the trades passed to the callback.
-- Latency measurements and prefetches are left out.
pub mod View
pub mod Frame
pub mod Step
pub mod Level
pub mod Round
pub mod Rule
pub mod Sweep
pub mod Trace
pub mod Alike
use rtes.Prelude.{
  ℕ, zero, suc, ◌+◌, ◌-◌, min, Bool, true, false, List, [], ◌∷◌, ◌++◌, Option, none, some, ltb, leb,
  ◌==◌, if◌then◌else◌, add64, sub64, ◌||◌, not,
}
use rtes.Types.Orders.{
  Side, buy, sell, OrderType, market, limit, OrderStatus, filled, partially_filled, Order, Trade,
  is_buy, make_trade,
}
use rtes.Pool
use rtes.Pool.{Pool}
use rtes.Book.Levels.{FlatLevel, Memory, front, pop_front, reduce_quantity, level_empty}
use rtes.Book.PriceBook.{remove}
use rtes.Book.Lookup.{erase_key}

pub record Env : Type 0 where
  pub mem : Memory
  pub order_lookup : List (ℕ × ℕ)
  pub pool : Pool
  pub next_trade_id : ℕ
  -- the readings of the clock, and how many have been taken
  pub clock : ℕ → ℕ
  pub ticks : ℕ
  pub trades : List Trade
  pub symbol : List ℕ

-- A write to the order at `p`.
abbrev pub modify : Memory → ℕ → (Order → Order) → Memory
modify mem p f q = if p == q then f (mem q) else mem q

abbrev pub take_quantity : ℕ → Order → Order
take_quantity qty o = record o { remaining_quantity = sub64 o.remaining_quantity qty }

abbrev pub mark_filled : Order → Order
mark_filled o = record o { status = if o.remaining_quantity == 0 then filled else partially_filled }

abbrev pub set_status : OrderStatus → Order → Order
set_status st o = record o { status = st }

-- The trade that `execute_trade` builds.
abbrev pub trade_of : Env → Order → Order → ℕ → ℕ → Trade
trade_of e aggressive passive qty price =
    make_trade (e.clock e.ticks) e.next_trade_id
      (if is_buy aggressive.side then aggressive.id else passive.id)
      (if is_buy aggressive.side then passive.id else aggressive.id) e.symbol qty price

-- `execute_trade`: the callback sees the trades in the order of the list.
unfoldable pub execute_trade : Env → ℕ → ℕ → ℕ → ℕ → Env
execute_trade e aggressive passive qty price =
    let m1 : Memory = modify e.mem aggressive (take_quantity qty) in
    let m2 : Memory = modify m1 passive (take_quantity qty) in
    let m3 : Memory = modify m2 aggressive mark_filled in
    let m4 : Memory = modify m3 passive mark_filled in
    record e {
      mem = m4;
      next_trade_id = add64 e.next_trade_id 1;
      ticks = suc e.ticks;
      trades = e.trades ++ (trade_of e (m4 aggressive) (m4 passive) qty price ∷ []);
    }

-- The filled passive order leaves the lookup map and goes back to the pool.
unfoldable pub release_filled : Env → ℕ → Env
release_filled e passive = record e {
  order_lookup = erase_key (e.mem passive).id e.order_lookup;
  mem = modify e.mem passive (set_status filled);
  pool = Pool.deallocate e.pool passive;
}

-- The body of a sweep behind its test, at the best level `l` of the opposite side.
unfoldable pub fill_best : Bool → Env → ℕ → FlatLevel → List FlatLevel → Env × List FlatLevel
fill_best d e aggressive l ls = elim (front l) [
  | none ↦ (e, l ∷ ls)
  | some passive ↦
      let qty = min (e.mem aggressive).remaining_quantity (e.mem passive).remaining_quantity in
      let traded = execute_trade e aggressive passive qty l.price in
      let done = (traded.mem passive).remaining_quantity == 0 in
      let l' : FlatLevel = if done then pop_front l qty else reduce_quantity l qty in
      let e' : Env = if done then release_filled traded passive else traded in
      (e', if level_empty l' then remove d l'.price (l' ∷ ls) else l' ∷ ls)
]

abbrev pub sweep_step : Bool → Env → ℕ → FlatLevel → List FlatLevel → Env × List FlatLevel
sweep_step d e aggressive l ls =
    if level_empty l then (e, remove d l.price (l ∷ ls)) else fill_best d e aggressive l ls

-- The `while` loop over the opposite side, whose order is `d`. `crosses` is the test that ends the
-- limit sweep; the market sweep has none.
pub sweep : (Order → ℕ → Bool) → Bool → ℕ → Env → ℕ → List FlatLevel → Env × List FlatLevel
sweep crosses d zero e aggressive levels = (e, levels)
sweep crosses d (suc fuel) e aggressive [] = (e, [])
sweep crosses d (suc fuel) e aggressive (l ∷ ls) =
    let next = sweep_step d e aggressive l ls in
    let rest = sweep crosses d fuel next.0 aggressive next.1 in
    if ((e.mem aggressive).remaining_quantity == 0) || not (crosses (e.mem aggressive) l.price)
    then (e, l ∷ ls)
    else rest

abbrev pub always_crosses : Order → ℕ → Bool
always_crosses o price = true

-- `(order->side == Side::BUY) ? (order->price >= level.price) : (order->price <= level.price)`
abbrev pub limit_crosses : Order → ℕ → Bool
limit_crosses o price = if is_buy o.side then leb price o.price else leb o.price price

abbrev pub crosses_of : OrderType → Order → ℕ → Bool
crosses_of market = always_crosses
crosses_of limit = limit_crosses
