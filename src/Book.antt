-- ===== src/Book.antt =====
-- src/order_book.cpp and include/rtes/order_book.hpp, `OrderBook`. The children model its parts
-- (levels, sides, the lookup map, the sweeps), and below them stand the proofs.
pub mod Levels
pub mod PriceBook
pub mod Lookup
pub mod Matching
pub mod Insertion
pub mod Invariant
pub mod Incoming
pub mod Added
pub mod AddOrder
pub mod Accepts
pub mod Removal
pub mod Cancels
pub mod Slots
pub mod Returned
pub mod Leaks
pub mod Quotes
pub mod Seqlock
pub mod Departures
use rtes.Prelude.{
  ℕ, zero, suc, ◌+◌, ◌%◌, Bool, true, false, List, [], ◌∷◌, ◌++◌, Option, none, some, ltb, leb,
  ◌==◌, ◌&&◌, not, if◌then◌else◌, add64, sub64, length, take, drop, contains, erase,
}
use rtes.Types.Orders.{Side, buy, sell, Order, OrderStatus, accepted, cancelled}
use rtes.Errors.{
  Result, ok, err, ErrorCode, order_invalid, order_duplicate, order_not_found, system_shutdown,
}
use rtes.Pool
use rtes.Pool.{Pool}
use Levels.{FlatLevel, push_back, level_empty, level_size}
use PriceBook.{
  best_price, best_quantity, find, find_or_insert, write_level, remove, compact_all, prune_empty,
}
use Lookup.{lookup, insert, erase_key}
use Matching.{Env, modify, set_status, sweep, crosses_of}
use Matching.View.{pointers}

-- `BBOSnapshot`: the sequence number is odd while a write goes on.
pub record BboSnapshot : Type 0 where
  pub bid_price : ℕ
  pub bid_quantity : ℕ
  pub ask_price : ℕ
  pub ask_quantity : ℕ
  pub sequence : ℕ

pub record OrderBook : Type 0 where
  pub env : Env
  pub bids : List FlatLevel
  pub asks : List FlatLevel
  pub shutdown_requested : Bool
  pub bbo : BboSnapshot

abbrev pub opposite : Side → Side
opposite buy = sell
opposite sell = buy

-- The template parameter of the two sides: `bids_` descends, `asks_` ascends.
abbrev pub descending : Side → Bool
descending buy = true
descending sell = false

abbrev pub side_of : Side → OrderBook → List FlatLevel
side_of buy b = b.bids
side_of sell b = b.asks

abbrev pub with_side : Side → OrderBook → Env → List FlatLevel → OrderBook
with_side buy b e levels = record b { env = e; bids = levels }
with_side sell b e levels = record b { env = e; asks = levels }

-- `++sequence`, the four fields, `++sequence`
unfoldable pub update_bbo_snapshot : OrderBook → OrderBook
update_bbo_snapshot b = record b {
  bbo = record {
    bid_price = best_price b.bids;
    bid_quantity = best_quantity b.bids;
    ask_price = best_price b.asks;
    ask_quantity = best_quantity b.asks;
    sequence = add64 (add64 b.bbo.sequence 1) 1;
  };
}

-- The rounds that a sweep of these levels can make: each takes an order or an empty level away, but
-- for the last one.
abbrev pub rounds : List FlatLevel → ℕ
rounds levels = length (pointers levels) + length levels + 1

-- The sweep of `match_market_order` or `match_limit_order`.
unfoldable pub sweep_other : Side → OrderBook → ℕ → OrderBook
sweep_other s b order =
    let levels = side_of (opposite s) b in
    let swept =
      sweep (crosses_of (b.env.mem order).type) (descending (opposite s)) (rounds levels) b.env
        order levels in
    with_side (opposite s) b swept.0 swept.1

unfoldable pub match_order : OrderBook → ℕ → Result (Unit {0}) × OrderBook
match_order b order =
    if b.shutdown_requested
    then (err system_shutdown, b)
    else (ok tt, sweep_other (b.env.mem order).side b order)

-- `insert_into` of `add_to_book`, at one side of the book.
unfoldable pub insert_into : Bool → Env → ℕ → List FlatLevel → Env × List FlatLevel
insert_into d e order levels =
    let place = find_or_insert d (e.mem order).price levels in
    (
      record e { mem = modify e.mem order (set_status accepted) },
      write_level place (push_back e.mem place.1 order),
    )

unfoldable pub add_to_book : OrderBook → ℕ → OrderBook
add_to_book b order =
    let s = (b.env.mem order).side in
    let placed = insert_into (descending s) b.env order (side_of s b) in
    with_side s b placed.0 placed.1

-- The order leaves the live part of its level.
unfoldable pub take_out : Env → FlatLevel → ℕ → FlatLevel
take_out e l order = record l {
  orders = take l.head l.orders ++ erase order (drop l.head l.orders);
  total_quantity = sub64 l.total_quantity (e.mem order).remaining_quantity;
}

-- `remove_from` of `remove_from_book`, at one side of the book.
unfoldable pub remove_from : Bool → Env → ℕ → List FlatLevel → List FlatLevel
remove_from d e order levels = elim (find d (e.mem order).price levels) [
  | none ↦ levels
  | some (front, l, rear) ↦
      let l' = take_out e l order in
      let levels' = write_level (front, l, rear) l' in
      if contains order (drop l.head l.orders)
      then (if level_empty l' then remove d (e.mem order).price levels' else levels')
      else levels
]

unfoldable pub remove_from_book : OrderBook → ℕ → OrderBook
remove_from_book b order =
    let s = (b.env.mem order).side in
    with_side s b b.env (remove_from (descending s) b.env order (side_of s b))

abbrev pub with_lookup : OrderBook → List (ℕ × ℕ) → OrderBook
with_lookup b m = record b { env = record (b.env) { order_lookup = m } }

-- `add_order` behind its match: what is left of the order comes to rest, a filled one is unlisted.
unfoldable pub settle : OrderBook → ℕ → OrderBook
settle b order = update_bbo_snapshot (
    if (b.env.mem order).remaining_quantity == 0
    then with_lookup b (erase_key (b.env.mem order).id b.env.order_lookup)
    else add_to_book b order)

-- `add_order` behind its checks.
unfoldable pub match_and_settle : OrderBook → ℕ → Result (Unit {0}) × OrderBook
match_and_settle b order =
    let id = (b.env.mem order).id in
    let matched = match_order (with_lookup b (insert id order b.env.order_lookup)) order in
    elim (matched.0) [
      | err code ↦ (err code, with_lookup (matched.1) (erase_key id matched.1.env.order_lookup))
      | ok _ ↦ (ok tt, settle (matched.1) order)
    ]

-- `add_order`: the order is a pointer, `none` the null pointer.
unfoldable pub add_order : OrderBook → Option ℕ → Result (Unit {0}) × OrderBook
add_order b none = (if b.shutdown_requested then err system_shutdown else err order_invalid, b)
add_order b (some order) =
    if b.shutdown_requested
    then (err system_shutdown, b)
    else if (b.env.mem order).remaining_quantity == 0
    then (err order_invalid, b)
    else elim (lookup (b.env.mem order).id b.env.order_lookup) [
      | some other ↦ (err order_duplicate, b)
      | none ↦ match_and_settle b order
    ]

-- `cancel_order`
unfoldable pub cancel_order : OrderBook → ℕ → Result (Unit {0}) × OrderBook
cancel_order b order_id =
    if b.shutdown_requested
    then (err system_shutdown, b)
    else elim (lookup order_id b.env.order_lookup) [
      | none ↦ (err order_not_found, b)
      | some order ↦
          let removed = remove_from_book b order in
          let e = removed.env in
          (
            ok tt,
            update_bbo_snapshot (record removed {
              env = record e {
                order_lookup = erase_key order_id e.order_lookup;
                mem = modify e.mem order (set_status cancelled);
                pool = Pool.deallocate e.pool order;
              };
            }),
          )
    ]

-- `shutdown`: every listed order is cancelled and given back.
cancel_all : List (ℕ × ℕ) → Env → Env
cancel_all [] e = e
cancel_all ((id, order) ∷ m) e = cancel_all m (record e {
  mem = modify e.mem order (set_status cancelled);
  pool = Pool.deallocate e.pool order;
})

unfoldable pub shutdown : OrderBook → OrderBook
unfolding cancel_all
shutdown b = record b {
  env = record (cancel_all b.env.order_lookup b.env) { order_lookup = [] };
  bids = [];
  asks = [];
  shutdown_requested = true;
}

-- `compact` and `prune`
unfoldable pub compact_book : OrderBook → OrderBook
compact_book b = record b { bids = compact_all b.bids; asks = compact_all b.asks }

unfoldable pub prune : OrderBook → OrderBook
prune b = record b { bids = prune_empty b.bids; asks = prune_empty b.asks }

pub order_count : OrderBook → ℕ
order_count b = length b.env.order_lookup

-- `read_bbo` when no write interrupts it: an odd sequence number is refused.
pub read_bbo : OrderBook → Option BboSnapshot
read_bbo b = if (b.bbo.sequence % 2) == 1 then none else some b.bbo

-- `MAX_DEPTH_LEVELS`
abbrev pub max_depth_levels : ℕ
max_depth_levels = 20

pub record DepthLevel : Type 0 where
  pub price : ℕ
  pub quantity : ℕ
  pub order_count : ℕ

-- The loop of `get_depth` over one side, with `n` entries filled.
depth_from : ℕ → ℕ → List FlatLevel → List DepthLevel
depth_from max n [] = []
depth_from max n (l ∷ ls) =
    let skip = depth_from max n ls in
    let more = depth_from max (suc n) ls in
    if ltb n max && ltb n max_depth_levels
    then (if level_empty l
        then skip
        else record {
          price = l.price;
          quantity = l.total_quantity;
          order_count = level_size l % 4294967296;
        }
          ∷ more)
    else []

-- `get_depth`: the entries of the bids and of the asks.
pub get_depth : OrderBook → ℕ → List DepthLevel × List DepthLevel
unfolding depth_from
get_depth b max_levels = (depth_from max_levels 0 b.bids, depth_from max_levels 0 b.asks)
