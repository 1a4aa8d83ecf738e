-- ===== src/Types/Orders.antt =====
-- include/rtes/types.hpp: sides, order types and states, `Order` and `Trade`. Prices are fixed-point
-- words (price * 10000), identifiers and quantities words; the padding of `Order` is left out.
use rtes.Prelude.{ℕ, Bool, true, false, List, some}
use rtes.Types.FixedString.{FixedString, of_c_string}

pub data Side : Type 0 where
  buy sell : Side

pub data OrderType : Type 0 where
  market limit : OrderType

pub data OrderStatus : Type 0 where
  pending accepted rejected filled partially_filled cancelled : OrderStatus

pub record Order : Type 0 where
  pub price : ℕ
  pub remaining_quantity : ℕ
  pub id : ℕ
  pub status : OrderStatus
  pub side : Side
  pub type : OrderType
  pub quantity : ℕ
  pub timestamp : ℕ
  pub symbol : FixedString
  pub client_id : FixedString

pub record Trade : Type 0 where
  pub id : ℕ
  pub buy_order_id : ℕ
  pub sell_order_id : ℕ
  pub price : ℕ
  pub quantity : ℕ
  pub timestamp : ℕ
  pub symbol : FixedString

-- `side == Side::BUY`
abbrev pub is_buy : Side → Bool
is_buy buy = true
is_buy sell = false

-- The constructor of `Order`; `now` is what the clock reads.
unfoldable pub make_order : ℕ → ℕ → List ℕ → List ℕ → Side → OrderType → ℕ → ℕ → Order
make_order now order_id client sym s t qty p = record {
  price = p;
  remaining_quantity = qty;
  id = order_id;
  status = pending;
  side = s;
  type = t;
  quantity = qty;
  timestamp = now;
  symbol = of_c_string 8 (some sym);
  client_id = of_c_string 32 (some client);
}

-- The constructor of `Trade`.
unfoldable pub make_trade : ℕ → ℕ → ℕ → ℕ → List ℕ → ℕ → ℕ → Trade
make_trade now trade_id buy_id sell_id sym qty p = record {
  id = trade_id;
  buy_order_id = buy_id;
  sell_order_id = sell_id;
  price = p;
  quantity = qty;
  timestamp = now;
  symbol = of_c_string 8 (some sym);
}
