-- ===== src/Samples.antt =====
-- The states on which the theorems are tried: a pool of four slots, two of them in use, and a book on
-- which one order to sell waits, with an order to buy that is about to come in.
use rtes.Prelude.{ℕ, refl, Bool, true, false, List, [], ◌∷◌, none, some, arith, ◌==◌, if◌then◌else◌}
use rtes.Types.FixedString.{FixedString}
use rtes.Types.Orders.{Side, buy, sell, limit, Order, pending}
use rtes.Pool.{Pool}
use rtes.Pool.FreeList.{IsValid}
use rtes.Book.Lookup.{lookup_single}
use rtes.Book.Levels.{Memory}
use rtes.Book.Matching.View.{LevelIsValid}
use rtes.Book.{OrderBook}
use rtes.Book.Invariant.{BookIsValid}
use rtes.Book.Accepts.{Submitted}
use rtes.Book.Slots.{BookIsSafe}
use rtes.Queue.{make_queue}
use rtes.Requests.{new_order}
use rtes.Risk
use rtes.Risk.{RiskManager}
use rtes.Worker.{MatchingEngine, MarketDataEvent}
use rtes.Worker.Books.{BookIsSound}

abbrev pub acme : FixedString
acme = record { bytes = 65 ∷ 67 ∷ 77 ∷ 69 ∷ 0 ∷ 0 ∷ 0 ∷ 0 ∷ [] }

abbrev pub order_of : ℕ → Side → ℕ → ℕ → Order
order_of n s qty p = record {
  price = p;
  remaining_quantity = qty;
  id = n;
  status = pending;
  side = s;
  type = limit;
  quantity = qty;
  timestamp = 0;
  symbol = acme;
  client_id = acme;
}

-- Slot 0 holds the order 7 to sell 5 at 100, the other slots the order 8 to buy 3 at 101.
abbrev pub sample_memory : Memory
sample_memory p = if p == 0 then order_of 7 sell 5 100 else order_of 8 buy 3 101

abbrev pub sample_pool : Pool
sample_pool = record {
  capacity = 4;
  next = 1 ∷ 2 ∷ 3 ∷ 4294967295 ∷ [];
  head = 8589934594;
  allocated = 2;
  high_water = 2;
}

abbrev pub sample_free : List ℕ
sample_free = 2 ∷ 3 ∷ []

pub sample_pool-IsValid : IsValid sample_pool sample_free
unfolding rtes.Pool.unpack
sample_pool-IsValid = record {
  small = omega arith;
  linked = refl;
  chain = (refl, omega arith, (refl, omega arith, refl));
  distinct = (refl, (refl, tt));
  counted = refl;
  peak = omega arith;
  peak_in = omega arith;
}

abbrev pub sample_book : OrderBook
sample_book = record {
  env = record {
    mem = sample_memory;
    order_lookup = (7, 0) ∷ [];
    pool = sample_pool;
    next_trade_id = 1;
    clock = λ n. n;
    ticks = 0;
    trades = [];
    symbol = 65 ∷ 67 ∷ 77 ∷ 69 ∷ [];
  };
  bids = [];
  asks = record { price = 100; total_quantity = 5; head = 0; orders = 0 ∷ [] } ∷ [];
  shutdown_requested = false;
  bbo = record { bid_price = 0; bid_quantity = 0; ask_price = 100; ask_quantity = 5; sequence = 2 };
}

sample_level :
    LevelIsValid sample_memory sell
      (record { price = 100; total_quantity = 5; head = 0; orders = 0 ∷ [] })
sample_level = record {
  head_in = omega arith;
  fits = omega arith;
  total = refl;
  resting =
      (record { positive = omega arith; word = omega arith; at_price = refl; on_side = refl }, tt);
}

pub sample_book-BookIsValid : BookIsValid sample_book
sample_book-BookIsValid = record {
  own_valid = tt;
  other_valid = (sample_level, tt);
  own_sorted = tt;
  other_sorted = (tt, tt);
  own_distinct = tt;
  other_distinct = (refl, tt);
  disjoint = λ x h. absurd (ground (arith, h));
  listed = λ x h. ground (arith, lookup_single {V = ℕ} (sample_memory x).id 7 0, h);
  known = λ id x h. ground (arith, lookup_single {V = ℕ} id 7 0, h);
  uncrossed = tt;
}

pub sample-Submitted : Submitted sample_book 1
sample-Submitted = record {
  word = omega arith;
  off_book = refl;
  bids_room = tt;
  asks_room = (omega arith, tt);
}

pub sample_book-BookIsSafe : BookIsSafe sample_book sample_free
sample_book-BookIsSafe = record {
  pool_valid = sample_pool-IsValid;
  held = λ x h. ground (arith, h);
}

pub sample_book-BookIsSound : BookIsSound sample_book sample_free
sample_book-BookIsSound = record { valid = sample_book-BookIsValid; safe = sample_book-BookIsSafe }

-- A market-data queue that takes every event.
abbrev pub keep_event : List MarketDataEvent → MarketDataEvent → Bool × List MarketDataEvent
keep_event q event = (true, event ∷ q)

abbrev pub sample_engine : MatchingEngine (List MarketDataEvent)
sample_engine = record {
  intake = record { input_queue = make_queue 65536 (new_order 0); queue_full_count = 0 };
  book = sample_book;
  market_data_queue = some [];
  symbol_cache = 65 ∷ 67 ∷ 77 ∷ 69 ∷ [];
  stats = record {
    total_processed = 0;
    orders_accepted = 0;
    orders_rejected = 0;
    cancels_accepted = 0;
    cancels_rejected = 0;
    trades_executed = 0;
    md_drops = 0;
  };
}

-- One client, with an order of the notional 500 and two orders in its window.
abbrev pub sample_manager : RiskManager
sample_manager = record {
  max_order_size = 100000;
  max_orders_per_second = 1000;
  price_collar_enabled = true;
  max_notional_scaled = 100000000000;
  symbol_configs = (acme, 10) ∷ [];
  matching_engines = (acme, sample_engine.intake) ∷ [];
  reference_prices = (acme, 100) ∷ [];
  client_states =
      (
        acme,
        record {
          active_orders = 7 ∷ [];
          notional_exposure_scaled = 500;
          orders_in_window = 2;
          window_start_ns = 0;
        },
      )
      ∷ [];
  order_symbol_index = (7, acme) ∷ [];
  input_queue = make_queue 65536 (Risk.new_order none);
  stats = record {
    processed = 0;
    approved_count = 0;
    rejected_count = 0;
    cancels_accepted = 0;
    cancels_rejected = 0;
  };
  mem = sample_memory;
  clock = λ n. n;
  ticks = 0;
}
