-- ===== src/Worker.antt =====
-- src/matching_engine.cpp, `MatchingEngine`: the worker that applies the requests of its queue to its
-- order book and publishes trades and quotes. The market-data queue is an interface, a type with the
-- push that the engine calls. The worker thread, waiting, logs and published counters are left out.
pub mod Books
use rtes.Prelude.{
  ℕ, zero, suc, ◌+◌, ◌%◌, Bool, true, false, List, [], ◌∷◌, Option, none, some, ◌==◌, ◌&&◌, not,
  if◌then◌else◌, add64, length, drop,
}
use rtes.Types.FixedString.{FixedString}
use rtes.Types.Orders.{Trade, rejected}
use rtes.Errors.{Result, ok, err}
use rtes.Pool
use rtes.Queue.{pop}
use rtes.Requests.{Engine, OrderRequest, new_order, cancel}
use rtes.Book.Matching.{modify, set_status}
use rtes.Book.PriceBook.{best_price, best_quantity}
use rtes.Book.{OrderBook, add_order, cancel_order, compact_book, prune}

-- `MarketDataEvent`; each event carries the cached symbol.
pub data MarketDataEvent : Type 0 where
  trade : List ℕ → Trade → MarketDataEvent
  bbo_update : List ℕ → ℕ → ℕ → ℕ → ℕ → MarketDataEvent

pub record LocalStats : Type 0 where
  pub total_processed : ℕ
  pub orders_accepted : ℕ
  pub orders_rejected : ℕ
  pub cancels_accepted : ℕ
  pub cancels_rejected : ℕ
  pub trades_executed : ℕ
  pub md_drops : ℕ

-- `intake` is the engine as the risk manager's thread sees it: its queue.
pub record MatchingEngine (Q : Type 0) : Type 0 where
  pub intake : Engine
  pub book : OrderBook
  pub market_data_queue : Option Q
  pub symbol_cache : List ℕ
  pub stats : LocalStats

-- `BATCH_SIZE` and `COMPACT_INTERVAL`
abbrev pub batch_size : ℕ
batch_size = 256

abbrev pub compact_interval : ℕ
compact_interval = 8192

module _ {Q : Type 0} (push_event : Q → MarketDataEvent → Bool × Q) where
  -- The push of an event: a null queue is passed over, a full one counted.
  unfoldable pub publish : MatchingEngine Q → MarketDataEvent → MatchingEngine Q
  publish w event = elim (w.market_data_queue) [
    | none ↦ w
    | some q ↦
        let pushed = push_event q event in
        record w {
          market_data_queue = some (pushed.1);
          stats =
              if pushed.0
              then w.stats
              else record (w.stats) { md_drops = add64 w.stats.md_drops 1 };
        }
  ]

  -- `on_trade_internal` with `publish_trade`
  unfoldable pub on_trade_internal : MatchingEngine Q → Trade → MatchingEngine Q
  on_trade_internal w t =
      publish
        (record w {
          stats = record (w.stats) { trades_executed = add64 w.stats.trades_executed 1 };
        })
        (trade w.symbol_cache t)

  -- The callbacks of one call of the book. They touch nothing that the book reads, so they come here
  -- behind the call.
  unfoldable pub on_trades : MatchingEngine Q → List Trade → MatchingEngine Q
  on_trades w [] = w
  on_trades w (t ∷ ts) = on_trades (on_trade_internal w t) ts

  unfoldable pub publish_bbo_update : MatchingEngine Q → MatchingEngine Q
  publish_bbo_update w = publish w (
      bbo_update w.symbol_cache (best_price w.book.bids) (best_quantity w.book.bids)
        (best_price w.book.asks) (best_quantity w.book.asks))

  -- The quote goes out where a best price has changed.
  unfoldable pub publish_if_moved : OrderBook → MatchingEngine Q → MatchingEngine Q
  publish_if_moved old w =
      if (best_price w.book.bids == best_price old.bids)
        && (best_price w.book.asks == best_price old.asks)
      then w
      else publish_bbo_update w

  -- The refusal of an order by the book: its slot goes back to the pool.
  unfoldable pub reject : MatchingEngine Q → ℕ → MatchingEngine Q
  reject w order =
      let e = w.book.env in
      record w {
        stats = record (w.stats) { orders_rejected = add64 w.stats.orders_rejected 1 };
        book = record (w.book) {
          env = record e {
            mem = modify e.mem order (set_status rejected);
            pool = Pool.deallocate e.pool order;
          };
        };
      }

  -- `process_new_order`: the order is a pointer, `none` the null pointer.
  unfoldable pub process_new_order : MatchingEngine Q → Option ℕ → MatchingEngine Q
  process_new_order w none = w
  process_new_order w (some order) =
      let added = add_order w.book (some order) in
      let told =
        on_trades (record w { book = added.1 })
          (drop (length w.book.env.trades) added.1.env.trades) in
      elim (added.0) [
        | ok _ ↦ publish_if_moved w.book (record told {
          stats = record (told.stats) { orders_accepted = add64 told.stats.orders_accepted 1 };
        })
        | err code ↦ reject told order
      ]

  -- `process_cancel`, which does not look at the client.
  unfoldable pub process_cancel : MatchingEngine Q → ℕ → FixedString → MatchingEngine Q
  process_cancel w order_id client_id =
      let removed = cancel_order w.book order_id in
      elim (removed.0) [
        | ok _ ↦ publish_if_moved w.book (record w {
          book = removed.1;
          stats = record (w.stats) { cancels_accepted = add64 w.stats.cancels_accepted 1 };
        })
        | err code ↦ record w {
          book = removed.1;
          stats = record (w.stats) { cancels_rejected = add64 w.stats.cancels_rejected 1 };
        }
      ]

  unfoldable pub process : MatchingEngine Q → OrderRequest → MatchingEngine Q
  process w (new_order order) = process_new_order w (some order)
  process w (cancel order_id client_id) = process_cancel w order_id client_id

  -- The loop of `drain_batch`, with what the batch still has room for.
  unfoldable pub drain : ℕ → MatchingEngine Q → ℕ × MatchingEngine Q
  drain zero w = (0, w)
  drain (suc room) w =
      let popped = pop w.intake.input_queue in
      let w' = record w { intake = record (w.intake) { input_queue = popped.1 } } in
      elim (popped.0) [
        | none ↦ (0, w')
        | some request ↦ let rest = drain room (process w' request) in (suc rest.0, rest.1)
      ]

  -- `drain_batch`
  unfoldable pub drain_batch : MatchingEngine Q → ℕ × MatchingEngine Q
  drain_batch w =
      let drained = drain batch_size w in
      (
        drained.0,
        record (drained.1) {
          stats = record (drained.1.stats) {
            total_processed = add64 drained.1.stats.total_processed drained.0;
          };
        },
      )

-- `maybe_compact`
unfoldable pub maybe_compact : {Q : Type 0} → MatchingEngine Q → MatchingEngine Q
maybe_compact w =
    if (w.stats.total_processed % compact_interval) == 0
    then record w { book = prune (compact_book w.book) }
    else w

-- `set_market_data_queue`: `none` is the null pointer.
abbrev pub set_market_data_queue : {Q : Type 0} → MatchingEngine Q → Option Q → MatchingEngine Q
set_market_data_queue w q = record w { market_data_queue = q }
