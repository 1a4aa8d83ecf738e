-- ===== src/Book/AddOrder.antt =====
-- src/order_book.cpp, `add_order`: every branch, in the view of the two sides.
use rtes.Prelude.{ℕ, ◌≡◌, refl, true, false, List, none, some, arith, ◌==◌}
use rtes.Types.Orders.{Side, buy, sell, accepted}
use rtes.Errors.{Result, ok, err, system_shutdown, order_invalid, order_duplicate}
use rtes.Book.Lookup.{lookup, insert, erase_key}
use rtes.Book.Levels.{FlatLevel}
use rtes.Book.Matching.{Env, modify, set_status, sweep, crosses_of}
use rtes.Book.Insertion.{place, place_lem}
use rtes.Book.{
  OrderBook, opposite, descending, side_of, rounds, add_order, match_order, add_to_book,
  insert_into, settle, sweep_other, match_and_settle, with_lookup, with_side, update_bbo_snapshot,
}
use rtes.Book.Incoming.{with_listed}

-- The outcome of a call, in the view of the side `s`.
pub record Becomes (r : Result (Unit {0}) × OrderBook) (s : Side) (e : Env)
    (own other : List FlatLevel) : Type 0 where
  pub accepted_is : r.0 ≡ ok tt
  pub env_is : r.1.env ≡ e
  pub own_is : side_of s r.1 ≡ own
  pub other_is : side_of (opposite s) r.1 ≡ other

-- The sweep that `add_order` makes.
abbrev pub swept_by : OrderBook → ℕ → Side → Env × List FlatLevel
swept_by b a s =
    sweep (crosses_of (b.env.mem a).type) (descending (opposite s))
      (rounds (side_of (opposite s) b)) (with_listed b.env a) a (side_of (opposite s) b)

pub matched_lem :
    (b : OrderBook) (a : ℕ)
    → b.shutdown_requested ≡ false
    → match_and_settle b a ≡ (
      ok tt,
      settle
          (sweep_other
            (b.env.mem a).side
            (with_lookup b (insert (b.env.mem a).id a b.env.order_lookup))
            a)
          a,
    )
unfolding match_and_settle match_order
matched_lem b a running = ground arith

-- The checks of `add_order`, in their order; a refused order changes nothing.
module _ (b : OrderBook) (a : ℕ) where
  pub add_order_stopped :
      b.shutdown_requested ≡ true → add_order b (some a) ≡ (err system_shutdown, b)
  unfolding add_order
  add_order_stopped stopped = ground arith

  pub add_order_spent :
      b.shutdown_requested ≡ false
      → ((b.env.mem a).remaining_quantity == 0) ≡ true
      → add_order b (some a) ≡ (err order_invalid, b)
  unfolding add_order
  add_order_spent running spent = ground arith

  pub add_order_taken :
      (other : ℕ)
      → b.shutdown_requested ≡ false
      → ((b.env.mem a).remaining_quantity == 0) ≡ false
      → lookup (b.env.mem a).id b.env.order_lookup ≡ some other
      → add_order b (some a) ≡ (err order_duplicate, b)
  unfolding add_order
  add_order_taken other running positive taken = ground arith

pub add_order_matched :
    (b : OrderBook) (a : ℕ)
    → b.shutdown_requested ≡ false
    → ((b.env.mem a).remaining_quantity == 0) ≡ false
    → lookup (b.env.mem a).id b.env.order_lookup ≡ none
    → add_order b (some a) ≡ match_and_settle b a
unfolding add_order
add_order_matched b a running positive unlisted = ground arith

abbrev listed_book : OrderBook → ℕ → OrderBook
listed_book b a = with_lookup b (insert (b.env.mem a).id a b.env.order_lookup)

-- What `settle` makes of the book that a sweep left.
settle_filled :
    (s : Side) (b : OrderBook) (a : ℕ) (e : Env) (ls : List FlatLevel)
    → (e.mem a).remaining_quantity ≡ 0
    → Becomes
        (ok tt, settle (with_side (opposite s) b e ls) a)
        s
        (record e { order_lookup = erase_key (e.mem a).id e.order_lookup })
        (side_of s b)
        ls
unfolding settle update_bbo_snapshot
settle_filled buy b a e ls h =
    rw h (record { accepted_is = refl; env_is = refl; own_is = refl; other_is = refl })
settle_filled sell b a e ls h =
    rw h (record { accepted_is = refl; env_is = refl; own_is = refl; other_is = refl })

settle_rested :
    (s : Side) (b : OrderBook) (a : ℕ) (e : Env) (ls : List FlatLevel)
    → (e.mem a).side ≡ s
    → ((e.mem a).remaining_quantity == 0) ≡ false
    → Becomes
        (ok tt, settle (with_side (opposite s) b e ls) a)
        s
        (record e { mem = modify e.mem a (set_status accepted) })
        (place (descending s) e.mem (e.mem a).price a (side_of s b))
        ls
unfolding settle update_bbo_snapshot add_to_book insert_into
settle_rested buy b a e ls side h =
    rw (h, side)
      (record {
        accepted_is = refl;
        env_is = refl;
        own_is = place_lem true e.mem (e.mem a).price a b.bids;
        other_is = refl;
      })
settle_rested sell b a e ls side h =
    rw (h, side)
      (record {
        accepted_is = refl;
        env_is = refl;
        own_is = place_lem false e.mem (e.mem a).price a b.asks;
        other_is = refl;
      })

module _ (b : OrderBook) (a : ℕ) (running : b.shutdown_requested ≡ false)
    (positive : ((b.env.mem a).remaining_quantity == 0) ≡ false)
    (unlisted : lookup (b.env.mem a).id b.env.order_lookup ≡ none) where
  pub add_order_filled :
      (s : Side)
      → (b.env.mem a).side ≡ s
      → ((swept_by b a s).0.mem a).remaining_quantity ≡ 0
      → Becomes
          (add_order b (some a))
          s
          (record ((swept_by b a s).0) {
            order_lookup = erase_key ((swept_by b a s).0.mem a).id (swept_by b a s).0.order_lookup;
          })
          (side_of s b)
          (swept_by b a s).1
  unfolding sweep_other
  add_order_filled buy side filled =
      rw (add_order_matched b a running positive unlisted, matched_lem b a running, side)
        (settle_filled buy (listed_book b a) a (swept_by b a buy).0 (swept_by b a buy).1 filled)
  add_order_filled sell side filled =
      rw (add_order_matched b a running positive unlisted, matched_lem b a running, side)
        (settle_filled sell (listed_book b a) a (swept_by b a sell).0 (swept_by b a sell).1 filled)

  pub add_order_rested :
      (s : Side)
      → (b.env.mem a).side ≡ s
      → ((swept_by b a s).0.mem a).side ≡ s
      → (((swept_by b a s).0.mem a).remaining_quantity == 0) ≡ false
      → Becomes
          (add_order b (some a))
          s
          (record ((swept_by b a s).0) {
            mem = modify (swept_by b a s).0.mem a (set_status accepted);
          })
          (place
            (descending s)
            (swept_by b a s).0.mem
            ((swept_by b a s).0.mem a).price
            a
            (side_of s b))
          (swept_by b a s).1
  unfolding sweep_other
  add_order_rested buy side still left =
      rw (add_order_matched b a running positive unlisted, matched_lem b a running, side)
        (settle_rested buy (listed_book b a) a (swept_by b a buy).0 (swept_by b a buy).1 still left)
  add_order_rested sell side still left =
      rw (add_order_matched b a running positive unlisted, matched_lem b a running, side)
        (settle_rested sell (listed_book b a) a (swept_by b a sell).0 (swept_by b a sell).1 still
          left)
