-- ===== src/Book/Quotes.antt =====
-- src/order_book.cpp, `update_bbo_snapshot`: the snapshot shows the best price and quantity of each side
-- after every call.
use rtes.Prelude.{ℕ, ◌%◌, ◌≡◌, refl, List, some, arith, ◌==◌, inl, inr, Bool-cases, Option-cases}
use rtes.Types.Orders.{Side, buy, sell}
use rtes.Book.Lookup.{lookup, insert}
use rtes.Book.Levels.{FlatLevel}
use rtes.Book.PriceBook.{best_price, best_quantity}
use rtes.Book.Matching.{Env}
use rtes.Book.AddOrder.{
  matched_lem, add_order_stopped, add_order_spent, add_order_taken, add_order_matched,
}
use rtes.Book.Cancels.{cancel_order_stopped, cancel_order_unknown, cancel_order_lem}
use rtes.Book.{
  OrderBook, add_order, cancel_order, settle, sweep_other, add_to_book, remove_from_book,
  update_bbo_snapshot, with_lookup, with_side, opposite,
}

-- No write goes on, and the snapshot shows the two sides as they are.
pub record BboIsCurrent (b : OrderBook) : Type 0 where
  pub even : b.bbo.sequence % 2 ≡ 0
  pub bid_price_is : b.bbo.bid_price ≡ best_price b.bids
  pub bid_quantity_is : b.bbo.bid_quantity ≡ best_quantity b.bids
  pub ask_price_is : b.bbo.ask_price ≡ best_price b.asks
  pub ask_quantity_is : b.bbo.ask_quantity ≡ best_quantity b.asks

updated : (b : OrderBook) → b.bbo.sequence % 2 ≡ 0 → BboIsCurrent (update_bbo_snapshot b)
unfolding update_bbo_snapshot
updated b e = record {
  even = omega arith;
  bid_price_is = refl;
  bid_quantity_is = refl;
  ask_price_is = refl;
  ask_quantity_is = refl;
}

with_side_bbo :
    (s : Side) (b : OrderBook) (e : Env) (ls : List FlatLevel) → (with_side s b e ls).bbo ≡ b.bbo
with_side_bbo buy b e ls = refl
with_side_bbo sell b e ls = refl

add_to_book_bbo : (b : OrderBook) (order : ℕ) → (add_to_book b order).bbo ≡ b.bbo
unfolding add_to_book
add_to_book_bbo b order = with_side_bbo (b.env.mem order).side b _ _

settle-BboIsCurrent :
    (b : OrderBook) (order : ℕ) → b.bbo.sequence % 2 ≡ 0 → BboIsCurrent (settle b order)
unfolding settle
settle-BboIsCurrent b order e =
    updated _ (elim (Bool-cases ((b.env.mem order).remaining_quantity == 0)) [
      | inl filled ↦ rw filled e
      | inr left ↦ rw (left, add_to_book_bbo b order) e
    ])

sweep_other_bbo : (s : Side) (b : OrderBook) (order : ℕ) → (sweep_other s b order).bbo ≡ b.bbo
unfolding sweep_other
sweep_other_bbo s b order = with_side_bbo (opposite s) b _ _

remove_from_book_bbo : (b : OrderBook) (order : ℕ) → (remove_from_book b order).bbo ≡ b.bbo
unfolding remove_from_book
remove_from_book_bbo b order = with_side_bbo (b.env.mem order).side b _ _

-- Where the snapshot is current and no write to it goes on, both hold behind every call of `add_order`,
-- successful or not.
pub add_order-BboIsCurrent :
    (b : OrderBook) (order : ℕ) → BboIsCurrent b → BboIsCurrent (add_order b (some order)).1
add_order-BboIsCurrent b order v = elim (Bool-cases b.shutdown_requested) [
  | inl stopped ↦ rw (add_order_stopped b order stopped) v
  | inr running ↦ elim (Bool-cases ((b.env.mem order).remaining_quantity == 0)) [
    | inl spent ↦ rw (add_order_spent b order running spent) v
    | inr positive ↦ elim (Option-cases (lookup (b.env.mem order).id b.env.order_lookup)) [
      | inl unlisted ↦
          rw (add_order_matched b order running positive unlisted, matched_lem b order running)
            (settle-BboIsCurrent _ order (
              rw
                (sweep_other_bbo (b.env.mem order).side
                  (with_lookup b (insert (b.env.mem order).id order b.env.order_lookup)) order)
                v.even))
      | inr (other, taken) ↦ rw (add_order_taken b order other running positive taken) v
    ]
  ]
]

-- Where the snapshot is current and no write to it goes on, both hold behind every call of
-- `cancel_order`, successful or not.
pub cancel_order-BboIsCurrent :
    (b : OrderBook) (id : ℕ) → BboIsCurrent b → BboIsCurrent (cancel_order b id).1
cancel_order-BboIsCurrent b id v = elim (Bool-cases b.shutdown_requested) [
  | inl stopped ↦ rw (cancel_order_stopped b id stopped) v
  | inr running ↦ elim (Option-cases (lookup id b.env.order_lookup)) [
    | inl unknown ↦ rw (cancel_order_unknown b id running unknown) v
    | inr (p, listed) ↦
        rw (cancel_order_lem b id p running listed)
          (updated _ (rw (remove_from_book_bbo b p) v.even))
  ]
]
