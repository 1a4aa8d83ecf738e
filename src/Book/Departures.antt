-- ===== src/Book/Departures.antt =====
-- src/order_book.cpp, `cancel_order`: which orders are on the book afterwards.
use mathlib.Core.Path.{ap₂}
use rtes.Prelude.{ℕ, ◌≡◌, refl, false, some, arith, ◌==◌, sym, ◌∙◌, ◌&&◌, not}
use rtes.Errors.{ok}
use rtes.Book.Lookup.{lookup}
use rtes.Book.{OrderBook, opposite, side_of, cancel_order}
use rtes.Book.Invariant.{on_book, BookIsValid}
use rtes.Book.Accepts.{seen_from}
use rtes.Book.Cancels.{cancel_order_found, own_pointers, own_left, on_own}
use rtes.Book.Slots.{on_book-swap}

departure :
    (b : OrderBook) (id p x : ℕ) (v : BookIsValid b)
    (listed : lookup id b.env.order_lookup ≡ some p)
    → on_book x
        (own_left b.env
          (b.env.mem p).side
          (side_of (b.env.mem p).side b)
          (side_of (opposite (b.env.mem p).side) b)
          (seen_from (b.env.mem p).side b v)
          id
          p
          listed
          refl)
        (side_of (opposite (b.env.mem p).side) b)
      ≡ (not (p == x)
          && on_book x (side_of (b.env.mem p).side b) (side_of (opposite (b.env.mem p).side) b))
departure b id p x v listed =
    let s = (b.env.mem p).side in
    let own_is = own_pointers b.env s _ _ (seen_from s b v) id p listed refl x in
    let apart =
      (seen_from s b v).disjoint p (on_own b.env s _ _ (seen_from s b v) id p listed refl) in
    ground (arith, own_is, apart)

-- On a valid book that is not shut down, `cancel_order` of a listed identifier succeeds and takes
-- exactly the order that the identifier names off the book.
pub cancel_order-on_book :
    (b : OrderBook) (id p x : ℕ)
    → BookIsValid b
    → b.shutdown_requested ≡ false
    → lookup id b.env.order_lookup ≡ some p
    → ((cancel_order b id).0 ≡ ok tt)
      × (on_book x (cancel_order b id).1.bids (cancel_order b id).1.asks
          ≡ (not (p == x) && on_book x b.bids b.asks))
cancel_order-on_book b id p x v running listed =
    let s = (b.env.mem p).side in
    let h = cancel_order_found b id s p running listed refl in
    (
      h.accepted_is,
      on_book-swap s x (cancel_order b id).1
          ∙ ap₂ (on_book x) h.own_is h.other_is
          ∙ departure b id p x v listed
          ∙ sym (ground (arith, on_book-swap s x b)),
    )
