-- ===== src/Book/Leaks.antt =====
-- src/order_book.cpp, `add_order`: the slot of an incoming order that is filled at once.
use mathlib.Core.Path.{ap₂}
use rtes.Prelude.{
  ℕ, ◌<◌, ◌≡◌, ◌≢◌, refl, false, List, none, some, arith, ◌==◌, contains, ◌∙◌, ==_ne,
}
use rtes.Types.Orders.{Side}
use rtes.Book.Lookup.{lookup}
use rtes.Book.{OrderBook, side_of, add_order}
use rtes.Book.Invariant.{on_book, BookIsValid}
use rtes.Book.AddOrder.{add_order_filled}
use rtes.Book.Accepts.{Submitted, expected, incoming, swept, out}
use rtes.Book.Slots.{BookIsSafe, KeptSlot, add_order-KeptSlot, on_book-swap, split_other}

-- An accepted order that is filled at once is not on the book afterwards.
filled-off_book :
    (b : OrderBook) (a : ℕ) (s : Side) (v : BookIsValid b) (i : Submitted b a) (free : List ℕ)
    → BookIsSafe b free
    → contains a free ≡ false
    → a < b.env.pool.capacity
    → b.shutdown_requested ≡ false
    → ((b.env.mem a).remaining_quantity == 0) ≡ false
    → lookup (b.env.mem a).id b.env.order_lookup ≡ none
    → (b.env.mem a).side ≡ s
    → (expected b a s).left ≡ 0
    → on_book a (add_order b (some a)).1.bids (add_order b (some a)).1.asks ≡ false
filled-off_book b a s v i free safe off inside running positive unlisted side all_filled =
    let h =
      add_order_filled b a running positive unlisted s side
        (omega (arith, (swept b a s v i running positive unlisted side).left)) in
    let apart = split_other b a s v i free safe off inside running positive unlisted side a in
    let inc = incoming b a s v i running positive unlisted side in
    let gone : on_book a (side_of s b) (out b a s v i running positive unlisted side).1 ≡ false =
      ground (arith, apart, inc.off_own, inc.off_other) in
    on_book-swap s a (add_order b (some a)).1 ∙ ap₂ (on_book a) h.own_is h.other_is ∙ gone

-- On a valid and safe book that is not shut down, `add_order` of a submitted order that has a quantity,
-- an identifier that is not listed and an allocated slot, and that the reference matching fills at
-- once, leaves a safe book: the slot of the order is neither on the book nor on its free list.
pub add_order-filled_leaks :
    (b : OrderBook) (a : ℕ) (free : List ℕ)
    → BookIsValid b
    → Submitted b a
    → BookIsSafe b free
    → contains a free ≡ false
    → a < b.env.pool.capacity
    → b.shutdown_requested ≡ false
    → (b.env.mem a).remaining_quantity ≢ 0
    → lookup (b.env.mem a).id b.env.order_lookup ≡ none
    → (expected b a (b.env.mem a).side).left ≡ 0
    → KeptSlot b a (add_order b (some a)).1
      × (on_book a (add_order b (some a)).1.bids (add_order b (some a)).1.asks ≡ false)
add_order-filled_leaks b a free v i safe off inside running positive unlisted all_filled = (
  add_order-KeptSlot b a free v i safe off inside,
  filled-off_book b a (b.env.mem a).side v i free safe off inside running (==_ne _ 0 positive)
      unlisted refl all_filled,
)
