-- ===== src/Worker/Books.antt =====
-- src/matching_engine.cpp: the engine keeps its book valid and every slot of the pool accounted for.
use rtes.Prelude.{
  ℕ, ◌<◌, ◌≡◌, refl, Bool, true, false, List, [], ◌∷◌, some, arith, ◌==◌, not, ap, contains, ◌∙◌,
  inl, inr, Bool-cases, Option-cases,
}
use rtes.Types.FixedString.{FixedString}
use rtes.Types.Orders.{Trade, rejected}
use rtes.Errors.{ok, err, ErrorCode, Result-cases}
use rtes.Pool
use rtes.Pool.FreeList.{deallocate-IsValid}
use rtes.Book.Lookup.{lookup}
use rtes.Book.Matching.{modify, set_status}
use rtes.Book.Matching.Alike.{status-Alike, SideIsValid-Alike}
use rtes.Book.{OrderBook, add_order, cancel_order}
use rtes.Book.Invariant.{on_book, BookIsValid}
use rtes.Book.AddOrder.{add_order_stopped, add_order_spent, add_order_taken}
use rtes.Book.Accepts.{Submitted, accepted-Prioritised, add_order-BookIsValid}
use rtes.Book.Cancels.{cancel_order-BookIsValid}
use rtes.Book.Slots.{BookIsSafe, add_order-KeptSlot, capacity-deallocate}
use rtes.Book.Returned.{cancel_order-BookIsSafe, freed_by}
use rtes.Worker.{
  MatchingEngine, MarketDataEvent, publish, on_trade_internal, on_trades, publish_bbo_update,
  publish_if_moved, reject, process_new_order, process_cancel, bbo_update,
}
use rtes.Book.PriceBook.{best_price, best_quantity}

-- The book after its refusal of the order `a`.
abbrev pub refused_book : OrderBook → ℕ → OrderBook
refused_book b a = record b {
  env = record (b.env) {
    mem = modify b.env.mem a (set_status rejected);
    pool = Pool.deallocate b.env.pool a;
  };
}

refused_book-BookIsValid : (b : OrderBook) (a : ℕ) → BookIsValid b → BookIsValid (refused_book b a)
refused_book-BookIsValid b a v =
    let alike = status-Alike b.env.mem a rejected in
    record {
      own_valid = SideIsValid-Alike b.env.mem _ alike _ b.bids v.own_valid;
      other_valid = SideIsValid-Alike b.env.mem _ alike _ b.asks v.other_valid;
      own_sorted = v.own_sorted;
      other_sorted = v.other_sorted;
      own_distinct = v.own_distinct;
      other_distinct = v.other_distinct;
      disjoint = v.disjoint;
      listed = λ x h. rw ((alike x).id) (v.listed x h);
      known = λ id x h. rw ((alike x).id) (v.known id x h);
      uncrossed = v.uncrossed;
    }

refused_book-BookIsSafe :
    (b : OrderBook) (a : ℕ) (free : List ℕ)
    → BookIsSafe b free
    → contains a free ≡ false
    → a < b.env.pool.capacity
    → on_book a b.bids b.asks ≡ false
    → BookIsSafe (refused_book b a) (a ∷ free)
refused_book-BookIsSafe b a free safe off inside away = record {
  pool_valid = deallocate-IsValid b.env.pool a free safe.pool_valid inside off;
  held = λ x h. refused_held x h;
}
  where
    refused_held :
        (x : ℕ)
        → on_book x b.bids b.asks ≡ true
        → (contains x (a ∷ free) ≡ false) × (x < (Pool.deallocate b.env.pool a).capacity)
    refused_held x h =
        let (off_x, in_x) = safe.held x h in
        elim (Bool-cases (a == x)) [
          | inl same ↦ absurd (ground (arith, same, h, away))
          | inr differs ↦ (
            ground (arith, off_x, differs),
            omega (arith, in_x, capacity-deallocate b.env.pool a),
          )
        ]

-- The answer of `add_order` is a success.
pub accepts : OrderBook → ℕ → Bool
accepts b a = elim (add_order b (some a)).0 [ ok _ ↦ true | err _ ↦ false ]

accepts_accepted : (b : OrderBook) (a : ℕ) → (add_order b (some a)).0 ≡ ok tt → accepts b a ≡ true
unfolding accepts
accepts_accepted b a h = rw (accepts, h) refl

accepts_refused :
    (b : OrderBook) (a : ℕ) (code : ErrorCode)
    → add_order b (some a) ≡ (err code, b)
    → accepts b a ≡ false
unfolding accepts
accepts_refused b a code h = rw (accepts, h) refl

-- Where `add_order` refuses an order, it leaves the book as it is.
pub data Added (b : OrderBook) (a : ℕ) : Type 0 where
  was_accepted : (add_order b (some a)).0 ≡ ok tt → Added b a
  was_refused : (code : ErrorCode) → add_order b (some a) ≡ (err code, b) → Added b a

added_lem : (b : OrderBook) (a : ℕ) → BookIsValid b → Submitted b a → Added b a
added_lem b a v i = elim (Bool-cases b.shutdown_requested) [
  | inl stopped ↦ was_refused _ (add_order_stopped b a stopped)
  | inr running ↦ elim (Bool-cases ((b.env.mem a).remaining_quantity == 0)) [
    | inl spent ↦ was_refused _ (add_order_spent b a running spent)
    | inr positive ↦ elim (Option-cases (lookup (b.env.mem a).id b.env.order_lookup)) [
      | inl unlisted ↦
          was_accepted
            (accepted-Prioritised b a (b.env.mem a).side v i running positive unlisted
              refl).accepted_is
      | inr (other, taken) ↦ was_refused _ (add_order_taken b a other running positive taken)
    ]
  ]
]

module _ {Q : Type 0} (push_event : Q → MarketDataEvent → Bool × Q) where
  publish_book :
      (w : MatchingEngine Q) (event : MarketDataEvent) → (publish push_event w event).book ≡ w.book
  unfolding publish
  publish_book w event = elim (Option-cases w.market_data_queue) [
    | inl absent ↦ ground (arith, absent)
    | inr (q, there) ↦ ground (arith, there)
  ]

  on_trades_book :
      (w : MatchingEngine Q) (ts : List Trade) → (on_trades push_event w ts).book ≡ w.book
  unfolding on_trades on_trade_internal
  on_trades_book w [] = refl
  on_trades_book w (t ∷ ts) =
      on_trades_book (on_trade_internal push_event w t) ts ∙ publish_book _ _

  publish_if_moved_book :
      (old : OrderBook) (w : MatchingEngine Q) → (publish_if_moved push_event old w).book ≡ w.book
  unfolding publish_if_moved publish_bbo_update
  publish_if_moved_book old w = ground (
    arith,
    publish_book w (
        bbo_update w.symbol_cache (best_price w.book.bids) (best_quantity w.book.bids)
          (best_price w.book.asks) (best_quantity w.book.asks)),
  )

  process_new_order_accepted :
      (w : MatchingEngine Q) (a : ℕ)
      → (add_order w.book (some a)).0 ≡ ok tt
      → (process_new_order push_event w (some a)).book ≡ (add_order w.book (some a)).1
  unfolding process_new_order
  process_new_order_accepted w a h =
      rw (process_new_order, h) (publish_if_moved_book w.book _ ∙ on_trades_book _ _)

  process_new_order_refused :
      (w : MatchingEngine Q) (a : ℕ) (code : ErrorCode)
      → add_order w.book (some a) ≡ (err code, w.book)
      → (process_new_order push_event w (some a)).book ≡ refused_book w.book a
  unfolding process_new_order reject
  process_new_order_refused w a code h =
      rw (process_new_order, h)
        (ap (λ b. refused_book b a) (on_trades_book _ _) ∙ ap (λ r. refused_book r.1 a) h)

  process_cancel_book :
      (w : MatchingEngine Q) (order_id : ℕ) (client_id : FixedString)
      → (process_cancel push_event w order_id client_id).book ≡ (cancel_order w.book order_id).1
  unfolding process_cancel
  process_cancel_book w order_id client_id = elim (Result-cases (cancel_order w.book order_id).0) [
    | inl (_, done) ↦ rw (process_cancel, done) (publish_if_moved_book w.book _)
    | inr (code, refused) ↦ rw (process_cancel, refused) refl
  ]

-- The book is valid, and every order on it holds a slot that is not on the free list `free`.
pub record BookIsSound (b : OrderBook) (free : List ℕ) : Type 0 where
  pub valid : BookIsValid b
  pub safe : BookIsSafe b free

-- `process_new_order` of a submitted order whose slot is allocated leaves a sound book, with a free
-- list that has the slot of the order exactly where the book refuses it.
pub process_new_order-BookIsSound :
    {Q : Type 0} (push_event : Q → MarketDataEvent → Bool × Q) (w : MatchingEngine Q) (a : ℕ)
    (free : List ℕ)
    → BookIsSound w.book free
    → Submitted w.book a
    → contains a free ≡ false
    → a < w.book.env.pool.capacity
    → (free' : List ℕ) × BookIsSound (process_new_order push_event w (some a)).book free'
      × (contains a free' ≡ not (accepts w.book a))
process_new_order-BookIsSound push_event w a free s i off inside =
    elim (added_lem w.book a s.valid i) [
      | was_accepted h ↦
          let k = add_order-KeptSlot w.book a free s.valid i s.safe off inside in
          (
            k.free,
            rw (process_new_order_accepted push_event w a h)
                (record { valid = add_order-BookIsValid w.book a s.valid i; safe = k.safe }),
            rw (accepts_accepted w.book a h) k.not_given_back,
          )
      | was_refused code h ↦ (
        a ∷ free,
        rw (process_new_order_refused push_event w a code h) (record {
          valid = refused_book-BookIsValid w.book a s.valid;
          safe = refused_book-BookIsSafe w.book a free s.safe off inside i.off_book;
        }),
        rw (accepts_refused w.book a code h) (ground arith),
      )
    ]

-- `process_cancel` on a sound book leaves a sound book, whose free list has the slot of the order in
-- front where the book finds it, and is unchanged otherwise.
pub process_cancel-BookIsSound :
    {Q : Type 0} (push_event : Q → MarketDataEvent → Bool × Q) (w : MatchingEngine Q) (order_id : ℕ)
    (client_id : FixedString) (free : List ℕ)
    → BookIsSound w.book free
    → BookIsSound
        (process_cancel push_event w order_id client_id).book
        (freed_by w.book order_id free)
process_cancel-BookIsSound push_event w order_id client_id free s =
    rw (process_cancel_book push_event w order_id client_id) (record {
      valid = cancel_order-BookIsValid w.book order_id s.valid;
      safe = cancel_order-BookIsSafe w.book order_id free s.valid s.safe;
    })
