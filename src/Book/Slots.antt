-- ===== src/Book/Slots.antt =====
-- src/order_book.cpp with include/rtes/memory_pool.hpp: the orders on the book hold allocated slots,
-- so that no call gives a slot back twice, and what becomes of the slot of an incoming order.
use mathlib.Core.Path.{ap₂}
use rtes.Prelude.{
  ℕ, ◌<◌, ◌≡◌, refl, true, false, List, [], ◌∷◌, none, some, arith, ◌==◌, sym, contains, ◌∙◌, ◌||◌,
  inl, inr, Bool-cases, Option-cases, Distinct, Distinct-append_left,
}
use rtes.Types.Orders.{Side, buy, sell}
use rtes.Errors.{Result}
use rtes.Pool
use rtes.Pool.{Pool}
use rtes.Pool.FreeList.{IsValid, deallocate-IsValid}
use rtes.Book.Lookup.{lookup}
use rtes.Book.Levels.{FlatLevel}
use rtes.Book.Matching.{Env}
use rtes.Book.Matching.View.{pointers}
use rtes.Book.Matching.Trace.{Traced, give_back}
use rtes.Book.{OrderBook, opposite, side_of, add_order}
use rtes.Book.Invariant.{on_book, BookIsValid}
use rtes.Book.Added.{contains_after}
use rtes.Book.Incoming.{split_at, not_consumed, with_listed}
use rtes.Book.AddOrder.{
  Becomes, add_order_stopped, add_order_spent, add_order_taken, add_order_filled, add_order_rested,
}
use rtes.Book.Accepts.{
  Submitted, seen_from, incoming, traced, swept, out, swept_by-Idle, spec_left-le,
}

-- `free` is the pool's free list, and every order on the book holds one of the other slots.
pub record SlotsAreSafe (pool : Pool) (own other : List FlatLevel) (free : List ℕ) : Type 0 where
  pub pool_valid : IsValid pool free
  pub held : (x : ℕ) → on_book x own other ≡ true → (contains x free ≡ false) × (x < pool.capacity)

abbrev pub BookIsSafe : OrderBook → List ℕ → Type 0
BookIsSafe b = SlotsAreSafe b.env.pool b.bids b.asks

-- The free list after the slots `ps` were given back.
abbrev pub push_all : List ℕ → List ℕ → List ℕ
push_all [] free = free
push_all (p ∷ ps) free = push_all ps (p ∷ free)

contains-push_all :
    (x : ℕ) (ps free : List ℕ) → contains x (push_all ps free) ≡ (contains x ps || contains x free)
contains-push_all x [] free = refl
contains-push_all x (p ∷ ps) free = ground (arith, contains-push_all x ps (p ∷ free))

pub capacity-deallocate : (pool : Pool) (p : ℕ) → (Pool.deallocate pool p).capacity ≡ pool.capacity
unfolding Pool.deallocate
capacity-deallocate pool p = ground arith

give_back-IsValid :
    (pool : Pool) (ps free : List ℕ)
    → IsValid pool free
    → Distinct ps
    → ((x : ℕ) → contains x ps ≡ true → (contains x free ≡ false) × (x < pool.capacity))
    → IsValid (give_back pool ps) (push_all ps free)
      × ((give_back pool ps).capacity ≡ pool.capacity)
give_back-IsValid pool [] free v d h = (v, refl)
give_back-IsValid pool (p ∷ ps) free v d h =
    let (off, inside) = h p (ground arith) in
    let (v', c') =
      give_back-IsValid (Pool.deallocate pool p) ps (p ∷ free)
        (deallocate-IsValid pool p free v inside off) d.1
        (λ x k. ground (arith, h x, capacity-deallocate pool p)) in
    (v', c' ∙ capacity-deallocate pool p)

-- What `add_order` leaves: the book is safe with this free list, which has not the slot of `a`.
pub record KeptSlot (b : OrderBook) (a : ℕ) (after : OrderBook) : Type 0 where
  pub free : List ℕ
  pub safe : BookIsSafe after free
  pub not_given_back : contains a free ≡ false

pub on_book-swap :
    (s : Side) (x : ℕ) (b : OrderBook)
    → on_book x b.bids b.asks ≡ on_book x (side_of s b) (side_of (opposite s) b)
on_book-swap buy x b = refl
on_book-swap sell x b = ground arith

pub Becomes-safe :
    (s : Side) (r : Result (Unit {0}) × OrderBook) (e : Env) (own other : List FlatLevel)
    (free : List ℕ)
    → Becomes r s e own other
    → SlotsAreSafe e.pool own other free
    → BookIsSafe r.1 free
Becomes-safe s r e own other free h v = record {
  pool_valid = rw (h.env_is) v.pool_valid;
  held = λ x k.
      rw (h.env_is)
        (v.held x (sym (ap₂ (on_book x) h.own_is h.other_is) ∙ sym (on_book-swap s x r.1) ∙ k));
}

module _ (b : OrderBook) (a : ℕ) (s : Side) (v : BookIsValid b) (i : Submitted b a) (free : List ℕ)
    (safe : BookIsSafe b free) (off : contains a free ≡ false) (inside : a < b.env.pool.capacity)
    (running : b.shutdown_requested ≡ false)
    (positive : ((b.env.mem a).remaining_quantity == 0) ≡ false)
    (unlisted : lookup (b.env.mem a).id b.env.order_lookup ≡ none)
    (side : (b.env.mem a).side ≡ s) where
  abbrev trace :
      Traced
        (with_listed b.env a)
        a
        (side_of (opposite s) b)
        (out b a s v i running positive unlisted side)
  trace = traced b a s v i running positive unlisted side

  pub split_other :
      (x : ℕ)
      → contains x (pointers (side_of (opposite s) b)) ≡ (
          contains x trace.consumed
          || contains x (pointers (out b a s v i running positive unlisted side).1))
  split_other x =
      split_at b.env a s _ _ (seen_from s b v) (incoming b a s v i running positive unlisted side) _
        trace x

  gone_or_kept :
      (x : ℕ)
      → on_book x (side_of s b) (out b a s v i running positive unlisted side).1 ≡ true
      → contains x trace.consumed ≡ false
  gone_or_kept x h =
      not_consumed b.env a s _ _ (seen_from s b v)
        (incoming b a s v i running positive unlisted side) _ trace x h

  given :
      IsValid (give_back b.env.pool trace.consumed) (push_all trace.consumed free)
      × ((give_back b.env.pool trace.consumed).capacity ≡ b.env.pool.capacity)
  given =
      give_back-IsValid b.env.pool trace.consumed free safe.pool_valid
        (Distinct-append_left trace.consumed _ (rw trace.split at (seen_from s b v).other_distinct))
        (λ x k. safe.held x (on_book-swap s x b ∙ ground (arith, split_other x)))

  -- Whatever is on the book after the sweep, the incoming order included, holds its slot.
  still_held :
      (x : ℕ)
      → ((a == x) || on_book x (side_of s b) (out b a s v i running positive unlisted side).1)
        ≡ true
      → (contains x (push_all trace.consumed free) ≡ false)
        × (x < (give_back b.env.pool trace.consumed).capacity)
  still_held x h = elim (Bool-cases (a == x)) [
    | inl same ↦
        let is : x ≡ a = ground arith in
        rw is (
          ground (
            arith,
            contains-push_all a trace.consumed free,
            split_other a,
            (incoming b a s v i running positive unlisted side).off_other,
          ),
          omega (arith, given.1),
        )
    | inr differs ↦
        let on : on_book x (side_of s b) (out b a s v i running positive unlisted side).1 ≡ true =
          ground arith in
        let was : on_book x b.bids b.asks ≡ true =
          on_book-swap s x b ∙ ground (arith, split_other x) in
        let (off_free, in_pool) = safe.held x was in
        (
          ground (arith, contains-push_all x trace.consumed free, gone_or_kept x on),
          omega (arith, given.1),
        )
  ]

  safe_after :
      (own : List FlatLevel)
      → ((x : ℕ)
          → on_book x own (out b a s v i running positive unlisted side).1 ≡ true
          → ((a == x) || on_book x (side_of s b) (out b a s v i running positive unlisted side).1)
            ≡ true)
      → SlotsAreSafe
          (out b a s v i running positive unlisted side).0.pool
          own
          (out b a s v i running positive unlisted side).1
          (push_all trace.consumed free)
  safe_after own h =
      rw trace.pool (record { pool_valid = given.0; held = λ x k. still_held x (h x k) })

  accepted_slot : KeptSlot b a (add_order b (some a)).1
  accepted_slot =
      elim (Bool-cases
        (((out b a s v i running positive unlisted side).0.mem a).remaining_quantity == 0)) [
          | inl filled ↦ record {
            free = push_all trace.consumed free;
            safe =
                Becomes-safe s _ _ _ _ _
                  (add_order_filled b a running positive unlisted s side (ground arith))
                  (safe_after (side_of s b) (λ x k. ground arith));
            not_given_back = (still_held a (ground arith)).0;
          }
          | inr left ↦ record {
            free = push_all trace.consumed free;
            safe =
                Becomes-safe s _ _ _ _ _
                  (add_order_rested b a running positive unlisted s side
                    ((trace.kept a).side ∙ side) left)
                  (safe_after _ (λ x k. ground (
                    arith,
                    contains_after b.env a s _ _ (seen_from s b v)
                        (incoming b a s v i running positive unlisted side)
                        (out b a s v i running positive unlisted side) trace
                        (swept b a s v i running positive unlisted side).valid (b.env.mem a).type
                        (ground arith)
                        (omega (
                          arith,
                          (swept b a s v i running positive unlisted side).left,
                          spec_left-le _ _ _,
                          i.word,
                        ))
                        (swept_by-Idle b a s v i running positive unlisted side) x,
                  )));
            not_given_back = (still_held a (ground arith)).0;
          }
        ]

-- For an order of a valid, safe book's pool that is not on the book and whose slot is not free, there
-- is a free list with which the book is safe behind `add_order`, on every branch, and which does not
-- have the slot of the order.
pub add_order-KeptSlot :
    (b : OrderBook) (a : ℕ) (free : List ℕ)
    → BookIsValid b
    → Submitted b a
    → BookIsSafe b free
    → contains a free ≡ false
    → a < b.env.pool.capacity
    → KeptSlot b a (add_order b (some a)).1
add_order-KeptSlot b a free v i safe off inside =
    let same : KeptSlot b a b = record { free = free; safe = safe; not_given_back = off } in
    elim (Bool-cases b.shutdown_requested) [
      | inl stopped ↦ rw (add_order_stopped b a stopped) same
      | inr running ↦ elim (Bool-cases ((b.env.mem a).remaining_quantity == 0)) [
        | inl spent ↦ rw (add_order_spent b a running spent) same
        | inr positive ↦ elim (Option-cases (lookup (b.env.mem a).id b.env.order_lookup)) [
          | inl unlisted ↦
              accepted_slot b a (b.env.mem a).side v i free safe off inside running positive
                unlisted refl
          | inr (other, taken) ↦ rw (add_order_taken b a other running positive taken) same
        ]
      ]
    ]
