-- ===== src/Book/Returned.antt =====
-- src/order_book.cpp with include/rtes/memory_pool.hpp: `cancel_order` gives back the slot of the order
-- that it finds.
use rtes.Prelude.{
  ℕ, ◌≡◌, refl, true, false, List, ◌∷◌, Option, none, some, arith, ◌==◌, ◌∙◌, if◌then◌else◌, inl,
  inr, Bool-cases, Option-cases,
}
use rtes.Types.Orders.{Side}
use rtes.Pool.FreeList.{deallocate-IsValid}
use rtes.Book.Lookup.{lookup}
use rtes.Book.{OrderBook, opposite, side_of, cancel_order}
use rtes.Book.Invariant.{on_book, BookIsValid}
use rtes.Book.Accepts.{seen_from}
use rtes.Book.Cancels.{
  cancel_order_stopped, cancel_order_unknown, cancel_order_found, cancelled_env, own_pointers,
  own_left, on_own,
}
use rtes.Book.Slots.{SlotsAreSafe, BookIsSafe, Becomes-safe, on_book-swap, capacity-deallocate}

abbrev pub with_found : List ℕ → Option ℕ → List ℕ
with_found free none = free
with_found free (some p) = p ∷ free

-- The free list behind `cancel_order`.
unfoldable pub freed_by : OrderBook → ℕ → List ℕ → List ℕ
freed_by b id free =
    if b.shutdown_requested then free else with_found free (lookup id b.env.order_lookup)

module _ (b : OrderBook) (id : ℕ) (free : List ℕ) where
  freed_by_stopped : b.shutdown_requested ≡ true → freed_by b id free ≡ free
  unfolding freed_by
  freed_by_stopped h = ground arith

  freed_by_unknown :
      b.shutdown_requested ≡ false → lookup id b.env.order_lookup ≡ none → freed_by b id free ≡ free
  unfolding freed_by
  freed_by_unknown h k = ground arith

  freed_by_found :
      (p : ℕ)
      → b.shutdown_requested ≡ false
      → lookup id b.env.order_lookup ≡ some p
      → freed_by b id free ≡ p ∷ free
  unfolding freed_by
  freed_by_found p h k = ground arith

left_behind :
    (b : OrderBook) (id p : ℕ) (s : Side) (v : BookIsValid b)
    (listed : lookup id b.env.order_lookup ≡ some p) (side : (b.env.mem p).side ≡ s) (x : ℕ)
    → on_book x
        (own_left b.env s (side_of s b) (side_of (opposite s) b) (seen_from s b v) id p listed side)
        (side_of (opposite s) b)
      ≡ true
    → ((p == x) ≡ false) × (on_book x b.bids b.asks ≡ true)
left_behind b id p s v listed side x k =
    let on = on_own b.env s _ _ (seen_from s b v) id p listed side in
    let own_is = own_pointers b.env s _ _ (seen_from s b v) id p listed side x in
    let apart = (seen_from s b v).disjoint p on in
    (ground (arith, own_is, apart, k), on_book-swap s x b ∙ ground (arith, own_is, k))

found_slot :
    (b : OrderBook) (id : ℕ) (s : Side)
    → BookIsValid b
    → (free : List ℕ) → BookIsSafe b free
    → b.shutdown_requested ≡ false
    → (p : ℕ) → lookup id b.env.order_lookup ≡ some p
    → (b.env.mem p).side ≡ s
    → BookIsSafe (cancel_order b id).1 (freed_by b id free)
found_slot b id s v free safe running p listed side =
    let on = on_own b.env s _ _ (seen_from s b v) id p listed side in
    let (off, inside) = safe.held p (on_book-swap s p b ∙ ground (arith, on)) in
    let next : SlotsAreSafe (cancelled_env b.env id p).pool _ (side_of (opposite s) b) (p ∷ free) =
      record {
        pool_valid = deallocate-IsValid b.env.pool p free safe.pool_valid inside off;
        held = λ x k.
            let (differs, was) = left_behind b id p s v listed side x k in
            let (off_x, in_x) = safe.held x was in
            (ground (arith, off_x, differs), omega (arith, in_x, capacity-deallocate b.env.pool p));
      } in
    rw (freed_by_found b id free p running listed)
      (Becomes-safe s _ _ _ _ (p ∷ free) (cancel_order_found b id s p running listed side) next)

-- On a valid and safe book `cancel_order` leaves a safe book, whose free list has the slot of the order
-- it found in front, and is unchanged where it found none or the book is shut down.
pub cancel_order-BookIsSafe :
    (b : OrderBook) (id : ℕ) (free : List ℕ)
    → BookIsValid b
    → BookIsSafe b free
    → BookIsSafe (cancel_order b id).1 (freed_by b id free)
cancel_order-BookIsSafe b id free v safe = elim (Bool-cases b.shutdown_requested) [
  | inl stopped ↦ rw (cancel_order_stopped b id stopped, freed_by_stopped b id free stopped) safe
  | inr running ↦ elim (Option-cases (lookup id b.env.order_lookup)) [
    | inl unknown ↦
        rw (cancel_order_unknown b id running unknown, freed_by_unknown b id free running unknown)
          safe
    | inr (p, listed) ↦ found_slot b id (b.env.mem p).side v free safe running p listed refl
  ]
]
