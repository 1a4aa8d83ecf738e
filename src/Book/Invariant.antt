-- ===== src/Book/Invariant.antt =====
-- src/order_book.cpp, `OrderBook`: the representation invariant of the two sides and the lookup map.
use rtes.Prelude.{
  ℕ, ◌≡◌, refl, Bool, true, false, List, [], ◌∷◌, some, arith, sym, contains, All, ◌∙◌, ◌||◌,
  Distinct,
}
use rtes.Types.Orders.{Side, buy, sell}
use rtes.Book.Lookup.{lookup}
use rtes.Book.Levels.{FlatLevel}
use rtes.Book.PriceBook.{before}
use rtes.Book.Matching.{Env}
use rtes.Book.Matching.View.{pointers, SideIsValid}
use rtes.Book.Matching.Level.{prices}
use rtes.Book.Insertion.{Sorted}
use rtes.Book.{OrderBook, opposite, descending}

-- `x` is a pointer on one of the two sides.
abbrev pub on_book : ℕ → List FlatLevel → List FlatLevel → Bool
on_book x own other = contains x (pointers own) || contains x (pointers other)

-- No price of one side reaches a price of the other: every bid is below every ask.
abbrev pub Uncrossed : Side → List ℕ → List ℕ → Type 0
Uncrossed s own other = All (λ x. All (λ y. before (descending (opposite s)) x y ≡ true) other) own

-- The two sides as an order of the side `s` meets them. Each side is sorted and valid, no order
-- stands twice, the lookup map lists exactly the orders of the book, and the prices do not cross.
pub record SidesAreValid (e : Env) (s : Side) (own other : List FlatLevel) : Type 0 where
  pub own_valid : SideIsValid e.mem s own
  pub other_valid : SideIsValid e.mem (opposite s) other
  pub own_sorted : Sorted (descending s) (prices own)
  pub other_sorted : Sorted (descending (opposite s)) (prices other)
  pub own_distinct : Distinct (pointers own)
  pub other_distinct : Distinct (pointers other)
  pub disjoint : (x : ℕ) → contains x (pointers own) ≡ true → contains x (pointers other) ≡ false
  pub listed : (x : ℕ) → on_book x own other ≡ true → lookup (e.mem x).id e.order_lookup ≡ some x
  pub known :
      (id x : ℕ)
      → lookup id e.order_lookup ≡ some x
      → (on_book x own other ≡ true) × ((e.mem x).id ≡ id)
  pub uncrossed : Uncrossed s (prices own) (prices other)

abbrev pub BookIsValid : OrderBook → Type 0
BookIsValid b = SidesAreValid b.env buy b.bids b.asks

before_flip :
    (s : Side) (x y : ℕ) → before (descending (opposite s)) x y ≡ before (descending s) y x
before_flip buy x y = refl
before_flip sell x y = refl

-- All pairs, in the other order.
Uncrossed-row :
    (s : Side) (y : ℕ) (own other : List ℕ)
    → Uncrossed s own (y ∷ other)
    → All (λ x. before (descending s) y x ≡ true) own
Uncrossed-row s y [] other h = tt
Uncrossed-row s y (x ∷ own) other h =
    (sym (before_flip s x y) ∙ h.0.0, Uncrossed-row s y own other h.1)

Uncrossed-later :
    (s : Side) (y : ℕ) (own other : List ℕ) → Uncrossed s own (y ∷ other) → Uncrossed s own other
Uncrossed-later s y [] other h = tt
Uncrossed-later s y (x ∷ own) other h = (h.0.1, Uncrossed-later s y own other h.1)

opposite-opposite : (s : Side) → opposite (opposite s) ≡ s
opposite-opposite buy = refl
opposite-opposite sell = refl

pub Uncrossed-swap :
    (s : Side) (own other : List ℕ) → Uncrossed s own other → Uncrossed (opposite s) other own
Uncrossed-swap s own [] h = tt
Uncrossed-swap s own (y ∷ other) h = (
  rw (opposite-opposite s) (Uncrossed-row s y own other h),
  Uncrossed-swap s own other (Uncrossed-later s y own other h),
)

-- The invariant does not depend on the side from which the book is seen.
pub SidesAreValid-swap :
    (e : Env) (s : Side) (own other : List FlatLevel)
    → SidesAreValid e s own other
    → SidesAreValid e (opposite s) other own
SidesAreValid-swap e s own other v = record {
  own_valid = v.other_valid;
  other_valid = rw (opposite-opposite s) v.own_valid;
  own_sorted = v.other_sorted;
  other_sorted = rw (opposite-opposite s) v.own_sorted;
  own_distinct = v.other_distinct;
  other_distinct = v.own_distinct;
  disjoint = λ x h. ground (arith, v.disjoint x);
  listed = λ x h. v.listed x (ground arith);
  known = λ id x h. ground (arith, v.known id x h);
  uncrossed = Uncrossed-swap s (prices own) (prices other) v.uncrossed;
}
