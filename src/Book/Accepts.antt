-- ===== src/Book/Accepts.antt =====
-- src/order_book.cpp, `add_order`: it keeps the book valid, and trades by price-time priority.
use mathlib.Core.Path.{ap₂, subst}
use rtes.Prelude.{
  ℕ, ◌-◌, ◌≤◌, ◌<◌, ◌≡◌, refl, ◌≢◌, Bool, false, List, [], ◌∷◌, ◌++◌, none, some, arith, ◌==◌,
  contains, ◌∙◌, u64_mod, if◌then◌else◌, inl, inr, Bool-cases, Option-cases, ==_ne,
}
use rtes.Types.Orders.{Side, buy, sell, accepted}
use rtes.Errors.{Result, ok}
use rtes.Book.Lookup.{lookup}
use rtes.Book.Levels.{FlatLevel}
use rtes.Book.Matching.{Env, crosses_of}
use rtes.Book.Matching.Alike.{status-Alike, view-Alike}
use rtes.Book.Matching.View.{
  pointers, view, view-Same, match_spec, Resting, Outcome, fills_of, SideIsValid-Same,
}
use rtes.Book.Matching.Rule.{Idle, crosses_of-Stable}
use rtes.Book.Matching.Sweep.{Swept, sweep-Swept, sweep-Idle, spec_of}
use rtes.Book.Matching.Trace.{Traced, sweep-Traced}
use rtes.Book.Insertion.{Roomy, place}
use rtes.Book.Insertion.Priority.{enqueue, view-place}
use rtes.Book.{OrderBook, opposite, descending, side_of, add_order}
use rtes.Book.Invariant.{on_book, BookIsValid, SidesAreValid, SidesAreValid-swap}
use rtes.Book.Incoming.{Incoming, incoming-Ready, with_listed, own_Same}
use rtes.Book.Added.{filled-SidesAreValid, rested-SidesAreValid}
use rtes.Book.AddOrder.{
  Becomes, swept_by, add_order_stopped, add_order_spent, add_order_taken, add_order_filled,
  add_order_rested,
}

-- What the caller of `add_order` promises of the order: its quantity is a word, it stands nowhere in
-- the book, and no level is so long that its cursor would wrap.
pub record Submitted (b : OrderBook) (a : ℕ) : Type 0 where
  pub word : (b.env.mem a).remaining_quantity < u64_mod
  pub off_book : on_book a b.bids b.asks ≡ false
  pub bids_room : Roomy b.bids
  pub asks_room : Roomy b.asks

abbrev pub SideView : Side → OrderBook → Type 0
SideView s b = SidesAreValid b.env s (side_of s b) (side_of (opposite s) b)

pub seen_from : (s : Side) (b : OrderBook) → BookIsValid b → SideView s b
seen_from buy b v = v
seen_from sell b v = SidesAreValid-swap b.env buy b.bids b.asks v

pub seen_as_book : (s : Side) (b : OrderBook) → SideView s b → BookIsValid b
seen_as_book buy b v = v
seen_as_book sell b v = SidesAreValid-swap b.env sell b.asks b.bids v

pub Becomes-BookIsValid :
    (s : Side) (r : Result (Unit {0}) × OrderBook) (e : Env) (own other : List FlatLevel)
    → Becomes r s e own other
    → SidesAreValid e s own other
    → BookIsValid r.1
Becomes-BookIsValid s r e own other h v = seen_as_book s r.1 (rw (h.own_is, h.other_is, h.env_is) v)

off_side :
    (s : Side) (b : OrderBook) (a : ℕ) → Submitted b a → contains a (pointers (side_of s b)) ≡ false
off_side buy b a i = ground (arith, i.off_book)
off_side sell b a i = ground (arith, i.off_book)

room_on : (s : Side) (b : OrderBook) (a : ℕ) → Submitted b a → Roomy (side_of s b)
room_on buy b a i = i.bids_room
room_on sell b a i = i.asks_room

pub spec_left-le :
    (crosses : ℕ → Bool) (q : ℕ) (rs : List Resting) → (match_spec crosses q rs).left ≤ q
unfolding match_spec
spec_left-le crosses q [] = omega arith
spec_left-le crosses q (r ∷ rs) = ground (arith, spec_left-le crosses (q - r.quantity) rs)

-- The outcome that price-time priority gives for the order `a` of the side `s`.
abbrev pub expected : OrderBook → ℕ → Side → Outcome
expected b a s = spec_of (crosses_of (b.env.mem a).type) b.env a (side_of (opposite s) b)

-- A call of `add_order` that matched the order by price-time priority: the new trades are those of
-- `match_spec` on the other side, of which what `match_spec` leaves is left; a quantity that is left
-- over waits on the order's own side, behind all orders that are better or of its price.
pub record Prioritised (b : OrderBook) (a : ℕ) (s : Side) (r : Result (Unit {0}) × OrderBook)
    : Type 0 where
  pub accepted_is : r.0 ≡ ok tt
  pub fills : fills_of s r.1.env.trades ≡ fills_of s b.env.trades ++ (expected b a s).fills
  pub other_side : view r.1.env.mem (side_of (opposite s) r.1) ≡ (expected b a s).rest
  pub own_side : view r.1.env.mem (side_of s r.1) ≡ (
      if (expected b a s).left == 0
      then view b.env.mem (side_of s b)
      else enqueue
          (descending s)
          (record {
            order_id = (b.env.mem a).id;
            price = (b.env.mem a).price;
            quantity = (expected b a s).left;
          })
          (view b.env.mem (side_of s b)))

-- What `add_order` does with an order that passes its checks.
module _ (b : OrderBook) (a : ℕ) (s : Side) (v : BookIsValid b) (i : Submitted b a)
    (running : b.shutdown_requested ≡ false)
    (positive : ((b.env.mem a).remaining_quantity == 0) ≡ false)
    (unlisted : lookup (b.env.mem a).id b.env.order_lookup ≡ none)
    (side : (b.env.mem a).side ≡ s) where
  abbrev pub out : Env × List FlatLevel
  out = swept_by b a s

  pub incoming : Incoming b.env a s (side_of s b) (side_of (opposite s) b)
  incoming = record {
    on_side = side;
    positive = ground arith;
    word = i.word;
    off_own = off_side s b a i;
    off_other = off_side (opposite s) b a i;
    unlisted = unlisted;
    room = room_on s b a i;
  }

  pub traced : Traced (with_listed b.env a) a (side_of (opposite s) b) out
  traced =
      sweep-Traced _ _ _ _ a (opposite s) _
        (incoming-Ready b.env a s _ _ (seen_from s b v) incoming) (omega arith)

  pub swept :
      Swept
        (crosses_of (b.env.mem a).type)
        (with_listed b.env a)
        a
        (opposite s)
        (side_of (opposite s) b)
        out
  swept =
      sweep-Swept _ (crosses_of-Stable (b.env.mem a).type) _ _ _ a (opposite s) _
        (incoming-Ready b.env a s _ _ (seen_from s b v) incoming) (omega arith)

  -- The sweep that `add_order` makes for an order that passes its checks ends by its own condition: the
  -- other side is empty, or the order is filled or does not cross the best price.
  pub swept_by-Idle : Idle (crosses_of (b.env.mem a).type) out.0 a out.1
  swept_by-Idle =
      sweep-Idle _ _ _ _ a (opposite s) _ (incoming-Ready b.env a s _ _ (seen_from s b v) incoming)
        (omega arith)

  accepted-BookIsValid : BookIsValid (add_order b (some a)).1
  accepted-BookIsValid = elim (Bool-cases ((out.0.mem a).remaining_quantity == 0)) [
    | inl filled ↦
        Becomes-BookIsValid s _ _ _ _
          (add_order_filled b a running positive unlisted s side (ground arith))
          (rw ((traced.kept a).id)
            (filled-SidesAreValid b.env a s _ _ (seen_from s b v) incoming out traced swept.valid))
    | inr left ↦
        Becomes-BookIsValid s _ _ _ _
          (add_order_rested b a running positive unlisted s side ((traced.kept a).side ∙ side) left)
          (rested-SidesAreValid b.env a s _ _ (seen_from s b v) incoming out traced swept.valid
            (b.env.mem a).type (ground arith)
            (omega (arith, swept.left, spec_left-le _ _ _, i.word)) swept_by-Idle)
  ]

  own_view : view out.0.mem (side_of s b) ≡ view b.env.mem (side_of s b)
  own_view =
      view-Same b.env.mem out.0.mem (side_of s b)
        (own_Same b.env a s _ _ (seen_from s b v) incoming out traced)

  filled-Prioritised :
      (out.0.mem a).remaining_quantity ≡ 0 → Prioritised b a s (add_order b (some a))
  filled-Prioritised filled =
      let h = add_order_filled b a running positive unlisted s side filled in
      let none_left : (expected b a s).left ≡ 0 = omega (arith, swept.left) in
      record {
        accepted_is = h.accepted_is;
        fills = rw (h.env_is) (
            subst (λ z. fills_of z out.0.trades ≡ fills_of z b.env.trades ++ (expected b a s).fills)
              side swept.fills);
        other_side = rw (h.other_is, h.env_is) swept.rest;
        own_side = rw (h.own_is, h.env_is, none_left) own_view;
      }

  rested-Prioritised :
      ((out.0.mem a).remaining_quantity == 0) ≡ false → Prioritised b a s (add_order b (some a))
  rested-Prioritised left =
      let h =
        add_order_rested b a running positive unlisted s side ((traced.kept a).side ∙ side) left in
      let some_left : ((expected b a s).left == 0) ≡ false = rw (← swept.left) left in
      let alike = status-Alike out.0.mem a accepted in
      record {
        accepted_is = h.accepted_is;
        fills = rw (h.env_is) (
            subst (λ z. fills_of z out.0.trades ≡ fills_of z b.env.trades ++ (expected b a s).fills)
              side swept.fills);
        other_side = rw (h.other_is, h.env_is) (view-Alike out.0.mem _ alike out.1 ∙ swept.rest);
        own_side =
            rw (h.own_is, h.env_is, some_left)
              (view-Alike out.0.mem _ alike
                  (place (descending s) out.0.mem (out.0.mem a).price a (side_of s b))
                ∙ view-place (descending s) out.0.mem (out.0.mem a).price a s (side_of s b)
                    (SideIsValid-Same b.env.mem out.0.mem s (side_of s b)
                      (own_Same b.env a s _ _ (seen_from s b v) incoming out traced)
                      (seen_from s b v).own_valid)
                    (seen_from s b v).own_sorted
                ∙ ap₂ (enqueue (descending s)) (ground (arith, traced.kept a, swept.left))
                    own_view);
      }

  pub accepted-Prioritised : Prioritised b a s (add_order b (some a))
  accepted-Prioritised = elim (Bool-cases ((out.0.mem a).remaining_quantity == 0)) [
    | inl filled ↦ filled-Prioritised (ground arith)
    | inr left ↦ rested-Prioritised left
  ]

-- On a valid book every call of `add_order` with a submitted order leaves a valid book: sorted sides
-- without empty levels, exact totals, a lookup map of exactly the orders on the book, and no bid that
-- reaches an ask.
pub add_order-BookIsValid :
    (b : OrderBook) (a : ℕ) → BookIsValid b → Submitted b a → BookIsValid (add_order b (some a)).1
add_order-BookIsValid b a v i = elim (Bool-cases b.shutdown_requested) [
  | inl stopped ↦ rw (add_order_stopped b a stopped) v
  | inr running ↦ elim (Bool-cases ((b.env.mem a).remaining_quantity == 0)) [
    | inl spent ↦ rw (add_order_spent b a running spent) v
    | inr positive ↦ elim (Option-cases (lookup (b.env.mem a).id b.env.order_lookup)) [
      | inl unlisted ↦
          accepted-BookIsValid b a (b.env.mem a).side v i running positive unlisted refl
      | inr (other, taken) ↦ rw (add_order_taken b a other running positive taken) v
    ]
  ]
]

-- On a valid book that is not shut down, `add_order` of a submitted order that has a quantity and an
-- identifier that is not listed succeeds and matches by price-time priority: the trades, what is left
-- of the other side, and the orders on its own side are those of the reference matching.
pub add_order-Prioritised :
    (b : OrderBook) (a : ℕ)
    → BookIsValid b
    → Submitted b a
    → b.shutdown_requested ≡ false
    → (b.env.mem a).remaining_quantity ≢ 0
    → lookup (b.env.mem a).id b.env.order_lookup ≡ none
    → Prioritised b a (b.env.mem a).side (add_order b (some a))
add_order-Prioritised b a v i running positive unlisted =
    accepted-Prioritised b a (b.env.mem a).side v i running (==_ne _ 0 positive) unlisted refl
