-- ===== src/Book/Matching/Alike.antt =====
-- src/order_book.cpp: a change of an order's status alone changes nothing that the book looks at.
use rtes.Prelude.{ℕ, ◌≡◌, refl, List, [], ◌∷◌, arith, All}
use rtes.Types.Orders.{Side, Order, OrderStatus}
use rtes.Book.Levels.{Memory, FlatLevel, live}
use rtes.Book.Matching.{modify, set_status}
use rtes.Book.Matching.View.{view, view_orders, sum_remaining, Rests, SideIsValid}

-- Orders that differ in their status at most.
pub record Alike (o o' : Order) : Type 0 where
  pub id : o'.id ≡ o.id
  pub price : o'.price ≡ o.price
  pub side : o'.side ≡ o.side
  pub remaining : o'.remaining_quantity ≡ o.remaining_quantity

pub status-Alike :
    (m : Memory) (a : ℕ) (st : OrderStatus) (x : ℕ) → Alike (m x) (modify m a (set_status st) x)
status-Alike m a st x = ground arith

module _ (m m' : Memory) (alike : (x : ℕ) → Alike (m x) (m' x)) where
  sum-Alike : (ps : List ℕ) → sum_remaining m' ps ≡ sum_remaining m ps
  sum-Alike [] = refl
  sum-Alike (p ∷ ps) = ground (arith, alike p, sum-Alike ps)

  Rests-Alike :
      (s : Side) (price : ℕ) (ps : List ℕ) → All (Rests m s price) ps → All (Rests m' s price) ps
  Rests-Alike s price [] r = tt
  Rests-Alike s price (p ∷ ps) r = (ground (arith, alike p, r.0), Rests-Alike s price ps r.1)

  pub SideIsValid-Alike :
      (s : Side) (ls : List FlatLevel) → SideIsValid m s ls → SideIsValid m' s ls
  SideIsValid-Alike s [] v = tt
  SideIsValid-Alike s (l ∷ ls) v = (
    record {
      head_in = v.0.head_in;
      fits = v.0.fits;
      total = omega (arith, v.0.total, sum-Alike (live l));
      resting = Rests-Alike s l.price (live l) v.0.resting;
    },
    SideIsValid-Alike s ls v.1,
  )

  view_orders-Alike : (price : ℕ) (ps : List ℕ) → view_orders m' price ps ≡ view_orders m price ps
  view_orders-Alike price [] = refl
  view_orders-Alike price (p ∷ ps) = ground (arith, alike p, view_orders-Alike price ps)

  pub view-Alike : (ls : List FlatLevel) → view m' ls ≡ view m ls
  view-Alike [] = refl
  view-Alike (l ∷ ls) = rw (view_orders-Alike l.price (live l), view-Alike ls)
