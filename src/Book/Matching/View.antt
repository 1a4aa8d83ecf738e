-- ===== src/Book/Matching/View.antt =====
-- src/order_book.cpp: what the sweeps do, said of the resting orders in priority order: best level
-- first, oldest first within a level. Levels, cursors and pointers are forgotten.
use rtes.Prelude.{
  ℕ, ◌+◌, ◌-◌, ◌%◌, ◌<◌, ◌≡◌, refl, Bool, List, [], ◌∷◌, ◌++◌, arith, ◌==◌, leb, if◌then◌else◌, not,
  ◌||◌, All, All-append_left, All-append_right, ap, length, u64_mod, u32_mod,
}
use rtes.Types.Orders.{Side, Trade, is_buy}
use rtes.Book.Levels.{Memory, FlatLevel, live}
use rtes.Book.Matching.Frame.{Same}

-- An order that rests in the book, as its counterparties see it.
pub record Resting : Type 0 where
  pub order_id : ℕ
  pub price : ℕ
  pub quantity : ℕ

-- What a trade took from a resting order.
pub record Fill : Type 0 where
  pub order_id : ℕ
  pub price : ℕ
  pub quantity : ℕ

pub record Outcome : Type 0 where
  pub fills : List Fill
  pub left : ℕ
  pub rest : List Resting

-- Price-time priority: the incoming quantity is met from the front, as long as the price is good
-- enough. Only the last order that it meets can be filled in part.
unfoldable pub match_spec : (ℕ → Bool) → ℕ → List Resting → Outcome
match_spec crosses q [] = record { fills = []; left = q; rest = [] }
match_spec crosses q (r ∷ rs) =
    let later = match_spec crosses (q - r.quantity) rs in
    if (q == 0) || not (crosses r.price)
    then record { fills = []; left = q; rest = r ∷ rs }
    else if leb r.quantity q
    then record later {
      fills =
          record { order_id = r.order_id; price = r.price; quantity = r.quantity } ∷ later.fills;
    }
    else record {
      fills = record { order_id = r.order_id; price = r.price; quantity = q } ∷ [];
      left = 0;
      rest = record r { quantity = r.quantity - q } ∷ rs;
    }

-- The orders that wait at one price.
abbrev pub view_orders : Memory → ℕ → List ℕ → List Resting
view_orders mem price [] = []
view_orders mem price (p ∷ ps) =
    record { order_id = (mem p).id; price = price; quantity = (mem p).remaining_quantity }
    ∷ view_orders mem price ps

abbrev pub view : Memory → List FlatLevel → List Resting
view mem [] = []
view mem (l ∷ ls) = view_orders mem l.price (live l) ++ view mem ls

-- The pointers to the orders of one side, in priority order.
abbrev pub pointers : List FlatLevel → List ℕ
pointers [] = []
pointers (l ∷ ls) = live l ++ pointers ls

abbrev pub sum_remaining : Memory → List ℕ → ℕ
sum_remaining mem [] = 0
sum_remaining mem (p ∷ ps) = (mem p).remaining_quantity + sum_remaining mem ps

-- What a trade took from the passive order, given the side of the aggressive one.
abbrev pub fill_of : Side → Trade → Fill
fill_of s t = record {
  order_id = if is_buy s then t.sell_order_id else t.buy_order_id;
  price = t.price;
  quantity = t.quantity;
}

abbrev pub fills_of : Side → List Trade → List Fill
fills_of s [] = []
fills_of s (t ∷ ts) = fill_of s t ∷ fills_of s ts

pub fills_of-append :
    (s : Side) (ts us : List Trade) → fills_of s (ts ++ us) ≡ fills_of s ts ++ fills_of s us
fills_of-append s [] us = refl
fills_of-append s (t ∷ ts) us = ap (◌∷◌ (fill_of s t)) (fills_of-append s ts us)

-- An order that waits at `price` on the side `s`.
pub record Rests (mem : Memory) (s : Side) (price : ℕ) (p : ℕ) : Type 0 where
  pub positive : 0 < (mem p).remaining_quantity
  pub word : (mem p).remaining_quantity < u64_mod
  pub at_price : (mem p).price ≡ price
  pub on_side : (mem p).side ≡ s

-- A level holds at least one order, and its total is the sum of what they have left, as a word.
pub record LevelIsValid (mem : Memory) (s : Side) (l : FlatLevel) : Type 0 where
  pub head_in : l.head < length l.orders
  pub fits : length l.orders < u32_mod
  pub total : l.total_quantity ≡ sum_remaining mem (live l) % u64_mod
  pub resting : All (Rests mem s l.price) (live l)

abbrev pub SideIsValid : Memory → Side → List FlatLevel → Type 0
SideIsValid mem s = All (LevelIsValid mem s)

-- Each of these looks at the orders of a list alone.
pub view_orders-Same :
    (m m' : Memory) (price : ℕ) (ps : List ℕ)
    → Same m m' ps
    → view_orders m' price ps ≡ view_orders m price ps
view_orders-Same m m' price [] h = refl
view_orders-Same m m' price (p ∷ ps) h = ground (arith, view_orders-Same m m' price ps)

pub sum_remaining-Same :
    (m m' : Memory) (ps : List ℕ) → Same m m' ps → sum_remaining m' ps ≡ sum_remaining m ps
sum_remaining-Same m m' [] h = refl
sum_remaining-Same m m' (p ∷ ps) h = ground (arith, sum_remaining-Same m m' ps)

pub Rests-Same :
    (m m' : Memory) (s : Side) (price : ℕ) (ps : List ℕ)
    → Same m m' ps
    → All (Rests m s price) ps
    → All (Rests m' s price) ps
Rests-Same m m' s price [] h r = tt
Rests-Same m m' s price (p ∷ ps) h r = (ground (arith, r.0), Rests-Same m m' s price ps h.1 r.1)

pub LevelIsValid-Same :
    (m m' : Memory) (s : Side) (l : FlatLevel)
    → Same m m' (live l)
    → LevelIsValid m s l
    → LevelIsValid m' s l
LevelIsValid-Same m m' s l h v = record {
  head_in = v.head_in;
  fits = v.fits;
  total = omega (arith, v.total, sum_remaining-Same m m' (live l) h);
  resting = Rests-Same m m' s l.price (live l) h v.resting;
}

pub SideIsValid-Same :
    (m m' : Memory) (s : Side) (ls : List FlatLevel)
    → Same m m' (pointers ls)
    → SideIsValid m s ls
    → SideIsValid m' s ls
SideIsValid-Same m m' s [] h v = tt
SideIsValid-Same m m' s (l ∷ ls) h v = (
  LevelIsValid-Same m m' s l (All-append_left _ (live l) (pointers ls) h) v.0,
  SideIsValid-Same m m' s ls (All-append_right _ (live l) (pointers ls) h) v.1,
)

pub view-Same :
    (m m' : Memory) (ls : List FlatLevel) → Same m m' (pointers ls) → view m' ls ≡ view m ls
view-Same m m' [] h = refl
view-Same m m' (l ∷ ls) h = rw (
  view_orders-Same m m' l.price (live l) (All-append_left _ (live l) (pointers ls) h),
  view-Same m m' ls (All-append_right _ (live l) (pointers ls) h),
)
