-- ===== src/Book/Levels.antt =====
-- include/rtes/order_book.hpp, `FlatLevel`: the queue of one price, a vector of order pointers with
-- a cursor. A pointer is the index of the order's slot in the pool.
use rtes.Prelude.{
  ℕ, Bool, List, [], ◌∷◌, ◌++◌, Option, ltb, leb, ◌==◌, if◌then◌else◌, length, get_elem?, drop,
  add64, sub64, add32,
}
use rtes.Types.Orders.{Order}

-- The orders of the pool, by slot: what a pointer points to.
abbrev pub Memory : Type 0
Memory = ℕ → Order

-- `COMPACT_THRESHOLD`
abbrev pub compact_threshold : ℕ
compact_threshold = 64

pub record FlatLevel : Type 0 where
  pub price : ℕ
  pub total_quantity : ℕ
  pub head : ℕ
  pub orders : List ℕ

-- `FlatLevel(Price)`
abbrev pub make_level : ℕ → FlatLevel
make_level p = record { price = p; total_quantity = 0; head = 0; orders = [] }

-- `push_back`
unfoldable pub push_back : Memory → FlatLevel → ℕ → FlatLevel
push_back mem l o = record l {
  orders = l.orders ++ (o ∷ []);
  total_quantity = add64 l.total_quantity (mem o).remaining_quantity;
}

-- `front`: `none` is a read past the end, which the assertion excludes.
abbrev pub front : FlatLevel → Option ℕ
front l = get_elem? l.orders l.head

-- `pop_front`: `head_` is a 32-bit word.
unfoldable pub pop_front : FlatLevel → ℕ → FlatLevel
pop_front l filled_qty = record l {
  total_quantity = sub64 l.total_quantity filled_qty;
  head = add32 l.head 1;
}

unfoldable pub reduce_quantity : FlatLevel → ℕ → FlatLevel
reduce_quantity l qty = record l { total_quantity = sub64 l.total_quantity qty }

-- `empty`
abbrev pub level_empty : FlatLevel → Bool
level_empty l = leb (length l.orders) l.head

-- `size`
abbrev pub level_size : FlatLevel → ℕ
level_size l = sub64 (length l.orders) l.head

abbrev pub needs_compaction : FlatLevel → Bool
needs_compaction l = ltb compact_threshold l.head

unfoldable pub compact : FlatLevel → FlatLevel
compact l = if l.head == 0 then l else record l { orders = drop l.head l.orders; head = 0 }

-- The live orders of a level, oldest first.
abbrev pub live : FlatLevel → List ℕ
live l = drop l.head l.orders
