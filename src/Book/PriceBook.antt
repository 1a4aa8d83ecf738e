-- ===== src/Book/PriceBook.antt =====
-- include/rtes/order_book.hpp, `FlatPriceBook<Descending>`: the levels of one side in a vector, best
-- price first. An iterator is the split of the vector at its position; a reference to a level is
-- such a split with the level taken out of the rear part.
use rtes.Prelude.{
  ℕ, Bool, true, false, List, [], ◌∷◌, ◌++◌, Option, none, some, ltb, ◌==◌, if◌then◌else◌,
}
use rtes.Book.Levels.{FlatLevel, make_level, level_empty, needs_compaction, compact}

-- The order of the levels: `level.price > target` for bids, `<` for asks.
abbrev pub before : Bool → ℕ → ℕ → Bool
before true p target = ltb target p
before false p target = ltb p target

abbrev pub best_price : List FlatLevel → ℕ
best_price [] = 0
best_price (l ∷ ls) = l.price

abbrev pub best_quantity : List FlatLevel → ℕ
best_quantity [] = 0
best_quantity (l ∷ ls) = l.total_quantity

abbrev pub book_empty : List FlatLevel → Bool
book_empty [] = true
book_empty (l ∷ ls) = false

-- `lower_bound_for`: the first level that does not stand before the price. On a sorted vector the
-- binary search of `std::lower_bound` finds that one.
pub lower_bound_for : Bool → ℕ → List FlatLevel → List FlatLevel × List FlatLevel
lower_bound_for d p [] = ([], [])
lower_bound_for d p (l ∷ ls) =
    let (front, rear) = lower_bound_for d p ls in
    if before d l.price p then (l ∷ front, rear) else ([], l ∷ ls)

-- `it != levels_.end() && it->price == p`
abbrev pub found_at : ℕ → List FlatLevel → Bool
found_at p [] = false
found_at p (l ∷ ls) = l.price == p

-- `find`: the reference of the level, or `none` for the null pointer.
unfoldable pub find :
    Bool → ℕ → List FlatLevel → Option (List FlatLevel × FlatLevel × List FlatLevel)
unfolding lower_bound_for
find d p levels =
    let (front, rear) = lower_bound_for d p levels in
    elim rear [ [] ↦ none | l ∷ ls ↦ if l.price == p then some (front, l, ls) else none ]

-- `find_or_insert`: the reference of the level, that of a new one if there is none.
unfoldable pub find_or_insert :
    Bool → ℕ → List FlatLevel → List FlatLevel × FlatLevel × List FlatLevel
unfolding lower_bound_for
find_or_insert d p levels =
    let (front, rear) = lower_bound_for d p levels in
    elim rear [
      | [] ↦ (front, make_level p, [])
      | l ∷ ls ↦ if l.price == p then (front, l, ls) else (front, make_level p, l ∷ ls)
    ]

-- A write through a reference.
abbrev pub write_level : List FlatLevel × FlatLevel × List FlatLevel → FlatLevel → List FlatLevel
write_level (front, l, rear) l' = front ++ (l' ∷ rear)

-- `remove`
unfoldable pub remove : Bool → ℕ → List FlatLevel → List FlatLevel
unfolding lower_bound_for
remove d p levels =
    let (front, rear) = lower_bound_for d p levels in
    elim rear [ [] ↦ levels | l ∷ ls ↦ if l.price == p then front ++ ls else levels ]

-- `compact_all`
unfoldable pub compact_all : List FlatLevel → List FlatLevel
unfolding compact
compact_all [] = []
compact_all (l ∷ ls) = (if needs_compaction l then compact l else l) ∷ compact_all ls

-- `prune_empty`
unfoldable pub prune_empty : List FlatLevel → List FlatLevel
prune_empty [] = []
prune_empty (l ∷ ls) = let rest = prune_empty ls in if level_empty l then rest else l ∷ rest
