-- ===== src/Book/Matching/Step.antt =====
-- src/order_book.cpp: one round of a sweep, by cases: the passive order is filled, or it is not.
use rtes.Prelude.{
  ℕ, suc, ◌+◌, ◌≤◌, ◌<◌, ◌≡◌, ◌≢◌, Bool, true, false, List, [], ◌∷◌, arith, some, add32, ap, length,
  u64_mod, u32_mod, get_elem?-eq_of_drop, length-drop, drop-eq_of_get,
}
use rtes.Book.Levels.{FlatLevel, live, front, pop_front, reduce_quantity}
use rtes.Book.PriceBook.{remove}
use rtes.Book.Matching.{Env, execute_trade, release_filled, fill_best}
use rtes.Book.Matching.Frame.{traded_passive}

-- The first level stands before no level of its own price, so the search finds it.
pub remove_first : (d : Bool) (l : FlatLevel) (ls : List FlatLevel) → remove d l.price (l ∷ ls) ≡ ls
unfolding remove
remove_first true l ls = ground arith
remove_first false l ls = ground arith

-- What is left of the best level once its first order is filled.
abbrev pub after_pop : FlatLevel → ℕ → List ℕ → List FlatLevel → List FlatLevel
after_pop l qty [] ls = ls
after_pop l qty (q ∷ ps) ls = pop_front l qty ∷ ls

module _ (l : FlatLevel) (p : ℕ) (ps : List ℕ) (head_is : live l ≡ p ∷ ps) where
  pub front_lem : front l ≡ some p
  front_lem = get_elem?-eq_of_drop l.head l.orders p ps head_is

  pub length-live : length l.orders ≡ l.head + suc (length ps)
  length-live = ground (arith, length-drop l.head l.orders, ap length head_is)

  pub live-pop_front : (qty : ℕ) → length l.orders < u32_mod → live (pop_front l qty) ≡ ps
  unfolding pop_front
  live-pop_front qty fits =
      let e : add32 l.head 1 ≡ suc l.head = omega (arith, length-live) in
      rw e (ground (arith, drop-eq_of_get l.head l.orders p front_lem))

module _ (d : Bool) (e : Env) (a : ℕ) (l : FlatLevel) (ls : List FlatLevel) (p : ℕ) (ps : List ℕ)
    (head_is : live l ≡ p ∷ ps) (apart : a ≢ p) (fits : length l.orders < u32_mod)
    (word : (e.mem p).remaining_quantity < u64_mod) where
  pub fill_partial :
      (q : ℕ)
      → (e.mem a).remaining_quantity ≡ q
      → q < (e.mem p).remaining_quantity
      → fill_best d e a l ls ≡ (execute_trade e a p q l.price, reduce_quantity l q ∷ ls)
  unfolding fill_best reduce_quantity
  fill_partial q same h = ground (
    arith,
    front_lem l p ps head_is,
    length-live l p ps head_is,
    traded_passive e a p q l.price apart,
  )

  pub fill_full :
      (q : ℕ)
      → (e.mem p).remaining_quantity ≡ q
      → q ≤ (e.mem a).remaining_quantity
      → fill_best d e a l ls
        ≡ (release_filled (execute_trade e a p q l.price) p, after_pop l q ps ls)
  unfolding fill_best pop_front
  fill_full q same h = ground (
    arith,
    front_lem l p ps head_is,
    length-live l p ps head_is,
    traded_passive e a p q l.price apart,
    remove_first d (pop_front l q) ls,
  )
