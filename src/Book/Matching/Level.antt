-- ===== src/Book/Matching/Level.antt =====
-- src/order_book.cpp: the best level after one round of a sweep, in the view of its counterparties.
use rtes.Prelude.{ℕ, ◌+◌, ◌-◌, ◌%◌, ◌<◌, ◌≡◌, List, [], ◌∷◌, ◌++◌, arith, All, length, u64_mod}
use rtes.Types.Orders.{Side}
use rtes.Book.Levels.{Memory, FlatLevel, live, pop_front, reduce_quantity}
use rtes.Book.Matching.Frame.{Same, Kept}
use rtes.Book.Matching.View.{
  view, view_orders, pointers, sum_remaining, Rests, LevelIsValid, SideIsValid, view_orders-Same,
  sum_remaining-Same, Rests-Same, SideIsValid-Same, view-Same,
}
use rtes.Book.Matching.Step.{after_pop, live-pop_front, length-live}

-- The prices of the levels, best first.
abbrev pub prices : List FlatLevel → List ℕ
prices [] = []
prices (l ∷ ls) = l.price ∷ prices ls

after_pop-All {κ} :
    (P : FlatLevel → Type κ) (l : FlatLevel) (q : ℕ) (ps : List ℕ) (ls : List FlatLevel)
    → (0 < length ps → P (pop_front l q))
    → All P ls
    → All P (after_pop l q ps ls)
after_pop-All P l q [] ls h k = k
after_pop-All P l q (x ∷ ps) ls h k = (h (omega arith), k)

module _ (m m' : Memory) (s : Side) (l : FlatLevel) (ls : List FlatLevel) (p : ℕ) (ps : List ℕ)
    (head_is : live l ≡ p ∷ ps) (v : LevelIsValid m s l) (vs : SideIsValid m s ls)
    (same : Same m m' ps) (same_rest : Same m m' (pointers ls)) where
  -- The first order of the level is the one that was filled.
  pub pointers-after_pop : (q : ℕ) → pointers (after_pop l q ps ls) ≡ ps ++ pointers ls
  pointers-after_pop q = ground (arith, live-pop_front l p ps head_is q v.fits)

  pub view-after_pop :
      (q : ℕ) → view m' (after_pop l q ps ls) ≡ view_orders m l.price ps ++ view m ls
  unfolding pop_front
  view-after_pop q = ground (
    arith,
    live-pop_front l p ps head_is q v.fits,
    view_orders-Same m m' l.price ps same,
    view-Same m m' ls same_rest,
  )

  total-pop_front :
      (q : ℕ)
      → (m p).remaining_quantity ≡ q
      → (pop_front l q).total_quantity ≡ sum_remaining m' ps % u64_mod
  unfolding pop_front
  total-pop_front q e =
      let t : l.total_quantity ≡ (q + sum_remaining m ps) % u64_mod = ground (arith, v.total) in
      let w : q < u64_mod = ground (arith, v.resting) in
      omega (arith, sum_remaining-Same m m' ps same)

  pop_front-LevelIsValid :
      (q : ℕ) → (m p).remaining_quantity ≡ q → 0 < length ps → LevelIsValid m' s (pop_front l q)
  pop_front-LevelIsValid q e h =
      let live_is : live (pop_front l q) ≡ ps = live-pop_front l p ps head_is q v.fits in
      let all : All (Rests m s l.price) (p ∷ ps) = rw head_is at v.resting in
      record {
        head_in = unfold pop_front in omega (arith, length-live l p ps head_is, v.fits);
        fits = unfold pop_front in v.fits;
        total = rw live_is (total-pop_front q e);
        resting = rw live_is (unfold pop_front in Rests-Same m m' s l.price ps same all.1);
      }

  pub after_pop-SideIsValid :
      (q : ℕ) → (m p).remaining_quantity ≡ q → SideIsValid m' s (after_pop l q ps ls)
  after_pop-SideIsValid q e =
      after_pop-All (LevelIsValid m' s) l q ps ls (pop_front-LevelIsValid q e)
        (SideIsValid-Same m m' s ls same_rest vs)

-- The first order of the level is filled in part.
module _ (m m' : Memory) (s : Side) (l : FlatLevel) (ls : List FlatLevel) (p : ℕ) (ps : List ℕ)
    (head_is : live l ≡ p ∷ ps) (v : LevelIsValid m s l) (same : Same m m' ps)
    (kept : Kept (m p) (m' p)) (q : ℕ) (less : q < (m p).remaining_quantity)
    (left : (m' p).remaining_quantity ≡ (m p).remaining_quantity - q) where
  pub view_orders-reduced :
      view_orders m' (reduce_quantity l q).price (live (reduce_quantity l q))
      ≡ record { order_id = (m p).id; price = l.price; quantity = (m p).remaining_quantity - q }
        ∷ view_orders m l.price ps
  unfolding reduce_quantity
  view_orders-reduced = rw head_is (ground (arith, view_orders-Same m m' l.price ps same))

  pub reduced-LevelIsValid : LevelIsValid m' s (reduce_quantity l q)
  unfolding reduce_quantity
  reduced-LevelIsValid =
      let all : All (Rests m s l.price) (p ∷ ps) = rw head_is at v.resting in
      let t : l.total_quantity ≡ ((m p).remaining_quantity + sum_remaining m ps) % u64_mod =
        ground (arith, v.total) in
      let w : (m p).remaining_quantity < u64_mod = all.0.word in
      record {
        head_in = v.head_in;
        fits = v.fits;
        total = rw head_is (omega (arith, sum_remaining-Same m m' ps same));
        resting = rw head_is (ground (arith, all.0), Rests-Same m m' s l.price ps same all.1);
      }
