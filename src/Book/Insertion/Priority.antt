-- ===== src/Book/Insertion/Priority.antt =====
-- src/order_book.cpp, `add_to_book`: a new order gets its place by price, and by time within it.
use mathlib.Core.List.{append_assoc}
use rtes.Prelude.{
  ℕ, ◌≤◌, ◌≡◌, refl, Bool, true, false, List, [], ◌∷◌, ◌++◌, arith, sym, All, drop-append, All-map,
  ap, length, if◌then◌else◌, ◌∙◌,
}
use rtes.Types.Orders.{Side}
use rtes.Book.Levels.{Memory, FlatLevel, live, push_back}
use rtes.Book.PriceBook.{before}
use rtes.Book.Matching.View.{Resting, view, view_orders, pointers, SideIsValid}
use rtes.Book.Matching.Level.{prices}
use rtes.Book.Insertion.{place, place_cases, live-push_back, Sorted, before_irrefl, before_trans}
use rtes.Book.Matching.Rule.{live-cons}

-- The pointers of a side, with one more somewhere.
pub record Inserted (o : ℕ) (old new : List ℕ) : Type 0 where
  pub earlier : List ℕ
  pub later : List ℕ
  pub old_is : old ≡ earlier ++ later
  pub new_is : new ≡ earlier ++ (o ∷ later)

Inserted-behind :
    (o : ℕ) (xs old new : List ℕ) → Inserted o old new → Inserted o (xs ++ old) (xs ++ new)
Inserted-behind o xs old new h = record {
  earlier = xs ++ h.earlier;
  later = h.later;
  old_is = rw h.old_is (sym (append_assoc xs h.earlier h.later));
  new_is = rw h.new_is (sym (append_assoc xs h.earlier (o ∷ h.later)));
}

pub place-Inserted :
    (d : Bool) (m : Memory) (p o : ℕ) (s : Side) (ls : List FlatLevel)
    → SideIsValid m s ls
    → Inserted o (pointers ls) (pointers (place d m p o ls))
place-Inserted d m p o s [] v =
    unfold place push_back in record { earlier = []; later = []; old_is = refl; new_is = refl }
place-Inserted d m p o s (l ∷ ls) v =
    place_cases d m p o (λ xs. Inserted o (pointers (l ∷ ls)) (pointers xs)) l ls
      (λ _. Inserted-behind o (live l) _ _ (place-Inserted d m p o s ls v.1))
      (λ _. record {
        earlier = live l;
        later = pointers ls;
        old_is = refl;
        new_is =
            rw (live-push_back d m p o l (omega (arith, v.0.head_in)))
              (append_assoc (live l) (o ∷ []) (pointers ls));
      })
      (λ _.
        unfold push_back in
        record { earlier = []; later = pointers (l ∷ ls); old_is = refl; new_is = refl })

-- A resting order takes its place behind all that are better or of its own price.
unfoldable pub enqueue : Bool → Resting → List Resting → List Resting
enqueue d r [] = r ∷ []
enqueue d r (q ∷ qs) =
    let behind = q ∷ enqueue d r qs in if before d r.price q.price then r ∷ q ∷ qs else behind

abbrev resting_of : Memory → ℕ → ℕ → Resting
resting_of m p o = record { order_id = (m o).id; price = p; quantity = (m o).remaining_quantity }

enqueue-level :
    (d : Bool) (m : Memory) (r : Resting) (price : ℕ) (ps : List ℕ) (rs : List Resting)
    → before d r.price price ≡ false
    → enqueue d r (view_orders m price ps ++ rs) ≡ view_orders m price ps ++ enqueue d r rs
unfolding enqueue
enqueue-level d m r price [] rs h = refl
enqueue-level d m r price (p ∷ ps) rs h = ground (arith, enqueue-level d m r price ps rs h)

-- In front of what is worse.
enqueue-front :
    (d : Bool) (m : Memory) (r : Resting) (s : Side) (ls : List FlatLevel)
    → SideIsValid m s ls
    → All (λ y. before d r.price y ≡ true) (prices ls)
    → enqueue d r (view m ls) ≡ r ∷ view m ls
enqueue-front d m r s [] v h = unfold enqueue in refl
enqueue-front d m r s (l ∷ ls) v h =
    let (p, ps, is) = live-cons m s l v.0 in rw is (unfold enqueue in rw (h.0))

view_orders-snoc :
    (m : Memory) (price o : ℕ) (ps : List ℕ) (rs : List Resting)
    → view_orders m price (ps ++ (o ∷ [])) ++ rs
      ≡ view_orders m price ps ++ (resting_of m price o ∷ rs)
view_orders-snoc m price o [] rs = refl
view_orders-snoc m price o (p ∷ ps) rs = ground (arith, view_orders-snoc m price o ps rs)

view-push_back :
    (m : Memory) (l : FlatLevel) (o : ℕ) (rs : List Resting)
    → l.head ≤ length l.orders
    → view_orders m (push_back m l o).price (live (push_back m l o)) ++ rs
      ≡ view_orders m l.price (live l) ++ (resting_of m l.price o ∷ rs)
unfolding push_back
view-push_back m l o rs h =
    rw (drop-append l.head l.orders (o ∷ []) h) (view_orders-snoc m l.price o (live l) rs)

before_asym : (d : Bool) (x y : ℕ) → before d x y ≡ true → before d y x ≡ false
before_asym true x y h = ground arith
before_asym false x y h = ground arith

-- A new order comes to rest behind every order of a better price or of its own, and before all
-- others, whose places it leaves as they are.
pub view-place :
    (d : Bool) (m : Memory) (p o : ℕ) (s : Side) (ls : List FlatLevel)
    → SideIsValid m s ls
    → Sorted d (prices ls)
    → view m (place d m p o ls) ≡ enqueue d (resting_of m p o) (view m ls)
view-place d m p o s [] v h = unfold place push_back enqueue in refl
view-place d m p o s (l ∷ ls) v h =
    place_cases d m p o (λ xs. view m xs ≡ enqueue d (resting_of m p o) (view m (l ∷ ls))) l ls
      (λ deeper.
        rw
          (enqueue-level d m (resting_of m p o) l.price (live l) (view m ls)
            (before_asym d l.price p deeper))
          (ap (◌++◌ (view_orders m l.price (live l))) (view-place d m p o s ls v.1 h.1)))
      (λ here. rw (← here) (
        view-push_back m l o (view m ls) (omega (arith, v.0.head_in))
        ∙ ap (◌++◌ (view_orders m l.price (live l)))
            (sym (enqueue-front d m (resting_of m l.price o) s ls v.1 h.0))
        ∙ sym (
            enqueue-level d m (resting_of m l.price o) l.price (live l) (view m ls)
              (before_irrefl d l.price))))
      (λ above.
        unfold push_back in
        sym (
          enqueue-front d m (resting_of m p o) s (l ∷ ls) v
            (above, All-map _ _ (prices ls) (λ y. before_trans d p l.price y above) h.0)))
