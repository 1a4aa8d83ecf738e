-- ===== src/Book/Insertion.antt =====
-- src/order_book.cpp, `add_to_book`: where an order comes to rest on its side.
pub mod Priority
use rtes.Prelude.{
  ℕ, zero, suc, ◌+◌, ◌-◌, ◌%◌, ◌≤◌, ◌<◌, ◌≡◌, refl, ◌≢◌, Bool, true, false, List, [], ◌∷◌, ◌++◌,
  arith, ◌==◌, leb, ltb, sym, sub64, add64, contains, All, ap, length, u64_mod, u32_mod, Distinct,
  length-append, if◌then◌else◌, ◌∙◌, ◌||◌, ◌&&◌, not, contains-append, Bool-cases, inl, inr,
  drop-append, drop, All-append, All-map,
}
use rtes.Types.Orders.{Side, Order}
use rtes.Book.Levels.{Memory, FlatLevel, live, push_back, make_level}
use rtes.Book.PriceBook.{before, lower_bound_for, find_or_insert, write_level}
use rtes.Book.Matching.View.{
  Resting, view, view_orders, pointers, sum_remaining, Rests, LevelIsValid, SideIsValid,
}
use rtes.Book.Matching.Level.{prices}

-- The levels with the order at `o` behind those of its price.
pub place : Bool → Memory → ℕ → ℕ → List FlatLevel → List FlatLevel
place d m p o [] = push_back m (make_level p) o ∷ []
place d m p o (l ∷ ls) =
    let deeper = l ∷ place d m p o ls in
    if before d l.price p
    then deeper
    else if l.price == p
    then push_back m l o ∷ ls
    else push_back m (make_level p) o ∷ l ∷ ls

-- `find_or_insert` and `push_back` do that.
pub place_lem :
    (d : Bool) (m : Memory) (p o : ℕ) (ls : List FlatLevel)
    → write_level (find_or_insert d p ls) (push_back m (find_or_insert d p ls).1 o)
      ≡ place d m p o ls
unfolding place find_or_insert
place_lem d m p o [] = refl
place_lem d m p o (l ∷ ls) = ground (arith, place_lem d m p o ls)

-- Strictly from best to worst.
abbrev pub Sorted : Bool → List ℕ → Type 0
Sorted d [] = Unit {0}
Sorted d (x ∷ xs) = All (λ y. before d x y ≡ true) xs × Sorted d xs

-- A level can take one more order: its cursor stays a 32-bit word.
abbrev pub Roomy : List FlatLevel → Type 0
Roomy = All (λ l. length l.orders + 1 < u32_mod)

pub before_trans :
    (d : Bool) (x y z : ℕ) → before d x y ≡ true → before d y z ≡ true → before d x z ≡ true
before_trans true x y z h k = ground arith
before_trans false x y z h k = ground arith

pub before_total :
    (d : Bool) (x y : ℕ) → before d x y ≡ false → (x == y) ≡ false → before d y x ≡ true
before_total true x y h k = ground arith
before_total false x y h k = ground arith

pub before_irrefl : (d : Bool) (x : ℕ) → before d x x ≡ false
before_irrefl true x = ground arith
before_irrefl false x = ground arith

module _ (d : Bool) (m : Memory) (p o : ℕ) where
  pub place_cases {κ} :
      (P : List FlatLevel → Type κ) (l : FlatLevel) (ls : List FlatLevel)
      → (before d l.price p ≡ true → P (l ∷ place d m p o ls))
      → (l.price ≡ p → P (push_back m l o ∷ ls))
      → (before d p l.price ≡ true → P (push_back m (make_level p) o ∷ l ∷ ls))
      → P (place d m p o (l ∷ ls))
  unfolding place
  place_cases P l ls deeper here above = elim (Bool-cases (before d l.price p)) [
    | inl e ↦ rw e (deeper e)
    | inr e ↦ elim (Bool-cases (l.price == p)) [
      | inl f ↦ rw (e, f) (here (ground arith))
      | inr f ↦ rw (e, f) (above (before_total d l.price p e f))
    ]
  ]

  pub All-place :
      (P : ℕ → Type 0) (ls : List FlatLevel)
      → P p
      → All P (prices ls)
      → All P (prices (place d m p o ls))
  unfolding push_back
  All-place P [] h k = unfold place in (h, tt)
  All-place P (l ∷ ls) h k =
      place_cases (λ xs. All P (prices xs)) l ls (λ _. (k.0, All-place P ls h k.1)) (λ _. k)
        (λ _. (h, k))

  -- The levels stay strictly sorted.
  pub place-Sorted :
      (ls : List FlatLevel) → Sorted d (prices ls) → Sorted d (prices (place d m p o ls))
  unfolding push_back
  place-Sorted [] h = unfold place in (tt, tt)
  place-Sorted (l ∷ ls) h =
      place_cases (λ xs. Sorted d (prices xs)) l ls
        (λ e. (All-place _ ls e h.0, place-Sorted ls h.1)) (λ _. h)
        (λ e. ((e, All-map _ _ (prices ls) (λ y. before_trans d p l.price y e) h.0), h))

  pub live-push_back :
      (l : FlatLevel) → l.head ≤ length l.orders → live (push_back m l o) ≡ live l ++ (o ∷ [])
  unfolding push_back
  live-push_back l h = drop-append l.head l.orders (o ∷ []) h

  sum_remaining-snoc :
      (xs : List ℕ)
      → sum_remaining m (xs ++ (o ∷ [])) ≡ sum_remaining m xs + (m o).remaining_quantity
  sum_remaining-snoc [] = omega arith
  sum_remaining-snoc (x ∷ xs) = omega (arith, sum_remaining-snoc xs)

  module _ (s : Side) (rests : Rests m s p o) where
    pushed-LevelIsValid :
        (l : FlatLevel)
        → l.price ≡ p
        → length l.orders + 1 < u32_mod
        → LevelIsValid m s l
        → LevelIsValid m s (push_back m l o)
    pushed-LevelIsValid l same_price room v =
        let is = live-push_back l (omega (arith, v.head_in)) in
        record {
          head_in = unfold push_back in omega (arith, length-append l.orders (o ∷ []), v.head_in);
          fits = unfold push_back in omega (arith, length-append l.orders (o ∷ []));
          total = rw (is, sum_remaining-snoc (live l)) (unfold push_back in omega (arith, v.total));
          resting = rw is (
              unfold push_back in
              All-append _ (live l) (o ∷ []) v.resting (rw same_price rests, tt));
        }

    new-LevelIsValid : LevelIsValid m s (push_back m (make_level p) o)
    unfolding push_back
    new-LevelIsValid = record {
      head_in = omega arith;
      fits = omega arith;
      total = omega arith;
      resting = (rests, tt);
    }

    pub place-SideIsValid :
        (ls : List FlatLevel) → Roomy ls → SideIsValid m s ls → SideIsValid m s (place d m p o ls)
    place-SideIsValid [] r v = unfold place in (new-LevelIsValid, tt)
    place-SideIsValid (l ∷ ls) r v =
        place_cases (SideIsValid m s) l ls (λ _. (v.0, place-SideIsValid ls r.1 v.1))
          (λ e. (pushed-LevelIsValid l e r.0 v.0, v.1)) (λ _. (new-LevelIsValid, v))
