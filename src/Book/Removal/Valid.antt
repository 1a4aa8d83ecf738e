-- ===== src/Book/Removal/Valid.antt =====
-- src/order_book.cpp, `remove_from_book`: the side that is left is valid, and holds the other orders
-- in their places.
use rtes.Prelude.{
  ℕ, ◌+◌, ◌≡◌, refl, Bool, true, false, List, [], ◌∷◌, arith, ◌==◌, sym, contains, All, length,
  length-append, ◌∙◌, contains-append, take, All-map, erase, length-erase, All-erase, erase-append,
  erase_absent, drop-take-append, length-take, length-drop, drop-zero, All-contains, Bool-cases,
  inl, inr,
}
use rtes.Types.Orders.{Side}
use rtes.Book.Levels.{Memory, FlatLevel, live, level_empty}
use rtes.Book.PriceBook.{before}
use rtes.Book.Matching.{Env}
use rtes.Book.Matching.View.{pointers, sum_remaining, Rests, LevelIsValid, SideIsValid}
use rtes.Book.Matching.Level.{prices}
use rtes.Book.Insertion.{Sorted, before_irrefl}
use rtes.Book.Removal.{strike, strike_cases}
use rtes.Book.{take_out}

sum_remaining-erase :
    (m : Memory) (o : ℕ) (xs : List ℕ)
    → contains o xs ≡ true
    → (m o).remaining_quantity + sum_remaining m (erase o xs) ≡ sum_remaining m xs
sum_remaining-erase m o [] h = ground arith
sum_remaining-erase m o (x ∷ xs) h = ground (arith, sum_remaining-erase m o xs)

module _ (e : Env) (o : ℕ) (s : Side) (l : FlatLevel) (v : LevelIsValid e.mem s l) where
  pub live-take_out : live (take_out e l o) ≡ erase o (live l)
  unfolding take_out
  live-take_out = drop-take-append l.head l.orders (erase o (live l)) (omega (arith, v.head_in))

  length-take_out :
      contains o (live l) ≡ true → length (take_out e l o).orders + 1 ≡ length l.orders
  unfolding take_out
  length-take_out h = omega (
    arith,
    length-append (take l.head l.orders) (erase o (live l)),
    length-take l.head l.orders (omega (arith, v.head_in)),
    length-erase o (live l) h,
    length-drop l.head l.orders,
    v.head_in,
  )

  pub take_out-LevelIsValid :
      contains o (live l) ≡ true
      → level_empty (take_out e l o) ≡ false
      → LevelIsValid e.mem s (take_out e l o)
  take_out-LevelIsValid h k =
      let rests : Rests e.mem s l.price o = All-contains _ o (live l) v.resting h in
      record {
        head_in = ground arith;
        fits = omega (arith, length-take_out h, v.fits);
        total = rw live-take_out (
            unfold take_out in
            omega (arith, v.total, sum_remaining-erase e.mem o (live l) h, rests.word));
        resting = rw live-take_out (unfold take_out in All-erase _ o (live l) v.resting);
      }

  -- The last order of a level leaves nothing behind.
  emptied : contains o (live l) ≡ true → level_empty (take_out e l o) ≡ true → erase o (live l) ≡ []
  emptied h k =
      sym live-take_out ∙ drop-zero (take_out e l o).head (take_out e l o).orders (ground arith)

module _ (d : Bool) (e : Env) (p o : ℕ) (s : Side) (at_price : (e.mem o).price ≡ p) where
  pub strike-SideIsValid :
      (ls : List FlatLevel) → SideIsValid e.mem s ls → SideIsValid e.mem s (strike d e p o ls)
  strike-SideIsValid [] v = unfold strike in tt
  strike-SideIsValid (l ∷ ls) v =
      strike_cases d e p o s (SideIsValid e.mem s) l ls (λ _. (v.0, strike-SideIsValid ls v.1))
        (λ _ _ _. v.1) (λ _ h k. (take_out-LevelIsValid e o s l v.0 h k, v.1)) (λ _ _. v)

  -- The order stands on no level of another price.
  off_level :
      (l : FlatLevel)
      → LevelIsValid e.mem s l
      → (l.price == p) ≡ false
      → contains o (live l) ≡ false
  off_level l v h = elim (Bool-cases (contains o (live l))) [
    | inl c ↦
        let rests : Rests e.mem s l.price o = All-contains _ o (live l) v.resting c in
        absurd (ground arith)
    | inr c ↦ c
  ]

  off_side :
      (ls : List FlatLevel)
      → SideIsValid e.mem s ls
      → All (λ y. (y == p) ≡ false) (prices ls)
      → contains o (pointers ls) ≡ false
  off_side [] v h = refl
  off_side (l ∷ ls) v h =
      ground
        (arith, contains-append o (live l) (pointers ls), off_level l v.0 h.0, off_side ls v.1 h.1)

  ahead_ne : (x : ℕ) → before d x p ≡ true → (x == p) ≡ false
  ahead_ne x h = ground (arith, before_irrefl d p)

  behind_ne : (x y : ℕ) → before d x y ≡ true → before d x p ≡ false → (y == p) ≡ false
  behind_ne x y h k = ground arith

  pub pointers-strike :
      (ls : List FlatLevel)
      → SideIsValid e.mem s ls
      → Sorted d (prices ls)
      → pointers (strike d e p o ls) ≡ erase o (pointers ls)
  pointers-strike [] v h = unfold strike in refl
  pointers-strike (l ∷ ls) v h =
      strike_cases d e p o s (λ xs. pointers xs ≡ erase o (pointers (l ∷ ls))) l ls
        (λ deeper. ground (
          arith,
          erase-append o (live l) (pointers ls),
          off_level l v.0 (ahead_ne l.price deeper),
          pointers-strike ls v.1 h.1,
        ))
        (λ here c f. ground (arith, erase-append o (live l) (pointers ls), emptied e o s l v.0 c f))
        (λ here c f.
          ground (arith, erase-append o (live l) (pointers ls), live-take_out e o s l v.0))
        (λ a b. sym (
          erase_absent o (pointers (l ∷ ls)) (
            ground (
              arith,
              contains-append o (live l) (pointers ls),
              off_level l v.0,
              off_side ls v.1 (All-map _ _ (prices ls) (λ y h. behind_ne l.price y h a) h.0),
            ))))
