-- ===== src/Book/Removal.antt =====
-- src/order_book.cpp, `remove_from_book`: an order leaves its level, an emptied level leaves its side.
pub mod Valid
use rtes.Prelude.{
  ℕ, zero, suc, ◌+◌, ◌-◌, ◌%◌, ◌≤◌, ◌<◌, ◌≡◌, refl, ◌≢◌, Bool, true, false, List, [], ◌∷◌, ◌++◌,
  arith, ◌==◌, leb, ltb, sym, Option, none, some, sub64, add64, contains, All, ap, length, u64_mod,
  u32_mod, Distinct, length-append, if◌then◌else◌, ◌∙◌, ◌||◌, ◌&&◌, not, contains-append,
  Option-cases, Bool-cases, inl, inr, drop-append, drop, take, All-append, All-map, erase,
  length-erase, contains-erase, erase-Distinct, All-erase, Distinct-append_left,
  Distinct-append_right, drop-zero, length-drop,
}
use rtes.Types.Orders.{Side, Order}
use rtes.Book.Levels.{Memory, FlatLevel, live, level_empty}
use rtes.Book.PriceBook.{before, lower_bound_for, find, remove, write_level}
use rtes.Book.Matching.{Env}
use rtes.Book.Matching.View.{
  Resting, view, view_orders, pointers, sum_remaining, Rests, LevelIsValid, SideIsValid,
}
use rtes.Book.Matching.Level.{prices}
use rtes.Book.Matching.Step.{remove_first}
use rtes.Book.Insertion.{Sorted}
use rtes.Book.{take_out, remove_from}

-- What is left of a level and those behind it without the order `o`.
abbrev pub without : Env → ℕ → FlatLevel → List FlatLevel → List FlatLevel
without e o l ls =
    if contains o (live l)
    then (if level_empty (take_out e l o) then ls else take_out e l o ∷ ls)
    else l ∷ ls

-- The levels without the order `o` of the price `p`.
pub strike : Bool → Env → ℕ → ℕ → List FlatLevel → List FlatLevel
strike d e p o [] = []
strike d e p o (l ∷ ls) =
    let deeper = l ∷ strike d e p o ls in
    if before d l.price p then deeper else if l.price == p then without e o l ls else l ∷ ls

remove_behind :
    (d : Bool) (p : ℕ) (l : FlatLevel) (ls : List FlatLevel)
    → before d l.price p ≡ true
    → remove d p (l ∷ ls) ≡ l ∷ remove d p ls
unfolding remove
remove_behind d p l ls h = ground arith

-- The level that `find` finds, behind the first one or there.
find_behind_none :
    (d : Bool) (p : ℕ) (l : FlatLevel) (ls : List FlatLevel)
    → before d l.price p ≡ true
    → find d p ls ≡ none
    → find d p (l ∷ ls) ≡ none
unfolding find
find_behind_none d p l ls h k = ground arith

find_behind_some :
    (d : Bool) (p : ℕ) (l x : FlatLevel) (ls front rear : List FlatLevel)
    → before d l.price p ≡ true
    → find d p ls ≡ some (front, x, rear)
    → find d p (l ∷ ls) ≡ some (l ∷ front, x, rear)
unfolding find
find_behind_some d p l x ls front rear h k = ground arith

find_first :
    (d : Bool) (p : ℕ) (l : FlatLevel) (ls : List FlatLevel)
    → before d l.price p ≡ false
    → find d p (l ∷ ls) ≡ (if l.price == p then some ([], l, ls) else none)
unfolding find
find_first d p l ls h = ground arith

module _ (d : Bool) (e : Env) (o : ℕ) where
  -- `remove_from` behind its search.
  struck : Option (List FlatLevel × FlatLevel × List FlatLevel) → List FlatLevel → List FlatLevel
  struck none levels = levels
  struck (some (front, l, rear)) levels =
      if contains o (live l)
      then (if level_empty (take_out e l o)
          then remove d (e.mem o).price (write_level (front, l, rear) (take_out e l o))
          else write_level (front, l, rear) (take_out e l o))
      else levels

  struck_lem :
      (levels : List FlatLevel)
      → remove_from d e o levels ≡ struck (find d (e.mem o).price levels) levels
  unfolding remove_from struck
  struck_lem levels = ground arith

  struck_behind :
      (l : FlatLevel) (ls : List FlatLevel)
      → before d l.price (e.mem o).price ≡ true
      → struck (find d (e.mem o).price (l ∷ ls)) (l ∷ ls)
        ≡ l ∷ struck (find d (e.mem o).price ls) ls
  unfolding struck
  struck_behind l ls h = elim (Option-cases (find d (e.mem o).price ls)) [
    | inl missing ↦ rw (find_behind_none d _ l ls h missing, missing)
    | inr ((front, x, rear), there) ↦
        rw (find_behind_some d _ l x ls front rear h there, there)
          (ground (arith, remove_behind d (e.mem o).price l (front ++ (take_out e x o ∷ rear)) h))
  ]

  struck_nil : struck (find d (e.mem o).price []) [] ≡ []
  unfolding struck find
  struck_nil = refl

  struck_first :
      (l : FlatLevel) (ls : List FlatLevel)
      → l.price ≡ (e.mem o).price
      → struck (some ([], l, ls)) (l ∷ ls) ≡ without e o l ls
  unfolding struck take_out
  struck_first l ls h = ground (arith, remove_first d (take_out e l o) ls)

-- `remove_from` is `strike` at the price of the order.
pub strike_lem :
    (d : Bool) (e : Env) (o : ℕ) (ls : List FlatLevel)
    → remove_from d e o ls ≡ strike d e (e.mem o).price o ls
unfolding strike
strike_lem d e o [] = struck_lem d e o [] ∙ struck_nil d e o
strike_lem d e o (l ∷ ls) = elim (Bool-cases (before d l.price (e.mem o).price)) [
  | inl behind ↦ rw behind (
      struck_lem d e o (l ∷ ls)
      ∙ struck_behind d e o l ls behind
      ∙ ap (◌∷◌ l) (sym (struck_lem d e o ls) ∙ strike_lem d e o ls))
  | inr first ↦ elim (Bool-cases (l.price == (e.mem o).price)) [
    | inl here ↦
        rw (first, here)
          (struck_lem d e o (l ∷ ls)
            ∙ rw (find_first d (e.mem o).price l ls first, here)
                (struck_first d e o l ls (ground arith)))
    | inr other ↦
        rw (first, other)
          (struck_lem d e o (l ∷ ls)
            ∙ rw (find_first d (e.mem o).price l ls first, other) (unfold struck in refl))
  ]
]

-- What stays of a side without the order `o`, which waits there at `p`.
module _ (d : Bool) (e : Env) (p o : ℕ) (s : Side) where
  pub strike_cases {κ} :
      (P : List FlatLevel → Type κ) (l : FlatLevel) (ls : List FlatLevel)
      → (before d l.price p ≡ true → P (l ∷ strike d e p o ls))
      → (l.price ≡ p → contains o (live l) ≡ true → level_empty (take_out e l o) ≡ true → P ls)
      → (l.price ≡ p
          → contains o (live l) ≡ true
          → level_empty (take_out e l o) ≡ false
          → P (take_out e l o ∷ ls))
      → (before d l.price p ≡ false → ((l.price == p) && contains o (live l)) ≡ false → P (l ∷ ls))
      → P (strike d e p o (l ∷ ls))
  unfolding strike
  strike_cases P l ls deeper emptied shorter same = elim (Bool-cases (before d l.price p)) [
    | inl a ↦ rw a (deeper a)
    | inr a ↦ elim (Bool-cases (l.price == p)) [
      | inl b ↦ elim (Bool-cases (contains o (live l))) [
        | inl c ↦ elim (Bool-cases (level_empty (take_out e l o))) [
          | inl f ↦ rw (a, b, c, f) (emptied (ground arith) c f)
          | inr f ↦ rw (a, b, c, f) (shorter (ground arith) c f)
        ]
        | inr c ↦ rw (a, b, c) (same a (ground arith))
      ]
      | inr b ↦ rw (a, b) (same a (ground arith))
    ]
  ]

  pub All-strike :
      (P : ℕ → Type 0) (ls : List FlatLevel)
      → All P (prices ls)
      → All P (prices (strike d e p o ls))
  unfolding take_out
  All-strike P [] h = unfold strike in tt
  All-strike P (l ∷ ls) h =
      strike_cases (λ xs. All P (prices xs)) l ls (λ _. (h.0, All-strike P ls h.1)) (λ _ _ _. h.1)
        (λ _ _ _. h) (λ _ _. h)

  pub strike-Sorted :
      (ls : List FlatLevel) → Sorted d (prices ls) → Sorted d (prices (strike d e p o ls))
  unfolding take_out
  strike-Sorted [] h = unfold strike in tt
  strike-Sorted (l ∷ ls) h =
      strike_cases (λ xs. Sorted d (prices xs)) l ls
        (λ _. (All-strike _ ls h.0, strike-Sorted ls h.1)) (λ _ _ _. h.1) (λ _ _ _. h) (λ _ _. h)
