-- ===== src/Book/Matching/Rule.antt =====
-- src/order_book.cpp: the loop of a sweep as an induction over its rounds, from a side whose levels
-- are valid: it stops, or it fills the first order of the side and goes on, or it fills that order
-- in part and is done.
use native.Mathlib.Decide.{dec_lt}
use rtes.Prelude.{
  ℕ, zero, suc, ◌≤◌, ◌<◌, ◌≡◌, refl, ◌≢◌, Bool, true, false, List, [], ◌∷◌, ◌++◌, arith, ◌==◌, sym,
  contains, All, ap, length, u64_mod, Distinct, length-append, ◌∙◌, ◌||◌, not, contains-append,
  subst, Bool-cases, inl, inr, length-drop,
}
use rtes.Types.Orders.{Side, Order, OrderType, market, limit}
use rtes.Book.Levels.{Memory, FlatLevel, live, reduce_quantity, level_empty}
use rtes.Book.Matching.{Env, execute_trade, fill_best, sweep, crosses_of}
use rtes.Book.Matching.Frame.{Kept, traded_aggressive}
use rtes.Book.Matching.View.{pointers, SideIsValid, LevelIsValid, Rests}
use rtes.Book.Matching.Step.{fill_full, fill_partial, after_pop}
use rtes.Book.Matching.Level.{pointers-after_pop, after_pop-SideIsValid}
use rtes.Book.Matching.Round.{filled_env, filled-Same, remaining-filled}

-- What a sweep may be started with.
pub record Ready (e : Env) (a : ℕ) (s : Side) (levels : List FlatLevel) : Type 0 where
  pub word : (e.mem a).remaining_quantity < u64_mod
  pub valid : SideIsValid e.mem s levels
  pub distinct : Distinct (a ∷ pointers levels)

-- The test of a sweep looks at nothing that trading changes.
abbrev pub Stable : (Order → ℕ → Bool) → Type 0
Stable crosses = (o o' : Order) → Kept o o' → (x : ℕ) → crosses o' x ≡ crosses o x

pub crosses_of-Stable : (t : OrderType) → Stable (crosses_of t)
crosses_of-Stable market o o' k x = refl
crosses_of-Stable limit o o' k x = ground (arith, k.side, k.price)

-- A valid level has a first live order.
pub live-cons :
    (m : Memory) (s : Side) (l : FlatLevel)
    → LevelIsValid m s l
    → (p : ℕ) × (ps : List ℕ) × (live l ≡ p ∷ ps)
live-cons m s l v = go (live l) refl
  where
    go : (xs : List ℕ) → live l ≡ xs → (p : ℕ) × (ps : List ℕ) × (live l ≡ p ∷ ps)
    go [] e = absurd (omega (arith, ap length e, length-drop l.head l.orders, v.head_in))
    go (p ∷ ps) e = (p, ps, e)

-- A sweep that starts with nothing left to fill does nothing.
pub sweep_done :
    (crosses : Order → ℕ → Bool) (d : Bool) (fuel : ℕ) (e : Env) (a : ℕ) (levels : List FlatLevel)
    → (e.mem a).remaining_quantity ≡ 0
    → sweep crosses d fuel e a levels ≡ (e, levels)
unfolding sweep
sweep_done crosses d zero e a levels h = refl
sweep_done crosses d (suc fuel) e a [] h = refl
sweep_done crosses d (suc fuel) e a (l ∷ ls) h = rw h

-- A round that goes on.
sweep_next :
    (crosses : Order → ℕ → Bool) (d : Bool) (fuel : ℕ) (e : Env) (a : ℕ) (l : FlatLevel)
    (ls : List FlatLevel) (e' : Env) (levels : List FlatLevel)
    → (((e.mem a).remaining_quantity == 0) || not (crosses (e.mem a) l.price)) ≡ false
    → l.head < length l.orders
    → fill_best d e a l ls ≡ (e', levels)
    → sweep crosses d (suc fuel) e a (l ∷ ls) ≡ sweep crosses d fuel e' a levels
unfolding sweep
sweep_next crosses d fuel e a l ls e' levels h k f =
    let n : level_empty l ≡ false = ground arith in rw (h, n, f)

sweep_stop :
    (crosses : Order → ℕ → Bool) (d : Bool) (fuel : ℕ) (e : Env) (a : ℕ) (l : FlatLevel)
    (ls : List FlatLevel)
    → (((e.mem a).remaining_quantity == 0) || not (crosses (e.mem a) l.price)) ≡ true
    → sweep crosses d (suc fuel) e a (l ∷ ls) ≡ (e, l ∷ ls)
unfolding sweep
sweep_stop crosses d fuel e a l ls h = rw h

-- What the distinctness of the pointers says at the head of the side.
pub record Apart (a p : ℕ) (ps rs : List ℕ) : Type 0 where
  pub apart : a ≢ p
  pub a_ps : contains a ps ≡ false
  pub a_rs : contains a rs ≡ false
  pub p_ps : contains p ps ≡ false
  pub p_rs : contains p rs ≡ false
  pub later : Distinct (a ∷ ps ++ rs)

Apart-of_Distinct : (a p : ℕ) (ps rs : List ℕ) → Distinct (a ∷ p ∷ ps ++ rs) → Apart a p ps rs
Apart-of_Distinct a p ps rs d = record {
  apart = ground arith;
  a_ps = ground (arith, contains-append a ps rs);
  a_rs = ground (arith, contains-append a ps rs);
  p_ps = ground (arith, contains-append p ps rs);
  p_rs = ground (arith, contains-append p ps rs);
  later = (ground arith, d.1.1);
}

module _ (e : Env) (a : ℕ) (s : Side) (l : FlatLevel) (ls : List FlatLevel)
    (ready : Ready e a s (l ∷ ls)) (p : ℕ) (ps : List ℕ) (is : live l ≡ p ∷ ps) where
  pub apart_lem : Apart a p ps (pointers ls)
  apart_lem = Apart-of_Distinct a p ps (pointers ls) (rw is at ready.distinct)

  -- After the first order of the side is filled, the sweep may go on.
  pub filled-Ready :
      (q : ℕ)
      → (e.mem p).remaining_quantity ≡ q
      → q ≤ (e.mem a).remaining_quantity
      → Ready (filled_env e a p q l.price) a s (after_pop l q ps ls)
  filled-Ready q h k =
      let o = apart_lem in
      let same = filled-Same e a p q l.price o.apart ps o.a_ps o.p_ps in
      let same_rest = filled-Same e a p q l.price o.apart (pointers ls) o.a_rs o.p_rs in
      record {
        word = omega (arith, remaining-filled e a p q l.price o.apart k ready.word, ready.word);
        valid =
            after_pop-SideIsValid e.mem _ s l ls p ps is ready.valid.0 ready.valid.1 same same_rest
              q h;
        distinct =
            rw
              (pointers-after_pop e.mem _ s l ls p ps is ready.valid.0 ready.valid.1 same same_rest
                q)
              o.later;
      }

  -- One order fewer is left on the side.
  pub pointers-filled :
      (q : ℕ)
      → (e.mem p).remaining_quantity ≡ q
      → q ≤ (e.mem a).remaining_quantity
      → pointers (l ∷ ls) ≡ p ∷ pointers (after_pop l q ps ls)
  pointers-filled q h k =
      let o = apart_lem in
      let same = filled-Same e a p q l.price o.apart ps o.a_ps o.p_ps in
      let same_rest = filled-Same e a p q l.price o.apart (pointers ls) o.a_rs o.p_rs in
      rw
        (is, pointers-after_pop e.mem _ s l ls p ps is ready.valid.0 ready.valid.1 same same_rest q)

  shorter :
      (q : ℕ)
      → (e.mem p).remaining_quantity ≡ q
      → q ≤ (e.mem a).remaining_quantity
      → (fuel : ℕ) → length (pointers (l ∷ ls)) ≤ suc fuel
      → length (pointers (after_pop l q ps ls)) ≤ fuel
  shorter q h k fuel enough = omega (arith, ap length (pointers-filled q h k))

-- The test that ends a sweep at the level `l`.
abbrev pub stops_at : (Order → ℕ → Bool) → Env → ℕ → FlatLevel → Bool
stops_at crosses e a l = ((e.mem a).remaining_quantity == 0) || not (crosses (e.mem a) l.price)

-- Where a sweep has nothing more to do.
abbrev pub Idle : (Order → ℕ → Bool) → Env → ℕ → List FlatLevel → Type 0
Idle crosses e a [] = Unit {0}
Idle crosses e a (l ∷ ls) = stops_at crosses e a l ≡ true

-- A property of every sweep with fuel for each order of the side, from its rounds.
pub sweep_rule {κ} :
    (crosses : Order → ℕ → Bool) (d : Bool) (a : ℕ) (s : Side)
    (P : Env → List FlatLevel → Env × List FlatLevel → Type κ)
    → ((e : Env) (levels : List FlatLevel)
        → Ready e a s levels
        → Idle crosses e a levels
        → P e levels (e, levels))
    → ((e : Env) (l : FlatLevel) (ls : List FlatLevel) (p : ℕ) (ps : List ℕ) (q : ℕ)
          (out : Env × List FlatLevel)
        → Ready e a s (l ∷ ls)
        → live l ≡ p ∷ ps
        → stops_at crosses e a l ≡ false
        → (e.mem p).remaining_quantity ≡ q
        → q ≤ (e.mem a).remaining_quantity
        → P (filled_env e a p q l.price) (after_pop l q ps ls) out
        → P e (l ∷ ls) out)
    → ((e : Env) (l : FlatLevel) (ls : List FlatLevel) (p : ℕ) (ps : List ℕ) (q : ℕ)
        → Ready e a s (l ∷ ls)
        → live l ≡ p ∷ ps
        → stops_at crosses e a l ≡ false
        → (e.mem a).remaining_quantity ≡ q
        → q < (e.mem p).remaining_quantity
        → P e (l ∷ ls) (execute_trade e a p q l.price, reduce_quantity l q ∷ ls))
    → (fuel : ℕ) (e : Env) (levels : List FlatLevel) → Ready e a s levels
    → length (pointers levels) ≤ fuel
    → P e levels (sweep crosses d fuel e a levels)
unfolding sweep
sweep_rule crosses d a s P idle full part zero e [] ready enough = idle e [] ready tt
sweep_rule crosses d a s P idle full part zero e (l ∷ ls) ready enough =
    let (p, ps, is) = live-cons e.mem s l ready.valid.0 in
    absurd (omega (arith, ap length is, length-append (live l) (pointers ls)))
sweep_rule crosses d a s P idle full part (suc fuel) e [] ready enough = idle e [] ready tt
sweep_rule crosses d a s P idle full part (suc fuel) e (l ∷ ls) ready enough =
    let (p, ps, is) = live-cons e.mem s l ready.valid.0 in
    let o = apart_lem e a s l ls ready p ps is in
    let all : All (Rests e.mem s l.price) (p ∷ ps) = rw is at ready.valid.0.resting in
    elim (Bool-cases (stops_at crosses e a l)) [
      | inl stop ↦
          subst (P e (l ∷ ls)) (sym (sweep_stop crosses d fuel e a l ls stop))
            (idle e (l ∷ ls) ready stop)
      | inr goes_on ↦ elim (dec_lt (e.mem a).remaining_quantity (e.mem p).remaining_quantity) [
        | yes less ↦
            let q = (e.mem a).remaining_quantity in
            subst (P e (l ∷ ls))
              (sym (
                sweep_next crosses d fuel e a l ls _ _ goes_on ready.valid.0.head_in (
                  fill_partial d e a l ls p ps is o.apart ready.valid.0.fits all.0.word q refl less)
                ∙ sweep_done crosses d fuel (execute_trade e a p q l.price) a
                    (reduce_quantity l q ∷ ls)
                    (omega (arith, traded_aggressive e a p q l.price o.apart, ready.word))))
              (part e l ls p ps q ready is goes_on refl less)
        | no more ↦
            let q = (e.mem p).remaining_quantity in
            let le : q ≤ (e.mem a).remaining_quantity = omega arith in
            let ready' = filled-Ready e a s l ls ready p ps is q refl le in
            subst (P e (l ∷ ls))
              (sym (
                sweep_next crosses d fuel e a l ls _ _ goes_on ready.valid.0.head_in
                  (fill_full d e a l ls p ps is o.apart ready.valid.0.fits all.0.word q refl le)))
              (full e l ls p ps q _ ready is goes_on refl le (
                sweep_rule crosses d a s P idle full part fuel (filled_env e a p q l.price)
                  (after_pop l q ps ls) ready'
                  (shorter e a s l ls ready p ps is q refl le fuel enough)))
      ]
    ]
