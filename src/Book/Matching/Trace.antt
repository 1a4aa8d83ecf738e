-- ===== src/Book/Matching/Trace.antt =====
-- src/order_book.cpp: what a sweep does to the pool, to the lookup map and to the orders' memory.
use mathlib.Core.List.{append_assoc}
use rtes.Prelude.{
  ℕ, ◌≤◌, ◌<◌, ◌≡◌, refl, ◌≢◌, Bool, false, List, [], ◌∷◌, ◌++◌, arith, ◌==◌, sym, ap, contains,
  All, length, ◌∙◌, u64_mod, ==_ne, ◌||◌,
}
use rtes.Types.Orders.{Side, Order, filled}
use rtes.Pool
use rtes.Pool.{Pool}
use rtes.Book.Lookup.{erase_key}
use rtes.Book.Levels.{Memory, FlatLevel, live, pop_front, reduce_quantity}
use rtes.Book.Matching.{Env, execute_trade, release_filled, sweep}
use rtes.Book.Matching.Frame.{Kept, traded_other, released_other, traded-Kept, traded_passive}
use rtes.Book.Matching.View.{pointers, Rests}
use rtes.Book.Matching.Step.{after_pop}
use rtes.Book.Matching.Level.{prices}
use rtes.Book.Matching.Rule.{Ready, apart_lem, sweep_rule, pointers-filled}
use rtes.Book.Matching.Round.{filled_env, filled-Kept, pool-filled, lookup-filled}

-- The pool after the orders at `ps` went back to it, in this order.
abbrev pub give_back : Pool → List ℕ → Pool
give_back pool [] = pool
give_back pool (p ∷ ps) = give_back (Pool.deallocate pool p) ps

-- The lookup map without the orders at `ps`.
abbrev pub unlist : Memory → List ℕ → List (ℕ × ℕ) → List (ℕ × ℕ)
unlist m [] t = t
unlist m (p ∷ ps) t = unlist m ps (erase_key (m p).id t)

unlist-Kept :
    (m m' : Memory) (ps : List ℕ) (t : List (ℕ × ℕ))
    → ((x : ℕ) → Kept (m x) (m' x))
    → unlist m' ps t ≡ unlist m ps t
unlist-Kept m m' [] t k = refl
unlist-Kept m m' (p ∷ ps) t k = rw ((k p).id) (unlist-Kept m m' ps (erase_key (m p).id t) k)

-- An order that was filled and given back.
pub record Done (m : Memory) (p : ℕ) : Type 0 where
  pub nothing_left : (m p).remaining_quantity ≡ 0
  pub is_filled : (m p).status ≡ filled

pub record Traced (e : Env) (a : ℕ) (levels : List FlatLevel) (out : Env × List FlatLevel)
    : Type 0 where
  pub consumed : List ℕ
  pub split : pointers levels ≡ consumed ++ pointers out.1
  pub pool : out.0.pool ≡ give_back e.pool consumed
  pub listed : out.0.order_lookup ≡ unlist e.mem consumed e.order_lookup
  pub kept : (x : ℕ) → Kept (e.mem x) (out.0.mem x)
  pub outside :
      (x : ℕ) → (a == x) ≡ false → contains x (pointers levels) ≡ false → out.0.mem x ≡ e.mem x
  pub done : All (Done out.0.mem) consumed
  pub gone : List ℕ
  pub best : prices levels ≡ gone ++ prices out.1

Done-of_eq : {m m' : Memory} {p : ℕ} → m' p ≡ m p → Done m p → Done m' p
Done-of_eq e d = ground (arith, d.nothing_left, d.is_filled)

filled-Done :
    (e : Env) (a p q price : ℕ)
    → a ≢ p
    → (e.mem p).remaining_quantity ≡ q
    → q < u64_mod
    → Done (filled_env e a p q price).mem p
unfolding release_filled
filled-Done e a p q price apart h w = ground (arith, traded_passive e a p q price apart)

prices-after_pop :
    (l : FlatLevel) (q : ℕ) (ps : List ℕ) (ls : List FlatLevel)
    → (g : List ℕ) × (prices (l ∷ ls) ≡ g ++ prices (after_pop l q ps ls))
unfolding pop_front
prices-after_pop l q [] ls = (l.price ∷ [], refl)
prices-after_pop l q (p ∷ ps) ls = ([], refl)

idle-Traced : (e : Env) (a : ℕ) (levels : List FlatLevel) → Traced e a levels (e, levels)
idle-Traced e a levels = record {
  consumed = [];
  split = refl;
  pool = refl;
  listed = refl;
  kept = λ x. record { id = refl; price = refl; side = refl };
  outside = λ x h k. refl;
  done = tt;
  gone = [];
  best = refl;
}

module _ (e : Env) (a : ℕ) (s : Side) (l : FlatLevel) (ls : List FlatLevel)
    (ready : Ready e a s (l ∷ ls)) (p : ℕ) (ps : List ℕ) (is : live l ≡ p ∷ ps) (q : ℕ) where
  partial-Traced : Traced e a (l ∷ ls) (execute_trade e a p q l.price, reduce_quantity l q ∷ ls)
  partial-Traced = record {
    consumed = [];
    split = unfold reduce_quantity in refl;
    pool = unfold execute_trade in refl;
    listed = unfold execute_trade in refl;
    kept = traded-Kept e a p q l.price;
    outside = λ x h k. traded_other e a p q l.price x h (ground (arith, rw is at k));
    done = tt;
    gone = [];
    best = unfold reduce_quantity in refl;
  }

  filled-Traced :
      (out : Env × List FlatLevel)
      → (e.mem p).remaining_quantity ≡ q
      → q ≤ (e.mem a).remaining_quantity
      → Traced (filled_env e a p q l.price) a (after_pop l q ps ls) out
      → Traced e a (l ∷ ls) out
  filled-Traced out h k later =
      let o = apart_lem e a s l ls ready p ps is in
      let (g, at_front) = prices-after_pop l q ps ls in
      let after_is = pointers-filled e a s l ls ready p ps is q h k in
      let apart_p : contains p (pointers (after_pop l q ps ls)) ≡ false =
        (rw after_is at ready.distinct.1).0 in
      let all : All (Rests e.mem s l.price) (p ∷ ps) = rw is at ready.valid.0.resting in
      record {
        consumed = p ∷ later.consumed;
        split = after_is ∙ ap (◌∷◌ p) later.split;
        pool = later.pool ∙ ap (λ z. give_back z later.consumed) (pool-filled e a p q l.price);
        listed =
            later.listed
            ∙ unlist-Kept e.mem _ later.consumed _ (filled-Kept e a p q l.price o.apart)
            ∙ ap (unlist e.mem later.consumed) (lookup-filled e a p q l.price);
        kept = λ x. ground (arith, filled-Kept e a p q l.price o.apart x, later.kept x);
        outside = λ x n c.
            let c' : ((p == x) || contains x (pointers (after_pop l q ps ls))) ≡ false =
              rw after_is at c in
            ground (
              arith,
              later.outside x n,
              released_other (execute_trade e a p q l.price) p x,
              traded_other e a p q l.price x n,
            );
        done = (
          Done-of_eq (later.outside p (==_ne a p o.apart) apart_p)
              (filled-Done e a p q l.price o.apart h (omega (arith, all.0.word))),
          later.done,
        );
        gone = g ++ later.gone;
        best = at_front ∙ ap (◌++◌ g) later.best ∙ sym (append_assoc g later.gone _);
      }

-- A sweep consumes the orders at the front of the side: those and no others leave the lookup map and
-- go back to the pool, in this order, each filled. No order but these, the one at the front and the
-- incoming one is written to.
pub sweep-Traced :
    (crosses : Order → ℕ → Bool) (d : Bool) (fuel : ℕ) (e : Env) (a : ℕ) (s : Side)
    (levels : List FlatLevel)
    → Ready e a s levels
    → length (pointers levels) ≤ fuel
    → Traced e a levels (sweep crosses d fuel e a levels)
sweep-Traced crosses d fuel e a s levels ready enough =
    sweep_rule crosses d a s (λ e levels out. Traced e a levels out)
      (λ e levels ready idle. idle-Traced e a levels)
      (λ e l ls p ps q out ready is goes_on h k later.
        filled-Traced e a s l ls ready p ps is q out h k later)
      (λ e l ls p ps q ready is goes_on h k. partial-Traced e a s l ls ready p ps is q) fuel e
      levels ready enough
