-- ===== src/Book/Matching/Sweep.antt =====
-- src/order_book.cpp, `match_market_order` and `match_limit_order`: a sweep does what `match_spec`
-- says, keeps the levels it leaves valid, and touches nothing else.
use mathlib.Core.Path.{fun_ext, ap₂}
use mathlib.Core.List.{append_assoc, append-nil}
use rtes.Prelude.{
  ℕ, ◌-◌, ◌≤◌, ◌<◌, ◌≡◌, refl, Bool, true, false, List, [], ◌∷◌, ◌++◌, arith, ◌==◌, leb, sym, All,
  ap, length, ◌∙◌, ◌||◌, not,
}
use rtes.Types.Orders.{Side, Order}
use rtes.Book.Levels.{FlatLevel, live, reduce_quantity}
use rtes.Book.Matching.{Env, execute_trade, sweep}
use rtes.Book.Matching.Frame.{Kept, traded-Same, traded-Kept, traded_passive, traded_aggressive}
use rtes.Book.Matching.View.{
  Resting, fills_of, view, view_orders, pointers, SideIsValid, match_spec, Outcome, Rests,
  SideIsValid-Same, view-Same,
}
use rtes.Book.Matching.Step.{after_pop}
use rtes.Book.Matching.Level.{view-after_pop, view_orders-reduced, reduced-LevelIsValid}
use rtes.Book.Matching.Rule.{Ready, Stable, Idle, apart_lem, sweep_rule, live-cons}
use rtes.Book.Matching.Round.{
  filled_env, filled-Same, filled-Kept, remaining-filled, fills-filled, fills-traded,
}

-- The outcome that `match_spec` gives for the state `e` and the side `levels`.
abbrev pub spec_of : (Order → ℕ → Bool) → Env → ℕ → List FlatLevel → Outcome
spec_of crosses e a levels =
    match_spec (crosses (e.mem a)) (e.mem a).remaining_quantity (view e.mem levels)

-- The result of a sweep is that of `match_spec`.
pub record Swept (crosses : Order → ℕ → Bool) (e : Env) (a : ℕ) (s : Side) (levels : List FlatLevel)
    (out : Env × List FlatLevel) : Type 0 where
  pub fills :
      fills_of (e.mem a).side out.0.trades
      ≡ fills_of (e.mem a).side e.trades ++ (spec_of crosses e a levels).fills
  pub left : (out.0.mem a).remaining_quantity ≡ (spec_of crosses e a levels).left
  pub rest : view out.0.mem out.1 ≡ (spec_of crosses e a levels).rest
  pub valid : SideIsValid out.0.mem s out.1
  pub kept : Kept (e.mem a) (out.0.mem a)

-- The rounds of `match_spec`.
module _ (crosses : ℕ → Bool) (q : ℕ) (r : Resting) (rs : List Resting) where
  spec_stop :
      ((q == 0) || not (crosses r.price)) ≡ true
      → match_spec crosses q (r ∷ rs) ≡ record { fills = []; left = q; rest = r ∷ rs }
  unfolding match_spec
  spec_stop h = rw h

  spec_filled :
      ((q == 0) || not (crosses r.price)) ≡ false
      → r.quantity ≤ q
      → match_spec crosses q (r ∷ rs) ≡ record (match_spec crosses (q - r.quantity) rs) {
        fills =
            record { order_id = r.order_id; price = r.price; quantity = r.quantity }
            ∷ (match_spec crosses (q - r.quantity) rs).fills;
      }
  unfolding match_spec
  spec_filled h k = let e : leb r.quantity q ≡ true = ground arith in rw (h, e)

  spec_partial :
      ((q == 0) || not (crosses r.price)) ≡ false
      → q < r.quantity
      → match_spec crosses q (r ∷ rs) ≡ record {
        fills = record { order_id = r.order_id; price = r.price; quantity = q } ∷ [];
        left = 0;
        rest = record r { quantity = r.quantity - q } ∷ rs;
      }
  unfolding match_spec
  spec_partial h k = let e : leb r.quantity q ≡ false = ground arith in rw (h, e)

-- The first order of the side, in the view of its counterparties.
module _ (e : Env) (a : ℕ) (s : Side) (l : FlatLevel) (ls : List FlatLevel)
    (ready : Ready e a s (l ∷ ls)) (p : ℕ) (ps : List ℕ) (is : live l ≡ p ∷ ps) where
  view-cons :
      view e.mem (l ∷ ls)
      ≡ record { order_id = (e.mem p).id; price = l.price; quantity = (e.mem p).remaining_quantity }
        ∷ (view_orders e.mem l.price ps ++ view e.mem ls)
  view-cons = rw is

  module _ (crosses : Order → ℕ → Bool) (stable : Stable crosses)
      (goes_on : (((e.mem a).remaining_quantity == 0) || not (crosses (e.mem a) l.price))
        ≡ false) where
    later_spec :
        (q : ℕ)
        → (e.mem p).remaining_quantity ≡ q
        → q ≤ (e.mem a).remaining_quantity
        → spec_of crosses (filled_env e a p q l.price) a (after_pop l q ps ls)
          ≡ match_spec
              (crosses (e.mem a))
              ((e.mem a).remaining_quantity - q)
              (view_orders e.mem l.price ps ++ view e.mem ls)
    later_spec q h k =
        let o = apart_lem e a s l ls ready p ps is in
        let same = filled-Same e a p q l.price o.apart ps o.a_ps o.p_ps in
        let same_rest = filled-Same e a p q l.price o.apart (pointers ls) o.a_rs o.p_rs in
        rw (
          remaining-filled e a p q l.price o.apart k ready.word,
          view-after_pop e.mem _ s l ls p ps is ready.valid.0 ready.valid.1 same same_rest q,
          fun_ext (stable (e.mem a) _ (filled-Kept e a p q l.price o.apart a)),
        )

    filled_spec :
        (q : ℕ)
        → (e.mem p).remaining_quantity ≡ q
        → q ≤ (e.mem a).remaining_quantity
        → spec_of crosses e a (l ∷ ls)
          ≡ record (spec_of crosses (filled_env e a p q l.price) a (after_pop l q ps ls)) {
            fills =
                record { order_id = (e.mem p).id; price = l.price; quantity = q }
                ∷ (spec_of crosses (filled_env e a p q l.price) a (after_pop l q ps ls)).fills;
          }
    filled_spec q h k =
        rw (later_spec q h k, view-cons)
          (let f =
              spec_filled (crosses (e.mem a)) (e.mem a).remaining_quantity
                (record {
                  order_id = (e.mem p).id;
                  price = l.price;
                  quantity = (e.mem p).remaining_quantity;
                })
                (view_orders e.mem l.price ps ++ view e.mem ls) goes_on (omega arith) in
            ground (arith, f, h))

    filled-Swept :
        (q : ℕ) (out : Env × List FlatLevel)
        → (e.mem p).remaining_quantity ≡ q
        → q ≤ (e.mem a).remaining_quantity
        → Swept crosses (filled_env e a p q l.price) a s (after_pop l q ps ls) out
        → Swept crosses e a s (l ∷ ls) out
    filled-Swept q out h k later =
        let o = apart_lem e a s l ls ready p ps is in
        let kept = filled-Kept e a p q l.price o.apart a in
        record {
          fills = rw (filled_spec q h k) (
              (rw kept.side at later.fills)
              ∙ ap
                  (λ x.
                    x
                    ++ (spec_of crosses (filled_env e a p q l.price) a (after_pop l q ps ls)).fills)
                  (fills-filled e a p q l.price o.apart)
              ∙ append_assoc (fills_of (e.mem a).side e.trades) _ _);
          left = rw (filled_spec q h k) later.left;
          rest = rw (filled_spec q h k) later.rest;
          valid = later.valid;
          kept = ground (arith, kept, later.kept);
        }

    -- The first order of the side is filled in part: it is the last one.
    partial-Swept :
        (q : ℕ)
        → (e.mem a).remaining_quantity ≡ q
        → q < (e.mem p).remaining_quantity
        → Swept crosses e a s (l ∷ ls) (execute_trade e a p q l.price, reduce_quantity l q ∷ ls)
    partial-Swept q h k =
        let o = apart_lem e a s l ls ready p ps is in
        let all : All (Rests e.mem s l.price) (p ∷ ps) = rw is at ready.valid.0.resting in
        let same = traded-Same e a p q l.price ps o.a_ps o.p_ps in
        let same_rest = traded-Same e a p q l.price (pointers ls) o.a_rs o.p_rs in
        let kept = traded-Kept e a p q l.price p in
        let left : ((execute_trade e a p q l.price).mem p).remaining_quantity
            ≡ (e.mem p).remaining_quantity - q =
          omega (arith, traded_passive e a p q l.price o.apart, all.0.word) in
        let spec =
          spec_partial (crosses (e.mem a)) (e.mem a).remaining_quantity
            (record {
              order_id = (e.mem p).id;
              price = l.price;
              quantity = (e.mem p).remaining_quantity;
            })
            (view_orders e.mem l.price ps ++ view e.mem ls) goes_on (omega arith) in
        record {
          fills = rw (view-cons, spec, h) (fills-traded e a p q l.price);
          left =
              rw (view-cons, spec)
                (omega (arith, traded_aggressive e a p q l.price o.apart, ready.word));
          rest =
              rw (view-cons, spec, h)
                (ap₂ ◌++◌
                  (view_orders-reduced e.mem _ s l ls p ps is ready.valid.0 same kept q k left)
                  (view-Same e.mem _ ls same_rest));
          valid = (
            reduced-LevelIsValid e.mem _ s l ls p ps is ready.valid.0 same kept q k left,
            SideIsValid-Same e.mem _ s ls same_rest ready.valid.1,
          );
          kept = traded-Kept e a p q l.price a;
        }

-- A sweep that has nothing more to do is one that `match_spec` stops.
idle-Swept :
    (crosses : Order → ℕ → Bool) (e : Env) (a : ℕ) (s : Side) (levels : List FlatLevel)
    → Ready e a s levels
    → spec_of crosses e a levels
      ≡ record { fills = []; left = (e.mem a).remaining_quantity; rest = view e.mem levels }
    → Swept crosses e a s levels (e, levels)
idle-Swept crosses e a s levels ready h = record {
  fills = rw h (sym (append-nil _));
  left = rw h;
  rest = rw h;
  valid = ready.valid;
  kept = record { id = refl; price = refl; side = refl };
}

Idle-spec :
    (crosses : Order → ℕ → Bool) (e : Env) (a : ℕ) (s : Side) (levels : List FlatLevel)
    → Ready e a s levels
    → Idle crosses e a levels
    → spec_of crosses e a levels
      ≡ record { fills = []; left = (e.mem a).remaining_quantity; rest = view e.mem levels }
unfolding match_spec
Idle-spec crosses e a s [] ready h = refl
Idle-spec crosses e a s (l ∷ ls) ready h =
    let (p, ps, is) = live-cons e.mem s l ready.valid.0 in
    rw (view-cons e a s l ls ready p ps is) (spec_stop (crosses (e.mem a)) _ _ _ h)

-- A sweep with fuel for every order of the side trades exactly what price-time priority says.
pub sweep-Swept :
    (crosses : Order → ℕ → Bool)
    → Stable crosses
    → (d : Bool) (fuel : ℕ) (e : Env) (a : ℕ) (s : Side) (levels : List FlatLevel)
    → Ready e a s levels
    → length (pointers levels) ≤ fuel
    → Swept crosses e a s levels (sweep crosses d fuel e a levels)
sweep-Swept crosses stable d fuel e a s levels ready enough =
    sweep_rule crosses d a s (λ e levels out. Swept crosses e a s levels out)
      (λ e levels ready idle.
        idle-Swept crosses e a s levels ready (Idle-spec crosses e a s levels ready idle))
      (λ e l ls p ps q out ready is goes_on h k later.
        filled-Swept e a s l ls ready p ps is crosses stable goes_on q out h k later)
      (λ e l ls p ps q ready is goes_on h k.
        partial-Swept e a s l ls ready p ps is crosses stable goes_on q h k)
      fuel e levels ready enough

-- When a sweep ends, there is nothing more to do: the order is filled, or the side is empty, or its
-- best price does not cross.
pub sweep-Idle :
    (crosses : Order → ℕ → Bool) (d : Bool) (fuel : ℕ) (e : Env) (a : ℕ) (s : Side)
    (levels : List FlatLevel)
    → Ready e a s levels
    → length (pointers levels) ≤ fuel
    → Idle crosses (sweep crosses d fuel e a levels).0 a (sweep crosses d fuel e a levels).1
sweep-Idle crosses d fuel e a s levels ready enough =
    sweep_rule crosses d a s (λ e levels out. Idle crosses out.0 a out.1)
      (λ e levels ready idle. idle) (λ e l ls p ps q out ready is goes_on h k later. later)
      (λ e l ls p ps q ready is goes_on h k.
        let o = apart_lem e a s l ls ready p ps is in
        let filled : ((execute_trade e a p q l.price).mem a).remaining_quantity ≡ 0 =
          omega (arith, traded_aggressive e a p q l.price o.apart, ready.word) in
        unfold reduce_quantity in rw filled)
      fuel e levels ready enough
