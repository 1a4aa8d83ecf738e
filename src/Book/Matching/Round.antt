-- ===== src/Book/Matching/Round.antt =====
-- src/order_book.cpp: what one trade of a sweep does to the state that both sides share.
use rtes.Prelude.{
  ℕ, ◌-◌, ◌≤◌, ◌<◌, ◌≡◌, refl, ◌≢◌, false, List, [], ◌∷◌, ◌++◌, arith, contains, ap, u64_mod, ◌∙◌,
}
use rtes.Types.Orders.{Side, Order, make_trade}
use rtes.Pool
use rtes.Book.Lookup.{erase_key}
use rtes.Book.Matching.{Env, trade_of, execute_trade, release_filled}
use rtes.Book.Matching.Frame.{
  Same, Kept, Same-trans, traded-Same, released-Same, traded_aggressive, released_other,
  traded-Kept, released-Kept,
}
use rtes.Book.Matching.View.{fill_of, fills_of, fills_of-append}

fill_of-trade_of :
    (e : Env) (aggressive passive : Order) (q price : ℕ) (s : Side) (i : ℕ)
    → aggressive.side ≡ s
    → passive.id ≡ i
    → fill_of s (trade_of e aggressive passive q price)
      ≡ record { order_id = i; price = price; quantity = q }
unfolding make_trade
fill_of-trade_of e aggressive passive q price s i h k = ground arith

-- The trade that is passed on names the passive order, the price of its level and the quantity.
pub fills-traded :
    (e : Env) (a p q price : ℕ)
    → fills_of (e.mem a).side (execute_trade e a p q price).trades
      ≡ fills_of (e.mem a).side e.trades
        ++ (record { order_id = (e.mem p).id; price = price; quantity = q } ∷ [])
unfolding execute_trade
fills-traded e a p q price =
    fills_of-append (e.mem a).side e.trades _
    ∙ ap (λ f. fills_of (e.mem a).side e.trades ++ (f ∷ []))
        (fill_of-trade_of e ((execute_trade e a p q price).mem a)
          ((execute_trade e a p q price).mem p) q price _ _ (traded-Kept e a p q price a).side
          (traded-Kept e a p q price p).id)

pub trades-released : (e : Env) (p : ℕ) → (release_filled e p).trades ≡ e.trades
unfolding release_filled
trades-released e p = refl

-- The state after a trade that fills the passive order.
abbrev pub filled_env : Env → ℕ → ℕ → ℕ → ℕ → Env
filled_env e a p q price = release_filled (execute_trade e a p q price) p

module _ (e : Env) (a p q price : ℕ) (apart : a ≢ p) where
  pub filled-Same :
      (ps : List ℕ)
      → contains a ps ≡ false
      → contains p ps ≡ false
      → Same e.mem (filled_env e a p q price).mem ps
  filled-Same ps h k =
      Same-trans e.mem _ _ ps (traded-Same e a p q price ps h k)
        (released-Same (execute_trade e a p q price) p ps k)

  pub filled-Kept : (x : ℕ) → Kept (e.mem x) ((filled_env e a p q price).mem x)
  filled-Kept x =
      ground (arith, traded-Kept e a p q price x, released-Kept (execute_trade e a p q price) p x)

  pub remaining-filled :
      q ≤ (e.mem a).remaining_quantity
      → (e.mem a).remaining_quantity < u64_mod
      → ((filled_env e a p q price).mem a).remaining_quantity ≡ (e.mem a).remaining_quantity - q
  remaining-filled h w = ground (
    arith,
    released_other (execute_trade e a p q price) p a,
    traded_aggressive e a p q price apart,
  )

  pub fills-filled :
      fills_of (e.mem a).side (filled_env e a p q price).trades
      ≡ fills_of (e.mem a).side e.trades
        ++ (record { order_id = (e.mem p).id; price = price; quantity = q } ∷ [])
  fills-filled = rw (trades-released (execute_trade e a p q price) p) (fills-traded e a p q price)

pub pool-filled :
    (e : Env) (a p q price : ℕ) → (filled_env e a p q price).pool ≡ Pool.deallocate e.pool p
unfolding release_filled execute_trade
pool-filled e a p q price = refl

pub lookup-filled :
    (e : Env) (a p q price : ℕ)
    → (filled_env e a p q price).order_lookup ≡ erase_key (e.mem p).id e.order_lookup
unfolding release_filled execute_trade
lookup-filled e a p q price = ground arith
