-- ===== src/Book/Matching/Frame.antt =====
-- src/order_book.cpp, `execute_trade` and the release of a filled order: what they write in the
-- memory of the orders, and what they leave.
use rtes.Prelude.{ℕ, ◌≡◌, ◌≢◌, false, List, [], ◌∷◌, arith, ◌==◌, sub64, contains, All}
use rtes.Types.Orders.{Order}
use rtes.Book.Levels.{Memory}
use rtes.Book.Matching.{Env, execute_trade, release_filled}

-- The two memories hold the same orders at all these places.
abbrev pub Same : Memory → Memory → List ℕ → Type 0
Same mem mem' = All (λ p. mem' p ≡ mem p)

-- The parts of an order that trading leaves alone.
pub record Kept (o o' : Order) : Type 0 where
  pub id : o'.id ≡ o.id
  pub price : o'.price ≡ o.price
  pub side : o'.side ≡ o.side

module _ (e : Env) (aggressive passive qty price : ℕ) (apart : aggressive ≢ passive) where
  pub traded_aggressive :
      ((execute_trade e aggressive passive qty price).mem aggressive).remaining_quantity
      ≡ sub64 (e.mem aggressive).remaining_quantity qty
  unfolding execute_trade
  traded_aggressive = ground arith

  pub traded_passive :
      ((execute_trade e aggressive passive qty price).mem passive).remaining_quantity
      ≡ sub64 (e.mem passive).remaining_quantity qty
  unfolding execute_trade
  traded_passive = ground arith

pub traded_other :
    (e : Env) (aggressive passive qty price x : ℕ)
    → (aggressive == x) ≡ false
    → (passive == x) ≡ false
    → (execute_trade e aggressive passive qty price).mem x ≡ e.mem x
unfolding execute_trade
traded_other e aggressive passive qty price x h k = ground arith

pub traded-Kept :
    (e : Env) (aggressive passive qty price x : ℕ)
    → Kept (e.mem x) ((execute_trade e aggressive passive qty price).mem x)
unfolding execute_trade
traded-Kept e aggressive passive qty price x = ground arith

pub released_other :
    (e : Env) (passive x : ℕ) → (passive == x) ≡ false → (release_filled e passive).mem x ≡ e.mem x
unfolding release_filled
released_other e passive x h = ground arith

pub released-Kept : (e : Env) (passive x : ℕ) → Kept (e.mem x) ((release_filled e passive).mem x)
unfolding release_filled
released-Kept e passive x = ground arith

pub traded-Same :
    (e : Env) (aggressive passive qty price : ℕ) (ps : List ℕ)
    → contains aggressive ps ≡ false
    → contains passive ps ≡ false
    → Same e.mem (execute_trade e aggressive passive qty price).mem ps
traded-Same e a p qty price [] h k = tt
traded-Same e a p qty price (x ∷ ps) h k = (
  traded_other e a p qty price x (ground arith) (ground arith),
  traded-Same e a p qty price ps (ground arith) (ground arith),
)

pub released-Same :
    (e : Env) (passive : ℕ) (ps : List ℕ)
    → contains passive ps ≡ false
    → Same e.mem (release_filled e passive).mem ps
released-Same e p [] k = tt
released-Same e p (x ∷ ps) k =
    (released_other e p x (ground arith), released-Same e p ps (ground arith))

pub Same-trans : (m m' m'' : Memory) (ps : List ℕ) → Same m m' ps → Same m' m'' ps → Same m m'' ps
Same-trans m m' m'' [] h k = tt
Same-trans m m' m'' (p ∷ ps) h k = (cc, Same-trans m m' m'' ps h.1 k.1)
