-- ===== src/Transaction/Ended.antt =====
-- src/transaction.cpp: a transaction that was rolled back is over.
use rtes.Prelude.{◌≡◌, refl, ◌∙◌, ap, true, false, List, [], ◌∷◌, arith}
use rtes.Transaction.{
  Actions, Transaction, State, rolled_back, is_active, is_rolled_back, add_action, rollback, commit,
  destroy,
}

-- The calls that a client makes of a transaction.
pub data Call (A : Type 0) : Type 0 where
  add : A → Call A
  commits rolls_back leaves : Call A

module _ {A W : Type 0} (ops : Actions A W) where
  unfoldable pub call : Call A → Transaction A → W → Transaction A × W
  call (add a) t w = (add_action t a, w)
  call commits t w = let r = commit ops t w in (r.1, r.2)
  call rolls_back t w = let r = rollback ops t w in (r.1, r.2)
  call leaves t w = (t, destroy ops t w)

  unfoldable pub calls : List (Call A) → Transaction A → W → Transaction A × W
  calls [] t w = (t, w)
  calls (c ∷ cs) t w = let r = call c t w in calls cs r.0 r.1

  over : (s : State) → s ≡ rolled_back → (is_active s ≡ false) × (is_rolled_back s ≡ true)
  over s e = ground arith

  call_over : (c : Call A) (t : Transaction A) (w : W) → t.state ≡ rolled_back → call c t w ≡ (t, w)
  unfolding call commit rollback destroy add_action
  call_over (add a) t w e = rw (over t.state e).0 refl
  call_over commits t w e = rw (over t.state e).0 refl
  call_over rolls_back t w e = rw (over t.state e).1 refl
  call_over leaves t w e = rw (over t.state e).0 refl

  -- No call on a transaction that was rolled back changes it or the world: nothing is executed after
  -- the rollback and nothing is rolled back twice.
  calls-rolled_back :
      (cs : List (Call A)) (t : Transaction A) (w : W)
      → t.state ≡ rolled_back
      → calls cs t w ≡ (t, w)
  unfolding calls
  calls-rolled_back [] t w e = refl
  calls-rolled_back (c ∷ cs) t w e =
      ap (λ (r : Transaction A × W). calls cs r.0 r.1) (call_over c t w e)
      ∙ calls-rolled_back cs t w e
