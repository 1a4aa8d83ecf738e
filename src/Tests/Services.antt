-- ===== src/Tests/Services.antt =====
-- The theorems on transactions and on the recovery strategies, applied to small worlds.
use rtes.Prelude.{
  ℕ, suc, ◌-◌, ◌*◌, min, ◌+◌, ◌<◌, ◌≡◌, ◌⊎◌, inl, refl, Bool, true, false, some, List, [], ◌∷◌,
  arith, ◌==◌, leb, if◌then◌else◌, drop, All,
}
use rtes.Errors.{order_invalid, Result, ok, err}
use rtes.Transaction.{Actions, Transaction, active, commit}
use rtes.Transaction.Commit.{Outcome, commit-Outcome}
use rtes.Recovery.{NetworkErrorRecovery, closed, attempt_recovery, attempts, failure_threshold}
use rtes.Recovery.Breaker.{IsValid, attempt_recovery-IsValid, IsRefusal, calls}
use rtes.Recovery.Trips.{calls-down}
use rtes.Recovery.Attempts.{First, after, answer, attempts-First}

-- An action puts its number on a stack; the number 13 is refused.
abbrev stack_execute : ℕ → List ℕ → Result (Unit {0}) × ℕ × List ℕ
stack_execute n w = if n == 13 then (err order_invalid, n, w) else (ok tt, n, n ∷ w)

abbrev stack : Actions ℕ (List ℕ)
stack = record { execute = stack_execute; rollback = λ n w. (ok tt, n, drop 1 w) }

abbrev third_fails : Transaction ℕ
third_fails = record {
  actions = 1 ∷ 2 ∷ 13 ∷ [];
  executed_actions = [];
  state = active;
  auto_rollback = true;
}

commit-Outcome_example :
    Outcome stack true [] (1 ∷ 2 ∷ 13 ∷ []) (7 ∷ []) (commit stack third_fails (7 ∷ []))
commit-Outcome_example = commit-Outcome stack third_fails (7 ∷ []) refl

-- A server that answers from the third connection on; the world counts the connections.
abbrev third_works : ℕ → Bool × ℕ
third_works n = (leb 2 n, n + 1)

abbrev healthy : NetworkErrorRecovery
healthy = record {
  max_retries = 3;
  circuit_state = closed;
  failure_count = 4;
  last_failure_time = 0;
}

attempt_recovery-IsValid_example : IsValid (attempt_recovery (some third_works) 5 healthy 0).1
attempt_recovery-IsValid_example =
    attempt_recovery-IsValid (some third_works) 5 healthy 0 (inl (refl, omega arith))

-- A server that is down; the world counts the connections.
abbrev unreachable : ℕ → Bool × ℕ
unreachable n = (false, n + 1)

calls-down_example :
    All (IsRefusal (some unreachable)) (calls (some unreachable) (6 ∷ 7 ∷ 8 ∷ []) healthy 0).0
    × ((calls (some unreachable) (6 ∷ 7 ∷ 8 ∷ []) healthy 0).2
        ≡ after unreachable (min 3 (failure_threshold - 4) * 3) 0)
calls-down_example =
    calls-down unreachable (λ n. refl) 5 100 (6 ∷ 7 ∷ 8 ∷ []) healthy 0 refl (omega arith)
      (omega arith)
      (omega arith, omega arith, (omega arith, omega arith, (omega arith, omega arith, tt)))

attempts-First_example :
    ((i : ℕ) × First third_works 3 0 i
      × (attempts 3 (some third_works) 0 ≡ (true, after third_works (suc i) 0)))
    ⊎ (((j : ℕ) → j < 3 → answer third_works j 0 ≡ false)
        × (attempts 3 (some third_works) 0 ≡ (false, after third_works 3 0)))
attempts-First_example = attempts-First third_works 3 0
