-- ===== src/Recovery/Breaker.antt =====
-- src/error_handling.cpp: the circuit breaker of `NetworkErrorRecovery` as a state machine.
use rtes.Prelude.{
  ℕ, ◌+◌, ◌≤◌, ◌<◌, ◌≡◌, ◌⊎◌, inl, inr, refl, Bool, true, Option, List, [], ◌∷◌, arith, Bool-cases,
  All,
}
use rtes.Errors.{network_connection_failed, Result, err}
use rtes.Recovery.{
  NetworkErrorRecovery, closed, open_circuit, attempts, count_failure, try_connections, refuses,
  half_opened, attempt_recovery, circuit_timeout, failure_threshold,
}

-- Between two calls the breaker is closed below the threshold, or open from it on; never half open.
abbrev pub IsValid : NetworkErrorRecovery → Type 0
IsValid r =
    ((r.circuit_state ≡ closed) × (r.failure_count < failure_threshold))
    ⊎ ((r.circuit_state ≡ open_circuit) × (failure_threshold ≤ r.failure_count))

count_failure-IsValid :
    (r : NetworkErrorRecovery) (now : ℕ) → IsValid r → IsValid (count_failure (half_opened r) now)
unfolding count_failure half_opened
count_failure-IsValid r now v = ground arith

refuses_open :
    (r : NetworkErrorRecovery) (now : ℕ)
    → r.circuit_state ≡ open_circuit
    → now < r.last_failure_time + circuit_timeout
    → refuses r now ≡ true
unfolding refuses
refuses_open r now o h = rw o (ground arith)

module _ {W : Type 0} (factory : Option (W → Bool × W)) where
  -- A call of attempt_recovery keeps the breaker closed below five failures in a row, or open from five
  -- on, and never leaves it half open.
  pub attempt_recovery-IsValid :
      (now : ℕ) (r : NetworkErrorRecovery) (w : W)
      → IsValid r
      → IsValid (attempt_recovery factory now r w).1
  unfolding attempt_recovery try_connections half_opened
  attempt_recovery-IsValid now r w v = elim (Bool-cases (refuses r now)) [
    | inl e ↦ rw e v
    | inr e ↦ elim (Bool-cases (attempts r.max_retries factory w).0) [
      | inl f ↦ rw (e, f) (inl (refl, omega arith))
      | inr f ↦ rw (e, f) (count_failure-IsValid r now v)
    ]
  ]

  -- Calls at the times of the list, one after another.
  unfoldable pub calls :
      List ℕ → NetworkErrorRecovery → W → List (Result (Unit {0})) × NetworkErrorRecovery × W
  calls [] r w = ([], r, w)
  calls (now ∷ later) r w =
      let first = attempt_recovery factory now r w in
      let rest = calls later first.1 first.2 in (first.0 ∷ rest.0, rest.1, rest.2)

  abbrev pub IsRefusal : Result (Unit {0}) → Type 0
  IsRefusal answer = answer ≡ err network_connection_failed

  -- While the breaker is open and less than its timeout has gone by since the last failure, no call
  -- reaches the connection factory, however many there are: each is refused at once.
  pub calls_open :
      (times : List ℕ) (r : NetworkErrorRecovery) (w : W)
      → r.circuit_state ≡ open_circuit
      → All (λ now. now < r.last_failure_time + circuit_timeout) times
      → All IsRefusal (calls times r w).0 × ((calls times r w).1 ≡ r) × ((calls times r w).2 ≡ w)
  unfolding calls attempt_recovery
  calls_open [] r w o h = (tt, refl, refl)
  calls_open (now ∷ later) r w o h =
      let e : refuses r now ≡ true = refuses_open r now o h.0 in
      let rest = calls_open later r w o h.1 in rw e ((refl, rest.0), rest.1, rest.2)
