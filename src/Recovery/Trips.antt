-- ===== src/Recovery/Trips.antt =====
-- src/error_handling.cpp: how often a server that is down is called.
use rtes.Prelude.{
  ℕ, zero, suc, ◌+◌, ◌-◌, ◌*◌, ◌≤◌, ◌<◌, ◌≡◌, inl, inr, refl, ◌∙◌, sym, min, Bool, true, false,
  some, List, [], ◌∷◌, arith, length, leb, Bool-cases, All,
}
use rtes.Recovery.{
  NetworkErrorRecovery, closed, open_circuit, attempts, count_failure, try_connections, refuses,
  half_opened, attempt_recovery, circuit_timeout, failure_threshold,
}
use rtes.Errors.{err, network_connection_failed}
use rtes.Recovery.Breaker.{calls, calls_open, IsRefusal}
use rtes.Recovery.Attempts.{after}

-- The times do not go back from `last` on, and end before `until`.
abbrev pub Within : ℕ → ℕ → List ℕ → Type 0
Within last until [] = Unit {0}
Within last until (now ∷ later) = (last ≤ now) × (now < until) × Within now until later

module _ {W : Type 0} (connect : W → Bool × W) (down : (w : W) → (connect w).0 ≡ false) where
  attempts_down : (n : ℕ) (w : W) → attempts n (some connect) w ≡ (false, after connect n w)
  unfolding attempts
  attempts_down zero w = refl
  attempts_down (suc n) w = rw (down w) (attempts_down n (connect w).1)

  after-add : (m n : ℕ) (w : W) → after connect (m + n) w ≡ after connect n (after connect m w)
  after-add zero n w = let e : 0 + n ≡ n = omega arith in rw e refl
  after-add (suc m) n w =
      let e : suc m + n ≡ suc (m + n) = omega arith in rw e (after-add m n (connect w).1)

  -- A call of a closed breaker tries all its attempts and counts a failure.
  attempt_recovery_down :
      (now : ℕ) (r : NetworkErrorRecovery) (w : W)
      → r.circuit_state ≡ closed
      → attempt_recovery (some connect) now r w
        ≡ (err network_connection_failed, count_failure r now, after connect r.max_retries w)
  unfolding attempt_recovery try_connections refuses half_opened count_failure
  attempt_recovery_down now r w e = rw (e, attempts_down r.max_retries w) refl

  calls_later :
      (last until bound : ℕ) (times : List ℕ)
      → until ≤ bound
      → Within last until times
      → All (λ now. now < bound) times
  calls_later last until bound [] u h = tt
  calls_later last until bound (now ∷ later) u h =
      (omega (arith, h.1), calls_later now until bound later u h.2)

  opened :
      (r : NetworkErrorRecovery) (now : ℕ)
      → leb failure_threshold (suc r.failure_count) ≡ true
      → (count_failure r now).circuit_state ≡ open_circuit
  unfolding count_failure
  opened r now full = rw full refl

  still_closed :
      (r : NetworkErrorRecovery) (now : ℕ)
      → r.circuit_state ≡ closed
      → leb failure_threshold (suc r.failure_count) ≡ false
      → (count_failure r now).circuit_state ≡ closed
  unfolding count_failure
  still_closed r now o more = rw more o

  calls_in_time :
      (last until now : ℕ) (later : List ℕ) (r : NetworkErrorRecovery)
      → until ≤ last + circuit_timeout
      → Within last until (now ∷ later)
      → All (λ t. t < (count_failure r now).last_failure_time + circuit_timeout) later
  unfolding count_failure
  calls_in_time last until now later r u h =
      calls_later now until (now + circuit_timeout) later (omega (arith, h.0)) h.2

  -- A server that is down is called by at most as many calls of a closed breaker as are missing to five
  -- failures in a row, within any time that is shorter than the timeout, and with all its attempts by
  -- each of these: the others do not reach the connection factory. Every call answers with the error.
  pub calls-down :
      (last until : ℕ) (times : List ℕ) (r : NetworkErrorRecovery) (w : W)
      → r.circuit_state ≡ closed
      → r.failure_count < failure_threshold
      → until ≤ last + circuit_timeout
      → Within last until times
      → All (IsRefusal (some connect)) (calls (some connect) times r w).0
        × ((calls (some connect) times r w).2
            ≡ after connect
                (min (length times) (failure_threshold - r.failure_count) * r.max_retries)
                w)
  unfolding calls count_failure
  calls-down last until [] r w o f u h =
      let none_left : min 0 (failure_threshold - r.failure_count) ≡ 0 = omega arith in
      let no_call : min 0 (failure_threshold - r.failure_count) * r.max_retries ≡ 0 =
        rw none_left (omega arith) in
      (tt, rw no_call refl)
  calls-down last until (now ∷ later) r w o f u h =
      let n = r.max_retries in
      let left = failure_threshold - r.failure_count in
      elim (Bool-cases (leb failure_threshold (suc r.failure_count))) [
        | inl full ↦
            let one : min (suc (length later)) left ≡ 1 = ground arith in
            let all : min (suc (length later)) left * n ≡ n = rw one (omega arith) in
            let rest =
              calls_open (some connect) later (count_failure r now) (after connect n w)
                (opened r now full) (calls_in_time last until now later r u h) in
            rw (attempt_recovery_down now r w o, all) ((refl, rest.0), rest.2)
        | inr more ↦
            let k = min (length later) (failure_threshold - suc r.failure_count) in
            let fewer : min (suc (length later)) left ≡ suc k = ground arith in
            let all : min (suc (length later)) left * n ≡ n + k * n = rw fewer (omega arith) in
            let rest =
              calls-down now until later (count_failure r now) (after connect n w)
                (still_closed r now o more) (ground arith) (omega (arith, h.0)) h.2 in
            rw (attempt_recovery_down now r w o, all)
              ((refl, rest.0), rest.1 ∙ sym (after-add n (k * n) w))
      ]
