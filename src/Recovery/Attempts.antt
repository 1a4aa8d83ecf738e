-- ===== src/Recovery/Attempts.antt =====
-- src/error_handling.cpp: the loop over the attempts stops at the first connection that succeeds.
use rtes.Prelude.{
  ℕ, zero, suc, ◌<◌, ◌≡◌, ◌⊎◌, inl, inr, refl, Bool, true, false, some, arith, Bool-cases,
}
use rtes.Recovery.{attempts}

module _ {W : Type 0} (connect : W → Bool × W) where
  -- The world after `n` calls of the factory, and what the call after them answers.
  abbrev pub after : ℕ → W → W
  after zero w = w
  after (suc n) w = after n (connect w).1

  abbrev pub answer : ℕ → W → Bool
  answer n w = (connect (after n w)).0

  abbrev pub First : ℕ → W → ℕ → Type 0
  First n w i = (i < n) × (answer i w ≡ true) × ((j : ℕ) → j < i → answer j w ≡ false)

  earlier :
      (w : W)
      → (connect w).0 ≡ false
      → (n : ℕ) → ((j : ℕ) → j < n → answer j (connect w).1 ≡ false)
      → (j : ℕ) → j < suc n
      → answer j w ≡ false
  earlier w e n f zero h = e
  earlier w e n f (suc j) h = f j (omega arith)

  -- The loop calls the factory up to and with its first success within the `n` attempts, and succeeds;
  -- or every one of the `n` calls fails, and so does the loop.
  pub attempts-First :
      (n : ℕ) (w : W)
      → ((i : ℕ) × First n w i × (attempts n (some connect) w ≡ (true, after (suc i) w)))
        ⊎ (((j : ℕ) → j < n → answer j w ≡ false)
            × (attempts n (some connect) w ≡ (false, after n w)))
  unfolding attempts
  attempts-First zero w = inr (λ j h. absurd (omega arith), refl)
  attempts-First (suc n) w = elim (Bool-cases (connect w).0) [
    | inl e ↦ inl (0, (omega arith, e, λ j h. absurd (omega arith)), rw e refl)
    | inr e ↦ elim (attempts-First n (connect w).1) [
      | inl (i, f, q) ↦ inl (suc i, (omega (arith, f.0), f.1, earlier w e i f.2), rw (e, q) refl)
      | inr (f, q) ↦ inr (earlier w e n f, rw (e, q) refl)
    ]
  ]
