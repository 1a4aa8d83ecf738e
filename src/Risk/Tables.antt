-- ===== src/Risk/Tables.antt =====
-- The hash maps of src/risk_manager.cpp whose keys are `FixedString`s of one width, as lists of
-- entries that `operator==` tells apart.
use rtes.Prelude.{
  ℕ, zero, suc, ◌≡◌, refl, true, List, [], ◌∷◌, Option, none, some, arith, if◌then◌else◌,
  Bool-cases, inl, inr,
}
use rtes.Types.FixedString.{FixedString, eq, strncmp_eq, later_bytes}

strncmp_eq_refl : (n : ℕ) (s : List ℕ) → strncmp_eq n s s ≡ true
unfolding strncmp_eq
strncmp_eq_refl zero s = refl
strncmp_eq_refl (suc n) s = ground (arith, strncmp_eq_refl n (later_bytes s))

eq_refl : (n : ℕ) (s : FixedString) → eq n s s ≡ true
unfolding eq
eq_refl n s = strncmp_eq_refl n s.bytes

module _ {ℓ} {V : Type ℓ} where
  unfoldable pub find_in : ℕ → FixedString → List (FixedString × V) → Option V
  find_in n k [] = none
  find_in n k ((j, v) ∷ m) = if eq n j k then some v else find_in n k m

  -- `m[k] = v`
  unfoldable pub assign_in : ℕ → FixedString → V → List (FixedString × V) → List (FixedString × V)
  assign_in n k v [] = (k, v) ∷ []
  assign_in n k v ((j, w) ∷ m) = if eq n j k then (j, v) ∷ m else (j, w) ∷ assign_in n k v m

  -- What was assigned is found.
  pub find_in-assign_in :
      (n : ℕ) (k : FixedString) (v : V) (m : List (FixedString × V))
      → find_in n k (assign_in n k v m) ≡ some v
  unfolding find_in assign_in
  find_in-assign_in n k v [] = rw (eq_refl n k) refl
  find_in-assign_in n k v ((j, w) ∷ m) = elim (Bool-cases (eq n j k)) [
    | inl same ↦ rw (same, same) refl
    | inr differs ↦ rw (differs, differs) (find_in-assign_in n k v m)
  ]
