-- ===== src/Validation/Symbols.antt =====
-- src/input_validation.cpp: symbols and client identifiers after the cleaning.
use rtes.Prelude.{
  ℕ, zero, suc, ◌≤◌, ◌≡◌, refl, Bool, true, List, [], ◌∷◌, arith, leb, ◌&&◌, ◌||◌, Bool-cases, inl,
  inr, length, All,
}
use rtes.Validation.{is_alnum, to_upper, take_symbol, sanitize_symbol}

-- A digit or a capital letter
abbrev pub is_symbol_char : ℕ → Bool
is_symbol_char c = (leb 48 c && leb c 57) || (leb 65 c && leb c 90)

upper_facts : (c : ℕ) → is_alnum c ≡ true → is_symbol_char (to_upper c) ≡ true
unfolding is_alnum to_upper
upper_facts c h = ground arith

upper_fixed : (c : ℕ) → is_symbol_char c ≡ true → (is_alnum c ≡ true) × (to_upper c ≡ c)
unfolding is_alnum to_upper
upper_fixed c h = ground arith

take_symbol-chars : (n : ℕ) (s : List ℕ) → All (λ c. is_symbol_char c ≡ true) (take_symbol n s)
unfolding take_symbol
take_symbol-chars zero s = tt
take_symbol-chars (suc n) [] = tt
take_symbol-chars (suc n) (c ∷ s) = elim (Bool-cases (is_alnum c)) [
  | inl e ↦ rw e (upper_facts c e, take_symbol-chars n s)
  | inr e ↦ rw e (take_symbol-chars (suc n) s)
]

length-take_symbol : (n : ℕ) (s : List ℕ) → length (take_symbol n s) ≤ n
unfolding take_symbol
length-take_symbol zero s = omega arith
length-take_symbol (suc n) [] = omega arith
length-take_symbol (suc n) (c ∷ s) = elim (Bool-cases (is_alnum c)) [
  | inl e ↦ rw e (omega (arith, length-take_symbol n s))
  | inr e ↦ rw e (length-take_symbol (suc n) s)
]

take_symbol_fixed :
    (n : ℕ) (s : List ℕ) → length s ≤ n → All (λ c. is_symbol_char c ≡ true) s → take_symbol n s ≡ s
unfolding take_symbol
take_symbol_fixed zero [] h k = refl
take_symbol_fixed zero (c ∷ s) h k = absurd (omega arith)
take_symbol_fixed (suc n) [] h k = refl
take_symbol_fixed (suc n) (c ∷ s) h k =
    rw ((upper_fixed c k.0).0, (upper_fixed c k.0).1, take_symbol_fixed n s (omega arith) k.1) refl

-- A symbol of the right form stays as it is.
pub sanitize_symbol_fixed :
    (s : List ℕ) → length s ≤ 8 → All (λ c. is_symbol_char c ≡ true) s → sanitize_symbol s ≡ s
unfolding sanitize_symbol
sanitize_symbol_fixed s h k = take_symbol_fixed 8 s h k

-- The cleaned symbol has at most 8 characters, each a digit or a capital letter, and cleaning it again
-- changes nothing.
pub sanitize_symbol-twice :
    (s : List ℕ)
    → (length (sanitize_symbol s) ≤ 8)
      × All (λ c. is_symbol_char c ≡ true) (sanitize_symbol s)
      × (sanitize_symbol (sanitize_symbol s) ≡ sanitize_symbol s)
unfolding sanitize_symbol
sanitize_symbol-twice s = (
  length-take_symbol 8 s,
  take_symbol-chars 8 s,
  take_symbol_fixed 8 (take_symbol 8 s) (length-take_symbol 8 s) (take_symbol-chars 8 s),
)
