-- ===== src/Validation/Text.antt =====
-- src/input_validation.cpp: what text from the network is like after the cleaning.
use rtes.Prelude.{
  ℕ, ◌≤◌, ◌<◌, ◌≡◌, ◌≢◌, ◌⊎◌, inl, inr, refl, Bool, true, false, List, [], ◌∷◌, arith, ◌==◌,
  Bool-cases, All,
}
use rtes.Validation.{
  is_control, is_dangerous, is_kept, is_space, remove_control_chars, escape_special_chars, collapse,
}

-- Each dangerous character stands behind a backslash; `prev` stands in front of the text.
abbrev pub Escaped : ℕ → List ℕ → Type 0
Escaped prev [] = Unit {0}
Escaped prev (c ∷ s) = (is_dangerous c ≡ true → prev ≡ 92) × Escaped c s

-- No two spaces in a row; `after` is whether a space stands in front of the text.
abbrev pub Spaced : Bool → List ℕ → Type 0
Spaced after [] = Unit {0}
Spaced after (c ∷ s) = (c ≡ 32 → after ≡ false) × Spaced (c == 32) s

abbrev pub ends_in_space : List ℕ → Bool
ends_in_space [] = false
ends_in_space (c ∷ []) = c == 32
ends_in_space (c ∷ (d ∷ s)) = ends_in_space (d ∷ s)

abbrev pub Printable : ℕ → Type 0
Printable c = (32 ≤ c) × (c < 127)

abbrev Kept : ℕ → Type 0
Kept c = is_kept c ≡ true

pub remove-Kept : (s : List ℕ) → All Kept (remove_control_chars s)
unfolding remove_control_chars
remove-Kept [] = tt
remove-Kept (c ∷ s) = elim (Bool-cases (is_kept c)) [
  | inl e ↦ rw e (e, remove-Kept s)
  | inr e ↦ rw e (remove-Kept s)
]

backslash : (is_kept 92 ≡ true) × (is_dangerous 92 ≡ false)
unfolding is_kept is_dangerous is_control
backslash = (refl, refl)

pub escape-Kept : (s : List ℕ) → All Kept s → All Kept (escape_special_chars s)
unfolding escape_special_chars
escape-Kept [] h = tt
escape-Kept (c ∷ s) h = elim (Bool-cases (is_dangerous c)) [
  | inl e ↦ rw e (backslash.0, (h.0, escape-Kept s h.1))
  | inr e ↦ rw e (h.0, escape-Kept s h.1)
]

pub escape-Escaped : (s : List ℕ) (prev : ℕ) → Escaped prev (escape_special_chars s)
unfolding escape_special_chars
escape-Escaped [] prev = tt
escape-Escaped (c ∷ s) prev = elim (Bool-cases (is_dangerous c)) [
  | inl e ↦ rw e (λ d. absurd (ground (arith, backslash.1)), (λ _. refl, escape-Escaped s c))
  | inr e ↦ rw e (λ d. absurd (ground arith), escape-Escaped s c)
]

space_facts : (c : ℕ) → is_space c ≡ true → (c ≢ 92) × (is_dangerous 32 ≡ false)
unfolding is_space is_dangerous
space_facts c h = ground arith

other_facts : (c : ℕ) → is_space c ≡ false → is_kept c ≡ true → Printable c × (c ≢ 32)
unfolding is_space is_kept is_control
other_facts c h k = ground arith

pub collapse-Printable : (s : List ℕ) (p : Bool) → All Kept s → All Printable (collapse p s)
unfolding collapse
collapse-Printable [] p h = tt
collapse-Printable (c ∷ s) p h = elim (Bool-cases (is_space c)) [
  | inl e ↦ elim (Bool-cases p) [
    | inl f ↦ rw (e, f) (collapse-Printable s true h.1)
    | inr f ↦ rw (e, f) ((omega arith, omega arith), collapse-Printable s true h.1)
  ]
  | inr e ↦ rw e ((other_facts c e h.0).0, collapse-Printable s false h.1)
]

pub collapse-Spaced : (s : List ℕ) (p : Bool) → All Kept s → Spaced p (collapse p s)
unfolding collapse
collapse-Spaced [] p h = tt
collapse-Spaced (c ∷ s) p h = elim (Bool-cases (is_space c)) [
  | inl e ↦ elim (Bool-cases p) [
    | inl f ↦ rw (e, f) (collapse-Spaced s true h.1)
    | inr f ↦ rw (e, f) (λ _. refl, collapse-Spaced s true h.1)
  ]
  | inr e ↦
      let other : c ≢ 32 = (other_facts c e h.0).1 in
      let differs : (c == 32) ≡ false = ground arith in
      rw e (λ q. absurd (other q), rw differs (collapse-Spaced s false h.1))
]

-- `q` stands in front of the collapsed text where `prev` stood, or white space stood there.
pub collapse-Escaped :
    (s : List ℕ) (p : Bool) (prev q : ℕ)
    → Escaped prev s
    → (q ≡ prev) ⊎ (is_space prev ≡ true)
    → Escaped q (collapse p s)
unfolding collapse
collapse-Escaped [] p prev q h k = tt
collapse-Escaped (c ∷ s) p prev q h k = elim (Bool-cases (is_space c)) [
  | inl e ↦ elim (Bool-cases p) [
    | inl f ↦ rw (e, f) (collapse-Escaped s true c q h.1 (inr e))
    | inr f ↦
        rw (e, f)
          (λ d. absurd (ground (arith, space_facts c e)), collapse-Escaped s true c 32 h.1 (inr e))
  ]
  | inr e ↦
      rw e
        (λ d. ground (arith, h.0 d, space_facts prev), collapse-Escaped s false c c h.1 (inl refl))
]
