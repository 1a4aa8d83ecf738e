-- ===== src/Validation/Clean.antt =====
-- src/input_validation.cpp: the trimming at both ends, and the whole of `sanitize_network_input`.
use rtes.Prelude.{
  ℕ, ◌≡◌, refl, Bool, true, false, List, [], ◌∷◌, arith, ltb, ◌==◌, ◌||◌, Bool-cases, inl, inr,
  length, All,
}
use rtes.Validation.{
  remove_control_chars, escape_special_chars, collapse, trim_front, trim_back, normalize_whitespace,
  sanitize_network_input,
}
use rtes.Validation.Text.{
  Escaped, Spaced, ends_in_space, Printable, remove-Kept, escape-Kept, escape-Escaped,
  collapse-Printable, collapse-Spaced, collapse-Escaped,
}

-- Printable ASCII; dangerous characters behind a backslash; single spaces, and none at either end.
pub record Clean (s : List ℕ) : Type 0 where
  pub printable : All Printable s
  pub escaped : Escaped 0 s
  pub spaced : Spaced true s
  pub trimmed : ends_in_space s ≡ false

-- A space in front is no backslash, so what follows it is not dangerous.
front-Escaped : (s : List ℕ) → Escaped 0 s → Escaped 0 (trim_front s)
unfolding trim_front
front-Escaped [] h = tt
front-Escaped (c ∷ []) h = elim (Bool-cases (c == 32)) [ inl e ↦ rw e tt | inr e ↦ rw e h ]
front-Escaped (c ∷ (d ∷ s)) h = elim (Bool-cases (c == 32)) [
  | inl e ↦ rw e (λ k. absurd (ground (arith, h.1.0 k)), h.1.1)
  | inr e ↦ rw e h
]

front-Spaced : (s : List ℕ) → Spaced false s → Spaced true (trim_front s)
unfolding trim_front
front-Spaced [] h = tt
front-Spaced (c ∷ s) h = elim (Bool-cases (c == 32)) [
  | inl e ↦ rw e (rw e at h.1)
  | inr e ↦ rw e (λ q. absurd (ground arith), h.1)
]

front-Printable : (s : List ℕ) → All Printable s → All Printable (trim_front s)
unfolding trim_front
front-Printable [] h = tt
front-Printable (c ∷ s) h = elim (Bool-cases (c == 32)) [ inl e ↦ rw e h.1 | inr e ↦ rw e h ]

back-Printable : (s : List ℕ) → All Printable s → All Printable (trim_back s)
unfolding trim_back
back-Printable [] h = tt
back-Printable (c ∷ []) h = elim (Bool-cases (c == 32)) [ inl e ↦ rw e tt | inr e ↦ rw e h ]
back-Printable (c ∷ (d ∷ s)) h = (h.0, back-Printable (d ∷ s) h.1)

back-Escaped : (s : List ℕ) (prev : ℕ) → Escaped prev s → Escaped prev (trim_back s)
unfolding trim_back
back-Escaped [] prev h = tt
back-Escaped (c ∷ []) prev h = elim (Bool-cases (c == 32)) [ inl e ↦ rw e tt | inr e ↦ rw e h ]
back-Escaped (c ∷ (d ∷ s)) prev h = (h.0, back-Escaped (d ∷ s) c h.1)

back-Spaced : (s : List ℕ) (after : Bool) → Spaced after s → Spaced after (trim_back s)
unfolding trim_back
back-Spaced [] after h = tt
back-Spaced (c ∷ []) after h = elim (Bool-cases (c == 32)) [ inl e ↦ rw e tt | inr e ↦ rw e h ]
back-Spaced (c ∷ (d ∷ s)) after h = (h.0, back-Spaced (d ∷ s) (c == 32) h.1)

-- Behind a character that is no space, one space at most is taken off.
back_trimmed : (s : List ℕ) (after : Bool) → Spaced after s → ends_in_space (trim_back s) ≡ false
unfolding trim_back
back_trimmed [] after h = refl
back_trimmed (c ∷ []) after h = elim (Bool-cases (c == 32)) [ inl e ↦ rw e refl | inr e ↦ rw e e ]
back_trimmed (c ∷ (d ∷ [])) after h = elim (Bool-cases (d == 32)) [
  | inl e ↦ rw e (h.1.0 (ground arith))
  | inr e ↦ rw e e
]
back_trimmed (c ∷ (d ∷ (x ∷ s))) after h = back_trimmed (d ∷ (x ∷ s)) (c == 32) h.1

-- Whatever comes in, the cleaned text is printable ASCII, each dangerous character stands behind a
-- backslash, no two spaces follow each other, and no space stands at either end.
pub sanitize_network_input-Clean : (input : List ℕ) → Clean (sanitize_network_input input)
unfolding sanitize_network_input normalize_whitespace
sanitize_network_input-Clean input =
    let kept = escape-Kept (remove_control_chars input) (remove-Kept input) in
    let text : List ℕ = escape_special_chars (remove_control_chars input) in
    let spaced : Spaced true (trim_front (collapse false text)) =
      front-Spaced (collapse false text) (collapse-Spaced text false kept) in
    elim (Bool-cases ((length input == 0) || ltb 8192 (length input))) [
      | inl e ↦ rw e (record { printable = tt; escaped = tt; spaced = tt; trimmed = refl })
      | inr e ↦ rw e (record {
        printable =
            back-Printable (trim_front (collapse false text))
              (front-Printable (collapse false text) (collapse-Printable text false kept));
        escaped = back-Escaped (trim_front (collapse false text)) 0 (
            front-Escaped (collapse false text) (
              collapse-Escaped text false 0 0 (escape-Escaped (remove_control_chars input) 0)
                (inl refl)));
        spaced = back-Spaced (trim_front (collapse false text)) true spaced;
        trimmed = back_trimmed (trim_front (collapse false text)) true spaced;
      })
    ]
