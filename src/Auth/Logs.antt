-- ===== src/Auth/Logs.antt =====
-- src/security_utils.cpp: what `sanitize_log_input` writes can be read back.
use rtes.Prelude.{
  ℕ, ◌≡◌, ◌≢◌, refl, ap, ◌∙◌, false, List, [], ◌∷◌, ◌++◌, ◌==◌, if◌then◌else◌, Bool-cases, inl, inr,
  arith, All,
}
use rtes.Auth.{is_control, escape, sanitize_log_input}

-- A reader of the log: a backslash and the next byte stand for one byte.
abbrev plain : ℕ → ℕ
plain c = if c == 110 then 10 else if c == 114 then 13 else if c == 116 then 9 else c

unfoldable pub unescape : List ℕ → List ℕ
unescape [] = []
unescape (c ∷ []) = c ∷ []
unescape (c ∷ (d ∷ s)) =
    let escaped = plain d ∷ unescape s in
    let bare = c ∷ unescape (d ∷ s) in if c == 92 then escaped else bare

-- The input without its control characters
unfoldable pub without_controls : List ℕ → List ℕ
without_controls [] = []
without_controls (c ∷ input) =
    let rest = without_controls input in if is_control c then rest else c ∷ rest

-- A byte that cannot end a line of the log or steer a terminal.
abbrev pub IsLogByte : ℕ → Type 0
IsLogByte c = (is_control c ≡ false) × (c ≢ 10) × (c ≢ 13) × (c ≢ 9)

unescape-bare : (c : ℕ) (s : List ℕ) → c ≢ 92 → unescape (c ∷ s) ≡ c ∷ unescape s
unfolding unescape
unescape-bare c [] h = refl
unescape-bare c (d ∷ s) h = ground arith

unescape-escape : (c : ℕ) (s : List ℕ) → unescape (escape c ++ s) ≡ c ∷ unescape s
unfolding escape unescape
unescape-escape c s = ground (arith, unescape-bare c s)

escape-IsLogByte :
    (c : ℕ) (s : List ℕ) → is_control c ≡ false → All IsLogByte s → All IsLogByte (escape c ++ s)
unfolding escape is_control
escape-IsLogByte c s h k = ground arith

-- Of any input, every byte of the result is a byte that stays on its line, and a reader of the escapes
-- gets back the input without its control characters.
pub unescape-sanitize_log_input :
    (input : List ℕ)
    → All IsLogByte (sanitize_log_input input)
      × (unescape (sanitize_log_input input) ≡ without_controls input)
unfolding sanitize_log_input without_controls unescape
unescape-sanitize_log_input [] = (tt, refl)
unescape-sanitize_log_input (c ∷ input) =
    let (bytes, back) = unescape-sanitize_log_input input in
    elim (Bool-cases (is_control c)) [
      | inl e ↦ rw e (bytes, back)
      | inr e ↦
          rw e (escape-IsLogByte c _ e bytes, unescape-escape c _ ∙ ap (λ (s : List ℕ). c ∷ s) back)
    ]
