-- ===== src/Memory/Strings.antt =====
-- include/rtes/memory_safety.hpp, `BoundedString`: what an assigned string reads as and how it
-- compares.
use rtes.Prelude.{
  ℕ, zero, suc, ◌+◌, ◌<◌, ◌≤◌, ◌≡◌, ◌==◌, false, ◌&&◌, ◌||◌, List, [], ◌∷◌, ◌++◌, Option, none,
  some, arith, leb, length, take, drop, set, Bool-cases, inl, inr, length-take, length-drop, refl,
  ap, ◌∙◌,
}
use rtes.Types.FixedString.{first_byte, later_bytes, strlen, strncmp_eq}
use rtes.Memory.{BoundedString, put, assign_bytes, assign, view, eq_c_string}

-- The characters before the terminator
abbrev pub c_string : List ℕ → List ℕ
c_string s = take (strlen s) s

strlen-le : (s : List ℕ) → strlen s ≤ length s
unfolding strlen
strlen-le [] = omega arith
strlen-le (c ∷ s) = elim (Bool-cases (c == 0)) [
  | inl e ↦ rw e (omega arith)
  | inr e ↦ rw e (omega (arith, strlen-le s))
]

set-append : (xs ys : List ℕ) (y v : ℕ) → set (xs ++ (y ∷ ys)) (length xs) v ≡ xs ++ (v ∷ ys)
set-append [] ys y v = refl
set-append (x ∷ xs) ys y v = ap (λ zs. x ∷ zs) (set-append xs ys y v)

take-append : (xs ys : List ℕ) → take (length xs) (xs ++ ys) ≡ xs
take-append [] ys = refl
take-append (x ∷ xs) ys = ap (λ zs. x ∷ zs) (take-append xs ys)

-- A short string stands before its terminator and what was there.
chars-put :
    (s : List ℕ) (b : BoundedString)
    → length s < length b.chars
    → (rest : List ℕ) × ((put s b).chars ≡ s ++ (0 ∷ rest))
chars-put s b h = rest_of (drop (0 + length s) b.chars) refl
  where
    rest_of :
        (ys : List ℕ)
        → drop (0 + length s) b.chars ≡ ys
        → (rest : List ℕ) × ((put s b).chars ≡ s ++ (0 ∷ rest))
    rest_of [] e = absurd (omega (arith, h, length-drop (0 + length s) b.chars, ap length e))
    rest_of (y ∷ ys) e = (ys, rw e (set-append s ys y 0))

c_string-cons : (c : ℕ) (s : List ℕ) → (c == 0) ≡ false → c_string (c ∷ s) ≡ c ∷ c_string s
unfolding strlen
c_string-cons c s e = rw e refl

strncmp_eq-c_string :
    (n : ℕ) (s rest t : List ℕ) → strncmp_eq n (c_string s ++ (0 ∷ rest)) t ≡ strncmp_eq n s t
unfolding strncmp_eq strlen
strncmp_eq-c_string zero s rest t = refl
strncmp_eq-c_string (suc n) [] rest t = refl
strncmp_eq-c_string (suc n) (c ∷ s) rest t = elim (Bool-cases (c == 0)) [
  | inl e ↦ let z : c ≡ 0 = ground arith in rw z refl
  | inr e ↦ rw (c_string-cons c s e) (
      ap (λ b. (c == first_byte t) && ((c == 0) || b))
        (strncmp_eq-c_string n s rest (later_bytes t)))
]

abbrev pub Assigned : ℕ → List ℕ → Option BoundedString → Type 0
Assigned n s none = n ≤ strlen s
Assigned n s (some c) =
    (strlen s < n)
    × (view c ≡ c_string s)
    × ((t : List ℕ) → eq_c_string n c (some t) ≡ strncmp_eq n s t)

-- `assign` refuses a C string that does not fit in the capacity. One that it stores is read back whole,
-- and compares with every C string as the given one does, over the capacity.
pub assign-Assigned :
    (n : ℕ) (s : List ℕ) (b : BoundedString)
    → length b.chars ≡ n
    → Assigned n s (assign n (some s) b)
unfolding assign assign_bytes eq_c_string
assign-Assigned n s b h =
    let size : length (c_string s) ≡ strlen s = length-take (strlen s) s (strlen-le s) in
    elim (Bool-cases (leb n (length (c_string s)))) [
      | inl e ↦ rw e (ground arith)
      | inr e ↦
          let (rest, is) = chars-put (c_string s) b (ground arith) in
          rw e (
            ground arith,
            ap (take (length (c_string s))) is ∙ take-append (c_string s) (0 ∷ rest),
            λ t. ap (λ cs. strncmp_eq n cs t) is ∙ strncmp_eq-c_string n s rest t,
          )
    ]
