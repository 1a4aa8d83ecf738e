-- ===== src/Prelude/Repeats.antt =====
-- Lists of numbers without repetition: erasing an element, and a bound on the length.
use Prim.Native.Nat.{ℕ, zero, suc, ◌≤◌, ◌<◌}
use mathlib.Core.Path.{◌≡◌, refl}
use mathlib.Core.Logic.{inl, inr}
use mathlib.Core.Bool.{true, false, ◌&&◌, ◌||◌, not}
use mathlib.Core.List.{List, [], ◌∷◌, ◌++◌}
use native.Mathlib.Omega.{arith}
use rtes.Prelude.Tests.{◌==◌, if◌then◌else◌, Bool-cases}
use rtes.Prelude.Lists.{length, contains, Distinct, All, contains-append}

-- Without the first occurrence of `a`.
abbrev pub erase : ℕ → List ℕ → List ℕ
erase a [] = []
erase a (x ∷ xs) = if x == a then xs else x ∷ erase a xs

pub length-erase :
    (a : ℕ) (xs : List ℕ) → contains a xs ≡ true → length xs ≡ suc (length (erase a xs))
length-erase a [] h = ground arith
length-erase a (x ∷ xs) h = ground (arith, length-erase a xs)

-- In a list without repetition nothing else of `a` is left.
pub contains-erase :
    (a b : ℕ) (xs : List ℕ)
    → Distinct xs
    → contains b (erase a xs) ≡ (not (a == b) && contains b xs)
contains-erase a b [] d = ground arith
contains-erase a b (x ∷ xs) d = ground (arith, contains-erase a b xs)

pub erase-Distinct : (a : ℕ) (xs : List ℕ) → Distinct xs → Distinct (erase a xs)
erase-Distinct a [] d = tt
erase-Distinct a (x ∷ xs) d = ground (arith, erase-Distinct a xs, contains-erase a x xs)

pub All-erase {κ} : (P : ℕ → Type κ) (a : ℕ) (xs : List ℕ) → All P xs → All P (erase a xs)
All-erase P a [] h = tt
All-erase P a (x ∷ xs) h = elim (Bool-cases (x == a)) [
  | inl e ↦ rw e (h.1)
  | inr e ↦ rw e (h.0, All-erase P a xs h.1)
]

-- A member has what all members have.
pub All-contains {κ} :
    (P : ℕ → Type κ) (a : ℕ) (xs : List ℕ) → All P xs → contains a xs ≡ true → P a
All-contains P a [] h c = absurd (ground arith)
All-contains P a (x ∷ xs) h c = elim (Bool-cases (x == a)) [
  | inl e ↦ let q : x ≡ a = ground arith in rw q at (h.0)
  | inr e ↦ All-contains P a xs h.1 (ground arith)
]

All-below :
    (n : ℕ) (xs : List ℕ) → contains n xs ≡ false → All (λ x. x < suc n) xs → All (λ x. x < n) xs
All-below n [] c h = tt
All-below n (x ∷ xs) c h = (ground arith, All-below n xs (ground arith) h.1)

pub length-le_of_below : (n : ℕ) (xs : List ℕ) → Distinct xs → All (λ x. x < n) xs → length xs ≤ n
length-le_of_below zero [] d h = omega arith
length-le_of_below zero (x ∷ xs) d h = absurd (omega arith)
length-le_of_below (suc n) xs d h = elim (Bool-cases (contains n xs)) [
  | inl e ↦ omega (
    arith,
    length-erase n xs e,
    length-le_of_below n (erase n xs) (erase-Distinct n xs d)
        (All-below n (erase n xs) (ground (arith, contains-erase n n xs d)) (All-erase _ n xs h)),
  )
  | inr e ↦ omega (arith, length-le_of_below n xs d (All-below n xs e h))
]

-- Distinctness of a list that is put together.
pub Distinct-append_left : (xs ys : List ℕ) → Distinct (xs ++ ys) → Distinct xs
Distinct-append_left [] ys d = tt
Distinct-append_left (x ∷ xs) ys d =
    ground (arith, Distinct-append_left xs ys, contains-append x xs ys)

pub Distinct-append_right : (xs ys : List ℕ) → Distinct (xs ++ ys) → Distinct ys
Distinct-append_right [] ys d = d
Distinct-append_right (x ∷ xs) ys d = Distinct-append_right xs ys d.1

-- An element more, somewhere in the list.
pub contains-insert :
    (a b : ℕ) (xs ys : List ℕ) → contains b (xs ++ (a ∷ ys)) ≡ ((a == b) || contains b (xs ++ ys))
contains-insert a b [] ys = refl
contains-insert a b (x ∷ xs) ys = ground (arith, contains-insert a b xs ys)

pub Distinct-insert :
    (a : ℕ) (xs ys : List ℕ)
    → contains a (xs ++ ys) ≡ false
    → Distinct (xs ++ ys)
    → Distinct (xs ++ (a ∷ ys))
Distinct-insert a [] ys h d = (h, d)
Distinct-insert a (x ∷ xs) ys h d =
    (ground (arith, contains-insert a x xs ys), Distinct-insert a xs ys (ground arith) d.1)

pub All-insert {κ} :
    (P : ℕ → Type κ) (a : ℕ) (xs ys : List ℕ) → P a → All P (xs ++ ys) → All P (xs ++ (a ∷ ys))
All-insert P a [] ys h k = (h, k)
All-insert P a (x ∷ xs) ys h k = (k.0, All-insert P a xs ys h k.1)

-- From each member to all of them.
pub All-of_contains {κ} :
    (P : ℕ → Type κ) (xs : List ℕ) → ((x : ℕ) → contains x xs ≡ true → P x) → All P xs
All-of_contains P [] h = tt
All-of_contains P (x ∷ xs) h =
    (h x (ground arith), All-of_contains P xs (λ y c. h y (ground arith)))

-- What stands behind does not stand in front.
pub Distinct-apart :
    (a : ℕ) (xs ys : List ℕ) → Distinct (xs ++ ys) → contains a ys ≡ true → contains a xs ≡ false
Distinct-apart a [] ys d h = refl
Distinct-apart a (x ∷ xs) ys d h =
    ground (arith, Distinct-apart a xs ys d.1 h, contains-append x xs ys)

-- Erasing from a list that is put together.
pub erase-append :
    (a : ℕ) (xs ys : List ℕ)
    → erase a (xs ++ ys) ≡ (if contains a xs then erase a xs ++ ys else xs ++ erase a ys)
erase-append a [] ys = refl
erase-append a (x ∷ xs) ys = ground (arith, erase-append a xs ys)

pub erase_absent : (a : ℕ) (xs : List ℕ) → contains a xs ≡ false → erase a xs ≡ xs
erase_absent a [] h = refl
erase_absent a (x ∷ xs) h = ground (arith, erase_absent a xs)
