-- ===== src/Gateway/Reads.antt =====
-- include/rtes/tcp_gateway.hpp: what a handler reads of a message lies inside of the message.
use rtes.Prelude.{
  ℕ, zero, suc, ◌+◌, ◌-◌, ◌≤◌, ◌<◌, ◌≡◌, refl, List, [], ◌∷◌, ◌++◌, some, arith, length, drop,
  drop-append, length-drop, ◌==◌, Bool-cases, inl, inr,
}
use rtes.Types.FixedString.{of_c_string, assign, strncpy, first_byte}
use rtes.Gateway.Wire.{byte_at, u32_at, u64_at}

first_byte-append : (xs ys : List ℕ) → 0 < length xs → first_byte (xs ++ ys) ≡ first_byte xs
first_byte-append [] ys h = absurd (omega arith)
first_byte-append (x ∷ xs) ys h = refl

pub byte_at-append : (xs ys : List ℕ) (i : ℕ) → i < length xs → byte_at (xs ++ ys) i ≡ byte_at xs i
byte_at-append xs ys i h =
    rw (drop-append i xs ys (omega arith))
      (first_byte-append (drop i xs) ys (omega (arith, length-drop i xs)))

pub u32_at-append : (xs ys : List ℕ) (i : ℕ) → i + 4 ≤ length xs → u32_at (xs ++ ys) i ≡ u32_at xs i
unfolding u32_at
u32_at-append xs ys i h =
    rw
      (
        byte_at-append xs ys i (omega arith),
        byte_at-append xs ys (i + 1) (omega arith),
        byte_at-append xs ys (i + 2) (omega arith),
        byte_at-append xs ys (i + 3) (omega arith),
      )
      refl

pub u64_at-append : (xs ys : List ℕ) (i : ℕ) → i + 8 ≤ length xs → u64_at (xs ++ ys) i ≡ u64_at xs i
unfolding u64_at
u64_at-append xs ys i h =
    rw (u32_at-append xs ys i (omega arith), u32_at-append xs ys (i + 4) (omega arith)) refl

strncpy-append : (n : ℕ) (xs ys : List ℕ) → n ≤ length xs → strncpy n (xs ++ ys) ≡ strncpy n xs
unfolding strncpy
strncpy-append zero xs ys h = refl
strncpy-append (suc n) [] ys h = absurd (omega arith)
strncpy-append (suc n) (x ∷ xs) ys h = elim (Bool-cases (x == 0)) [
  | inl e ↦ rw e refl
  | inr e ↦ rw (e, strncpy-append n xs ys (omega arith)) refl
]

pub of_c_string-append :
    (n : ℕ) (xs ys : List ℕ) (i : ℕ)
    → i + n ≤ length xs
    → of_c_string n (some (drop i (xs ++ ys))) ≡ of_c_string n (some (drop i xs))
unfolding of_c_string assign
of_c_string-append n xs ys i h =
    rw
      (
        drop-append i xs ys (omega arith),
        strncpy-append (n - 1) (drop i xs) ys (omega (arith, length-drop i xs)),
      )
      refl
