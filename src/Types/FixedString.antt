-- ===== src/Types/FixedString.antt =====
-- include/rtes/types.hpp, `FixedString<N>`: N bytes, zero-terminated. A C string is given by its
-- bytes, and reads as 0 past the end of the list.
pub mod Keys
use rtes.Prelude.{
  ℕ, zero, suc, ◌+◌, ◌-◌, ◌*◌, ◌%◌, ◌≤◌, ◌<◌, ◌≡◌, refl, Bool, true, false, ◌&&◌, ◌||◌, List, [],
  ◌∷◌, ◌++◌, ltb, Option, none, some, arith, ◌==◌, if◌then◌else◌, set, length, u64_mod, mul64,
}
use Prim.Native.Nat.{bit_xor}

pub record FixedString : Type 0 where
  pub bytes : List ℕ

abbrev pub first_byte : List ℕ → ℕ
first_byte [] = 0
first_byte (c ∷ s) = c

abbrev pub later_bytes : List ℕ → List ℕ
later_bytes [] = []
later_bytes (c ∷ s) = s

-- `strncpy` into `n` bytes: what follows a terminator is filled with zeros.
unfoldable pub strncpy : ℕ → List ℕ → List ℕ
strncpy zero s = []
strncpy (suc n) s = first_byte s ∷ strncpy n (if first_byte s == 0 then [] else later_bytes s)

-- `strncmp(a, b, n) == 0`
unfoldable pub strncmp_eq : ℕ → List ℕ → List ℕ → Bool
strncmp_eq zero a b = true
strncmp_eq (suc n) a b =
    (first_byte a == first_byte b)
    && ((first_byte a == 0) || strncmp_eq n (later_bytes a) (later_bytes b))

unfoldable pub strlen : List ℕ → ℕ
strlen [] = 0
strlen (c ∷ s) = if c == 0 then 0 else suc (strlen s)

-- `FixedString<N>()`
pub zeros : ℕ → List ℕ
zeros zero = []
zeros (suc n) = 0 ∷ zeros n

-- `assign`: the first N - 1 bytes, then a terminator. `none` is the null pointer.
unfoldable pub assign : ℕ → List ℕ → Option (List ℕ) → List ℕ
unfolding strncpy
assign n old none = set old 0 0
assign n old (some s) = strncpy (n - 1) s ++ (0 ∷ [])

-- `FixedString(const char*)`
unfoldable pub of_c_string : ℕ → Option (List ℕ) → FixedString
of_c_string n s = record { bytes = assign n (zeros n) s }

pub empty : FixedString → Bool
empty s = first_byte s.bytes == 0

-- `operator==` of two strings of one capacity
unfoldable pub eq : ℕ → FixedString → FixedString → Bool
eq n a b = strncmp_eq n a.bytes b.bytes

-- `static_cast<size_t>(char)`: a plain `char` is signed, so a byte from 128 on is sign-extended.
abbrev widen : ℕ → ℕ
widen c = if ltb c 128 then c else c + (u64_mod - 256)

-- `Hash`: FNV-1a over the bytes before the terminator.
pub hash_from : ℕ → List ℕ → ℕ
hash_from h [] = h
hash_from h (c ∷ s) =
    let rest = hash_from (mul64 (bit_xor h (widen c)) 1099511628211) s in if c == 0 then h else rest

pub hash : FixedString → ℕ
unfolding hash_from
hash s = hash_from 14695981039346656037 s.bytes
