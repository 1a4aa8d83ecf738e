-- ===== src/Types/FixedString/Keys.antt =====
-- include/rtes/types.hpp, `FixedString<N>` as the key of a hash map: when two keys are equal, and
-- that equal keys have equal hashes.
use rtes.Prelude.{
  ℕ, zero, suc, ◌≡◌, refl, true, List, [], ◌∷◌, ◌++◌, some, arith, length, mul64, ◌-◌,
}
use Prim.Native.Nat.{bit_xor}
use rtes.Types.FixedString.{
  FixedString, later_bytes, strncpy, strncmp_eq, assign, of_c_string, eq, hash_from, hash, widen,
}

strncmp_eq-strncpy :
    (n : ℕ) (s t : List ℕ)
    → strncmp_eq (suc n) (strncpy n s ++ (0 ∷ [])) (strncpy n t ++ (0 ∷ [])) ≡ strncmp_eq n s t
unfolding strncpy strncmp_eq
strncmp_eq-strncpy zero s t = refl
strncmp_eq-strncpy (suc n) s t =
    ground (arith, strncmp_eq-strncpy n (later_bytes s) (later_bytes t))

-- Two keys of capacity n + 1 that are built from C strings compare equal exactly when the strings
-- agree in their first n characters: longer symbols are told apart by no more than that.
pub eq-of_c_string :
    (n : ℕ) (s t : List ℕ)
    → eq (suc n) (of_c_string (suc n) (some s)) (of_c_string (suc n) (some t)) ≡ strncmp_eq n s t
unfolding eq of_c_string assign
eq-of_c_string n s t = let e : suc n - 1 ≡ n = omega arith in rw e (strncmp_eq-strncpy n s t)

hash_from_eq :
    (n h : ℕ) (s t : List ℕ)
    → length s ≡ n
    → length t ≡ n
    → strncmp_eq n s t ≡ true
    → hash_from h s ≡ hash_from h t
unfolding hash_from strncmp_eq
hash_from_eq zero h [] [] p q e = refl
hash_from_eq zero h (x ∷ s) t p q e = absurd (omega arith)
hash_from_eq zero h [] (y ∷ t) p q e = absurd (omega arith)
hash_from_eq (suc n) h [] t p q e = absurd (omega arith)
hash_from_eq (suc n) h (x ∷ s) [] p q e = absurd (omega arith)
hash_from_eq (suc n) h (x ∷ s) (y ∷ t) p q e =
    ground (arith, hash_from_eq n (mul64 (bit_xor h (widen x)) 1099511628211) s t)

-- Keys of n bytes that compare equal have one hash, which a hash map relies on.
pub eq-hash :
    (n : ℕ) (a b : FixedString)
    → length a.bytes ≡ n
    → length b.bytes ≡ n
    → eq n a b ≡ true
    → hash a ≡ hash b
unfolding eq hash
eq-hash n a b p q e = hash_from_eq n _ a.bytes b.bytes p q e
