-- ===== src/Memory/Buffers.antt =====
-- include/rtes/memory_safety.hpp, `FixedSizeBuffer`: it is a list of bytes of bounded length.
use rtes.Prelude.{
  ℕ, zero, suc, ◌+◌, ◌<◌, ◌≤◌, ◌≡◌, List, [], ◌∷◌, ◌++◌, Option, none, some, arith, if◌then◌else◌,
  length, take, drop, ltb, add64, u64_mod, Bool-cases, All, inl, inr, length-append, length-take,
  length-drop, refl, ap, sym, ◌∙◌,
}
use rtes.Memory.{FixedSizeBuffer, memcpy, write, read, append, clear}

pub data Call : Type 0 where
  write_call : List ℕ → Call
  append_call : List ℕ → Call
  read_call : ℕ → Call
  clear_call : Call

-- A throw leaves the object as it was.
abbrev updated : FixedSizeBuffer → Option FixedSizeBuffer → Option (List ℕ) × FixedSizeBuffer
updated b none = (none, b)
updated b (some c) = (some [], c)

unfoldable pub call : ℕ → Call → FixedSizeBuffer → Option (List ℕ) × FixedSizeBuffer
unfolding write read append
call n (write_call src) b = updated b (write n src b)
call n (append_call src) b = updated b (append n src b)
call n (read_call len) b = (read len b, b)
call n clear_call b = (some [], clear b)

unfoldable pub calls : ℕ → List Call → FixedSizeBuffer → List (Option (List ℕ)) × FixedSizeBuffer
unfolding call
calls n [] b = ([], b)
calls n (c ∷ cs) b = let r = call n c b in let rest = calls n cs r.1 in (r.0 ∷ rest.0, rest.1)

-- The same calls on a list of at most `n` bytes
abbrev pub bytes_call : ℕ → Call → List ℕ → Option (List ℕ) × List ℕ
bytes_call n (write_call src) s = if ltb n (length src) then (none, s) else (some [], src)
bytes_call n (append_call src) s =
    if ltb n (length s + length src) then (none, s) else (some [], s ++ src)
bytes_call n (read_call len) s = (if ltb (length s) len then none else some (take len s), s)
bytes_call n clear_call s = (some [], [])

abbrev pub bytes_calls : ℕ → List Call → List ℕ → List (Option (List ℕ)) × List ℕ
bytes_calls n [] s = ([], s)
bytes_calls n (c ∷ cs) s =
    let r = bytes_call n c s in let rest = bytes_calls n cs r.1 in (r.0 ∷ rest.0, rest.1)

abbrev pub contents : FixedSizeBuffer → List ℕ
contents b = take b.used_size b.bytes

abbrev pub IsBuffer : ℕ → FixedSizeBuffer → Type 0
IsBuffer n b = (length b.bytes ≡ n) × (b.used_size ≤ n)

-- What is copied is short enough for the sum with a buffer's size.
abbrev pub Short : ℕ → Call → Type 0
Short n (write_call src) = n + length src < u64_mod
Short n (append_call src) = n + length src < u64_mod
Short n (read_call len) = len < u64_mod
Short n clear_call = n < u64_mod

abbrev Simulates : ℕ → Call → FixedSizeBuffer → Type 0
Simulates n c b =
    let r = call n c b in
    let s = bytes_call n c (contents b) in (r.0 ≡ s.0) × (contents r.1 ≡ s.1) × IsBuffer n r.1

take-append_length : (n : ℕ) (xs ys : List ℕ) → length xs ≡ n → take n (xs ++ ys) ≡ xs
take-append_length zero [] ys h = refl
take-append_length zero (x ∷ xs) ys h = absurd (omega arith)
take-append_length (suc n) [] ys h = absurd (omega arith)
take-append_length (suc n) (x ∷ xs) ys h =
    ap (λ zs. x ∷ zs) (take-append_length n xs ys (omega arith))

length-copied :
    (bs src : List ℕ) (offset : ℕ)
    → offset ≤ length bs
    → length (take offset bs ++ src) ≡ offset + length src
length-copied bs src offset h =
    omega (arith, length-append (take offset bs) src, length-take offset bs h)

take-memcpy :
    (bs src : List ℕ) (offset total : ℕ)
    → offset ≤ length bs
    → offset + length src ≡ total
    → take total (memcpy bs offset src) ≡ take offset bs ++ src
take-memcpy bs src offset total h e =
    take-append_length total (take offset bs ++ src) (drop (offset + length src) bs)
      (length-copied bs src offset h ∙ e)

length-memcpy :
    (bs src : List ℕ) (offset : ℕ)
    → offset + length src ≤ length bs
    → length (memcpy bs offset src) ≡ length bs
length-memcpy bs src offset h = omega (
  arith,
  length-append (take offset bs ++ src) (drop (offset + length src) bs),
  length-copied bs src offset (omega arith),
  length-drop (offset + length src) bs,
  h,
)

take-take : (m n : ℕ) (xs : List ℕ) → m ≤ n → take m (take n xs) ≡ take m xs
take-take zero n xs h = refl
take-take (suc m) zero xs h = absurd (omega arith)
take-take (suc m) (suc n) [] h = refl
take-take (suc m) (suc n) (x ∷ xs) h = ap (λ ys. x ∷ ys) (take-take m n xs (omega arith))

call-Simulates :
    (n : ℕ) (c : Call) (b : FixedSizeBuffer) → IsBuffer n b → Short n c → Simulates n c b
unfolding call write read append
call-Simulates n (write_call src) b (e, h) k = elim (Bool-cases (ltb n (length src))) [
  | inl full ↦ rw full (refl, refl, (e, h))
  | inr room ↦
      let fits : length src ≤ n = ground arith in
      rw room (
        refl,
        take-memcpy b.bytes src 0 (length src) (omega arith) (omega arith),
        (length-memcpy b.bytes src 0 (omega arith) ∙ e, fits),
      )
]
call-Simulates n (append_call src) b (e, h) k =
    let total : add64 b.used_size (length src) ≡ b.used_size + length src = omega arith in
    let sum : length (contents b) + length src ≡ b.used_size + length src =
      omega (arith, length-take b.used_size b.bytes (omega arith)) in
    elim (Bool-cases (ltb n (b.used_size + length src))) [
      | inl full ↦ rw (total, sum, full) (refl, refl, (e, h))
      | inr room ↦
          let fits : b.used_size + length src ≤ n = ground arith in
          rw (total, sum, room)
            (
              refl,
              take-memcpy b.bytes src b.used_size (b.used_size + length src) (omega arith) refl,
              (length-memcpy b.bytes src b.used_size (omega arith) ∙ e, fits),
            )
    ]
call-Simulates n (read_call len) b (e, h) k =
    let size : length (contents b) ≡ b.used_size = length-take b.used_size b.bytes (omega arith) in
    elim (Bool-cases (ltb b.used_size len)) [
      | inl over ↦ rw (size, over) (refl, refl, (e, h))
      | inr inside ↦
          rw (size, inside)
            (ap some (sym (take-take len b.used_size b.bytes (ground arith))), refl, (e, h))
    ]
call-Simulates n clear_call b (e, h) k = (refl, refl, (e, omega arith))

-- A checked buffer is a list of at most `n` bytes: whatever calls are made, each returns or throws
-- what it does on the list, and what the buffer then holds is the list, if no length that is copied
-- makes the sum with the capacity overflow.
pub calls-refine :
    (n : ℕ) (cs : List Call) (b : FixedSizeBuffer)
    → IsBuffer n b
    → All (Short n) cs
    → let r = calls n cs b in
      let s = bytes_calls n cs (contents b) in (r.0 ≡ s.0) × (contents r.1 ≡ s.1) × IsBuffer n r.1
unfolding calls
calls-refine n [] b h k = (refl, refl, h)
calls-refine n (c ∷ cs) b h (k, ks) =
    let (result, left, good) = call-Simulates n c b h k in
    let later = calls-refine n cs (call n c b).1 good ks in
    rw (sym result, sym left) (ap (λ rs. (call n c b).0 ∷ rs) later.0, later.1, later.2)
