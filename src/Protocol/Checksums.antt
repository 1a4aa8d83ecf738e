-- ===== src/Protocol/Checksums.antt =====
-- src/protocol.cpp: what a checksum that was set says of the same payload, and of a changed one.
use rtes.Prelude.{
  ℕ, zero, suc, ◌+◌, ◌-◌, ◌%◌, ◌/◌, ◌<◌, ◌≤◌, ◌≡◌, ◌≢◌, refl, sym, inl, inr, ◌&&◌, true, false,
  List, [], ◌∷◌, ◌++◌, some, arith, leb, ◌==◌, length, ==_refl, ==_ne, Bool-cases, All,
}
use rtes.Prelude.Xor.{pow2, bit_xor_cancel_left, bit_xor_cancel_right, bit_xor-lt, bit_xor-ge}
use rtes.Types.FixedString.{first_byte, later_bytes}
use Prim.Native.Nat.{bit_xor}
use rtes.Protocol.{
  MessageHeader, header_size, max_length, crc_bit, crc_bits, crc_from, calculate_checksum,
  validate_checksum, bad_length, set_checksum,
}

-- A checksum that was set validates exactly where the length of the header is at least that of the
-- header and at most 8192 bytes.
pub validate_checksum-set_checksum :
    (h : MessageHeader) (payload : List ℕ)
    → validate_checksum (set_checksum h (some payload)) (some payload)
      ≡ (leb header_size h.length && leb h.length max_length)
unfolding validate_checksum set_checksum
validate_checksum-set_checksum h payload =
    ground (arith, ==_refl (calculate_checksum payload (h.length - header_size)))

-- The loop over a payload of two parts goes on from where the loop over the first part ends.
crc_from-append :
    (crc : ℕ) (xs ys : List ℕ) (n : ℕ)
    → crc_from crc (length xs + n) (xs ++ ys) ≡ crc_from (crc_from crc (length xs) xs) n ys
unfolding crc_from
crc_from-append crc [] ys n = let e : 0 + n ≡ n = omega arith in rw e refl
crc_from-append crc (x ∷ xs) ys n =
    let e : suc (length xs) + n ≡ suc (length xs + n) = omega arith in
    rw e (crc_from-append (crc_bits 8 (bit_xor crc x)) xs ys n)

-- A word of 32 bits
abbrev IsWord : ℕ → Type 0
IsWord n = n < pow2 32

abbrev AreBytes : List ℕ → Type 0
AreBytes bytes = All (λ b. b < 256) bytes

crc_bit-IsWord : (c : ℕ) → IsWord c → IsWord (crc_bit c)
unfolding crc_bit
crc_bit-IsWord c h = elim (Bool-cases ((c % 2) == 1)) [
  | inl odd ↦ rw odd (bit_xor-lt 32 (c / 2) 3988292384 (omega arith) (omega arith))
  | inr even ↦ rw even (omega arith)
]

-- The top bit of the result tells whether the bit shifted out was set.
crc_bit_cancel : (c d : ℕ) → IsWord c → IsWord d → crc_bit c ≡ crc_bit d → c ≡ d
unfolding crc_bit
crc_bit_cancel c d h k e =
    let top = bit_xor-ge 31 (c / 2) 3988292384 (omega arith) (omega arith) in
    let top' = bit_xor-ge 31 (d / 2) 3988292384 (omega arith) (omega arith) in
    elim (Bool-cases ((c % 2) == 1)) [
      | inl odd ↦ elim (Bool-cases ((d % 2) == 1)) [
        | inl odd' ↦
            let halves = bit_xor_cancel_right (c / 2) (d / 2) 3988292384 (rw (odd, odd') at e) in
            ground arith
        | inr even' ↦
            let e' : bit_xor (c / 2) 3988292384 ≡ d / 2 = rw (odd, even') at e in
            absurd (omega arith)
      ]
      | inr even ↦ elim (Bool-cases ((d % 2) == 1)) [
        | inl odd' ↦
            let e' : c / 2 ≡ bit_xor (d / 2) 3988292384 = rw (even, odd') at e in
            absurd (omega arith)
        | inr even' ↦ let e' : c / 2 ≡ d / 2 = rw (even, even') at e in ground arith
      ]
    ]

crc_bits-IsWord : (n c : ℕ) → IsWord c → IsWord (crc_bits n c)
unfolding crc_bits
crc_bits-IsWord zero c h = h
crc_bits-IsWord (suc n) c h = crc_bits-IsWord n (crc_bit c) (crc_bit-IsWord c h)

crc_bits_cancel : (n c d : ℕ) → IsWord c → IsWord d → crc_bits n c ≡ crc_bits n d → c ≡ d
unfolding crc_bits
crc_bits_cancel zero c d h k e = e
crc_bits_cancel (suc n) c d h k e =
    crc_bit_cancel c d h k
      (crc_bits_cancel n (crc_bit c) (crc_bit d) (crc_bit-IsWord c h) (crc_bit-IsWord d k) e)

-- The next byte goes into the word.
mixed-IsWord : (c b : ℕ) → IsWord c → b < 256 → IsWord (bit_xor c b)
mixed-IsWord c b h k = bit_xor-lt 32 c b h (omega arith)

first_byte-lt : (bytes : List ℕ) → AreBytes bytes → first_byte bytes < 256
first_byte-lt [] h = omega arith
first_byte-lt (b ∷ bytes) h = h.0

later-AreBytes : (bytes : List ℕ) → AreBytes bytes → AreBytes (later_bytes bytes)
later-AreBytes [] h = tt
later-AreBytes (b ∷ bytes) h = h.1

crc_from-IsWord :
    (c n : ℕ) (bytes : List ℕ) → IsWord c → AreBytes bytes → IsWord (crc_from c n bytes)
unfolding crc_from
crc_from-IsWord c zero bytes h k = h
crc_from-IsWord c (suc n) bytes h k =
    crc_from-IsWord (crc_bits 8 (bit_xor c (first_byte bytes))) n (later_bytes bytes)
      (crc_bits-IsWord 8 (bit_xor c (first_byte bytes))
        (mixed-IsWord c (first_byte bytes) h (first_byte-lt bytes k)))
      (later-AreBytes bytes k)

-- The same bytes lead from different words to different words.
crc_from_cancel :
    (c d n : ℕ) (bytes : List ℕ)
    → IsWord c
    → IsWord d
    → AreBytes bytes
    → crc_from c n bytes ≡ crc_from d n bytes
    → c ≡ d
unfolding crc_from
crc_from_cancel c d zero bytes h k b e = e
crc_from_cancel c d (suc n) bytes h k b e =
    let x = first_byte bytes in
    let wc = mixed-IsWord c x h (first_byte-lt bytes b) in
    let wd = mixed-IsWord d x k (first_byte-lt bytes b) in
    bit_xor_cancel_right c d x (
      crc_bits_cancel 8 (bit_xor c x) (bit_xor d x) wc wd (
        crc_from_cancel (crc_bits 8 (bit_xor c x)) (crc_bits 8 (bit_xor d x)) n (later_bytes bytes)
          (crc_bits-IsWord 8 (bit_xor c x) wc) (crc_bits-IsWord 8 (bit_xor d x) wd)
          (later-AreBytes bytes b) e))

-- Two payloads that differ in one byte have different checksums.
calculate_checksum_cancel :
    (xs ys : List ℕ) (x y m : ℕ)
    → AreBytes xs
    → AreBytes ys
    → x < 256
    → y < 256
    → calculate_checksum (xs ++ (x ∷ ys)) (length xs + suc m)
      ≡ calculate_checksum (xs ++ (y ∷ ys)) (length xs + suc m)
    → x ≡ y
unfolding calculate_checksum crc_from
calculate_checksum_cancel xs ys x y m bs cs f g e =
    let start = crc_from 4294967295 (length xs) xs in
    let word : IsWord start = crc_from-IsWord 4294967295 (length xs) xs (omega arith) bs in
    let wx = mixed-IsWord start x word f in
    let wy = mixed-IsWord start y word g in
    let ex = crc_from-append 4294967295 xs (x ∷ ys) (suc m) in
    let ey = crc_from-append 4294967295 xs (y ∷ ys) (suc m) in
    let tx = crc_from-IsWord _ m ys (crc_bits-IsWord 8 _ wx) cs in
    let ty = crc_from-IsWord _ m ys (crc_bits-IsWord 8 _ wy) cs in
    let same : crc_from (crc_bits 8 (bit_xor start x)) m ys
        ≡ crc_from (crc_bits 8 (bit_xor start y)) m ys =
      omega (arith, e, ex, ey, tx, ty) in
    bit_xor_cancel_left start x y (
      crc_bits_cancel 8 _ _ wx wy
        (crc_from_cancel _ _ m ys (crc_bits-IsWord 8 _ wx) (crc_bits-IsWord 8 _ wy) cs same))

-- A checksum that was set for a payload validates for the payload, and for no payload that differs from
-- it in one byte, wherever the byte stands among those that the header's length covers, if the length is
-- within its bounds.
pub validate_checksum-changed :
    (h : MessageHeader) (xs ys : List ℕ) (x y : ℕ)
    → AreBytes xs
    → AreBytes ys
    → x < 256
    → y < 256
    → x ≢ y
    → length xs + header_size < h.length
    → h.length ≤ max_length
    → (validate_checksum (set_checksum h (some (xs ++ (x ∷ ys)))) (some (xs ++ (x ∷ ys))) ≡ true)
      × (validate_checksum (set_checksum h (some (xs ++ (x ∷ ys)))) (some (xs ++ (y ∷ ys))) ≡ false)
unfolding validate_checksum set_checksum
validate_checksum-changed h xs ys x y bs cs f g ne covered bounded =
    let good : bad_length h ≡ false = ground arith in
    let m = h.length - header_size - length xs - 1 in
    let size : h.length - header_size ≡ length xs + suc m = omega arith in
    let sum = calculate_checksum (xs ++ (x ∷ ys)) (h.length - header_size) in
    let other = calculate_checksum (xs ++ (y ∷ ys)) (h.length - header_size) in
    let differ : other ≢ sum =
      λ e. ne (calculate_checksum_cancel xs ys x y m bs cs f g (rw size at (sym e))) in
    (rw good (==_refl sum), rw good (==_ne other sum differ))
