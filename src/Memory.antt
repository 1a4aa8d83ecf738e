-- ===== src/Memory.antt =====
-- include/rtes/memory_safety.hpp and src/memory_safety.cpp: the checked buffers, the checked string
-- and the owner of a file descriptor. A throw is `none`. `n` is a template's capacity, and a source
-- of bytes is the list of the bytes that are copied.
pub mod Buffers
pub mod Owners
pub mod Strings
use rtes.Prelude.{
  ℕ, zero, suc, ◌+◌, ◌-◌, ◌==◌, Bool, true, false, ◌&&◌, not, List, [], ◌∷◌, ◌++◌, Option, none,
  some, ltb, leb, if◌then◌else◌, length, set, take, drop, add64, sub64,
}
use rtes.Types.FixedString.{strlen, strncmp_eq, zeros}

-- `memcpy(target + offset, src, length)`
abbrev pub memcpy : List ℕ → ℕ → List ℕ → List ℕ
memcpy target offset src = take offset target ++ src ++ drop (offset + length src) target

-- `BoundsCheckedBuffer`, with the bytes between its guard pages
pub record BoundsCheckedBuffer : Type 0 where
  pub buffer : List ℕ
  pub size : ℕ

abbrev pub validate_range : BoundsCheckedBuffer → ℕ → ℕ → Bool
validate_range b offset len = leb offset b.size && leb len (b.size - offset)

unfoldable pub checked_read : BoundsCheckedBuffer → ℕ → ℕ → Option (List ℕ)
checked_read b offset len =
    if not (validate_range b offset len) then none else some (take len (drop offset b.buffer))

unfoldable pub checked_write : BoundsCheckedBuffer → List ℕ → ℕ → Option BoundsCheckedBuffer
checked_write b src offset =
    if not (validate_range b offset (length src))
    then none
    else some (record b { buffer = memcpy b.buffer offset src })

-- `FixedSizeBuffer<n>`
pub record FixedSizeBuffer : Type 0 where
  pub bytes : List ℕ
  pub used_size : ℕ

unfoldable pub write : ℕ → List ℕ → FixedSizeBuffer → Option FixedSizeBuffer
write n src b =
    if ltb n (length src)
    then none
    else some (record { bytes = memcpy b.bytes 0 src; used_size = length src })

unfoldable pub read : ℕ → FixedSizeBuffer → Option (List ℕ)
read len b = if ltb b.used_size len then none else some (take len b.bytes)

-- The sum is a `size_t`.
unfoldable pub append : ℕ → List ℕ → FixedSizeBuffer → Option FixedSizeBuffer
append n src b =
    let total = add64 b.used_size (length src) in
    if ltb n total
    then none
    else some (record { bytes = memcpy b.bytes b.used_size src; used_size = total })

abbrev pub remaining : ℕ → FixedSizeBuffer → ℕ
remaining n b = sub64 n b.used_size

abbrev pub clear : FixedSizeBuffer → FixedSizeBuffer
clear b = record b { used_size = 0 }

-- `BoundedString<n>`
pub record BoundedString : Type 0 where
  pub chars : List ℕ
  pub char_count : ℕ

abbrev pub empty_string : ℕ → BoundedString
empty_string n = record { chars = zeros n; char_count = 0 }

abbrev pub clear_string : BoundedString → BoundedString
clear_string b = record { chars = set b.chars 0 0; char_count = 0 }

-- `memcpy`, the terminator and the length
abbrev pub put : List ℕ → BoundedString → BoundedString
put s b = record { chars = set (memcpy b.chars 0 s) (length s) 0; char_count = length s }

-- `assign(const char*, size_t)`
unfoldable pub assign_bytes : ℕ → List ℕ → BoundedString → Option BoundedString
assign_bytes n s b = if leb n (length s) then none else some (put s b)

-- `assign(const char*)`; `none` is the null pointer.
unfoldable pub assign : ℕ → Option (List ℕ) → BoundedString → Option BoundedString
unfolding assign_bytes
assign n none b = some (clear_string b)
assign n (some s) b = assign_bytes n (take (strlen s) s) b

unfoldable pub assign_truncate : ℕ → Option (List ℕ) → BoundedString → BoundedString
assign_truncate n none b = clear_string b
assign_truncate n (some s) b =
    let len = if leb n (strlen s) then n - 1 else strlen s in put (take len s) b

-- `view` and `to_string`
abbrev pub view : BoundedString → List ℕ
view b = take b.char_count b.chars

-- `operator==(const char*)`
unfoldable pub eq_c_string : ℕ → BoundedString → Option (List ℕ) → Bool
unfolding strncmp_eq
eq_c_string n b none = b.char_count == 0
eq_c_string n b (some s) = strncmp_eq n b.chars s

-- `operator=(const BoundedString&)` from another string
abbrev pub copy_string : BoundedString → BoundedString → BoundedString
copy_string other b = record {
  chars = memcpy b.chars 0 (take (other.char_count + 1) other.chars);
  char_count = other.char_count;
}

-- The `FileDescriptor` objects of the program, `none` for -1, with the descriptors that `::close`
-- has been called on and those that `release` has handed out.
pub record Descriptors : Type 0 where
  pub held : List (Option ℕ)
  pub closed : List ℕ
  pub released : List ℕ

abbrev pub listed : Option ℕ → List ℕ → List ℕ
listed none ds = ds
listed (some d) ds = d ∷ ds

-- What object `i` holds
abbrev pub fd : List (Option ℕ) → ℕ → Option ℕ
fd [] i = none
fd (d ∷ ds) zero = d
fd (d ∷ ds) (suc i) = fd ds i

-- `close`, also what the destructor does
abbrev pub close : ℕ → Descriptors → Descriptors
close i s = record s { held = set s.held i none; closed = listed (fd s.held i) s.closed }

unfoldable pub release : ℕ → Descriptors → Option ℕ × Descriptors
release i s =
    (fd s.held i, record s { held = set s.held i none; released = listed (fd s.held i) s.released })

unfoldable pub reset : ℕ → Option ℕ → Descriptors → Descriptors
reset i new_fd s = let c = close i s in record c { held = set c.held i new_fd }

-- `operator=(FileDescriptor&&)`: object `i` takes what object `j` holds.
unfoldable pub move_from : ℕ → ℕ → Descriptors → Descriptors
move_from i j s =
    let c = close i s in
    if i == j then s else record c { held = set (set c.held i (fd s.held j)) j none }
