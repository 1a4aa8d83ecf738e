-- ===== src/Protocol.antt =====
-- src/protocol.cpp and include/rtes/protocol.hpp: the message header and its CRC-32 checksum. A payload
-- is given by its bytes, and reads as 0 past the end of the list.
pub mod Checksums
use rtes.Prelude.{
  ℕ, zero, suc, ◌+◌, ◌-◌, ◌%◌, ◌/◌, Bool, true, false, ◌||◌, List, [], ◌∷◌, Option, none, some, ltb,
  ◌==◌, if◌then◌else◌,
}
use rtes.Types.FixedString.{first_byte, later_bytes}
use Prim.Native.Nat.{bit_xor}

pub record MessageHeader : Type 0 where
  pub type : ℕ
  pub length : ℕ
  pub sequence : ℕ
  pub timestamp : ℕ
  pub checksum : ℕ

-- The constructor of `MessageHeader`.
abbrev pub make_header : ℕ → ℕ → ℕ → ℕ → MessageHeader
make_header t len seq ts = record {
  type = t;
  length = len;
  sequence = seq;
  timestamp = ts;
  checksum = 0;
}

-- `sizeof(MessageHeader)`, which is packed
abbrev pub header_size : ℕ
header_size = 28

abbrev pub max_length : ℕ
max_length = 8192

-- One bit of the CRC, by the reversed polynomial.
unfoldable pub crc_bit : ℕ → ℕ
crc_bit crc = if (crc % 2) == 1 then bit_xor (crc / 2) 3988292384 else crc / 2

unfoldable pub crc_bits : ℕ → ℕ → ℕ
unfolding crc_bit
crc_bits zero crc = crc
crc_bits (suc n) crc = crc_bits n (crc_bit crc)

-- The loop of `calculate_checksum` over the next `n` bytes.
unfoldable pub crc_from : ℕ → ℕ → List ℕ → ℕ
crc_from crc zero bytes = crc
crc_from crc (suc n) bytes =
    crc_from (crc_bits 8 (bit_xor crc (first_byte bytes))) n (later_bytes bytes)

-- `calculate_checksum`: `~crc` on 32 bits
unfoldable pub calculate_checksum : List ℕ → ℕ → ℕ
calculate_checksum bytes n = 4294967295 - crc_from 4294967295 n bytes

abbrev pub bad_length : MessageHeader → Bool
bad_length h = ltb h.length header_size || ltb max_length h.length

-- `validate_checksum`: `none` is the null payload.
unfoldable pub validate_checksum : MessageHeader → Option (List ℕ) → Bool
validate_checksum h none = false
validate_checksum h (some payload) =
    if bad_length h
    then false
    else calculate_checksum payload (h.length - header_size) == h.checksum

-- `set_checksum`
unfoldable pub set_checksum : MessageHeader → Option (List ℕ) → MessageHeader
set_checksum h none = record h { checksum = 0 }
set_checksum h (some payload) = record h {
  checksum = if bad_length h then 0 else calculate_checksum payload (h.length - header_size);
}
