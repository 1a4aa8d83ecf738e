-- ===== src/Gateway/Wire.antt =====
-- include/rtes/protocol.hpp and `ReadBuffer` of include/rtes/tcp_gateway.hpp: the packed messages as
-- they lie in memory on a little-endian machine of 64 bits, and the bytes of one connection that wait.
use rtes.Prelude.{
  ℕ, ◌+◌, ◌-◌, ◌*◌, Bool, true, false, some, List, [], ◌∷◌, ◌++◌, ltb, leb, ◌==◌, if◌then◌else◌,
  length, drop,
}
use rtes.Types.FixedString.{FixedString, of_c_string, first_byte}
use rtes.Types.Orders.{Side, buy, sell, OrderType, market, limit}

-- The bytes that are in use; the memory behind them is not read.
pub record ReadBuffer : Type 0 where
  pub bytes : List ℕ

abbrev pub buffer_capacity : ℕ
buffer_capacity = 8192

abbrev pub size : ReadBuffer → ℕ
size b = length b.bytes

abbrev pub remaining : ReadBuffer → ℕ
remaining b = buffer_capacity - size b

-- `append`
unfoldable pub append : ReadBuffer → List ℕ → Bool × ReadBuffer
append b new =
    if ltb buffer_capacity (size b + length new)
    then (false, b)
    else (true, record { bytes = b.bytes ++ new })

-- `recv` into `write_ptr`, then `advance_write`
abbrev pub write_behind : ReadBuffer → List ℕ → ReadBuffer
write_behind b new = record { bytes = b.bytes ++ new }

-- `consume`
unfoldable pub consume : ReadBuffer → ℕ → ReadBuffer
consume b n = if leb (size b) n then record { bytes = [] } else record { bytes = drop n b.bytes }

-- The byte, the 32 bit word and the 64 bit word at an offset.
abbrev pub byte_at : List ℕ → ℕ → ℕ
byte_at msg i = first_byte (drop i msg)

unfoldable pub u32_at : List ℕ → ℕ → ℕ
u32_at msg i =
    byte_at msg i
    + 256 * byte_at msg (i + 1)
    + 65536 * byte_at msg (i + 2)
    + 16777216 * byte_at msg (i + 3)

unfoldable pub u64_at : List ℕ → ℕ → ℕ
u64_at msg i = u32_at msg i + 4294967296 * u32_at msg (i + 4)

-- `header->type` and `header->length`
abbrev pub message_type : List ℕ → ℕ
message_type msg = u32_at msg 0

abbrev pub message_length : List ℕ → ℕ
message_length msg = u32_at msg 4

-- The C strings of a message: what `ClientID` and `Symbol` copy stays inside the field.
abbrev pub client_id_at : List ℕ → FixedString
client_id_at msg = of_c_string 32 (some (drop 36 msg))

abbrev pub symbol_at : List ℕ → FixedString
symbol_at msg = of_c_string 8 (some (drop 76 msg))

-- The casts of a byte. The code makes any other byte an enumerator without a name, which its tests
-- for `BUY` and for `MARKET` refuse.
abbrev pub side_of : ℕ → Side
side_of b = if b == 1 then buy else sell

abbrev pub order_type_of : ℕ → OrderType
order_type_of b = if b == 1 then market else limit

-- `sizeof` of the messages
abbrev pub new_order_size : ℕ
new_order_size = 110

abbrev pub cancel_order_size : ℕ
cancel_order_size = 92

abbrev pub ack_size : ℕ
ack_size = 77

-- "Order pool exhausted", "Risk queue full", "Accepted", "Cancel submitted" and "Cancel queue full"
abbrev pub pool_exhausted_text : List ℕ
pool_exhausted_text =
    79 ∷ 114 ∷ 100 ∷ 101 ∷ 114 ∷ 32 ∷ 112 ∷ 111 ∷ 111 ∷ 108 ∷ 32 ∷ 101 ∷ 120 ∷ 104 ∷ 97 ∷ 117 ∷ 115
    ∷ 116 ∷ 101 ∷ 100 ∷ []

abbrev pub risk_queue_full_text : List ℕ
risk_queue_full_text =
    82 ∷ 105 ∷ 115 ∷ 107 ∷ 32 ∷ 113 ∷ 117 ∷ 101 ∷ 117 ∷ 101 ∷ 32 ∷ 102 ∷ 117 ∷ 108 ∷ 108 ∷ []

abbrev pub accepted_text : List ℕ
accepted_text = 65 ∷ 99 ∷ 99 ∷ 101 ∷ 112 ∷ 116 ∷ 101 ∷ 100 ∷ []

abbrev pub cancel_submitted_text : List ℕ
cancel_submitted_text =
    67 ∷ 97 ∷ 110 ∷ 99 ∷ 101 ∷ 108 ∷ 32 ∷ 115 ∷ 117 ∷ 98 ∷ 109 ∷ 105 ∷ 116 ∷ 116 ∷ 101 ∷ 100 ∷ []

abbrev pub cancel_queue_full_text : List ℕ
cancel_queue_full_text =
    67 ∷ 97 ∷ 110 ∷ 99 ∷ 101 ∷ 108 ∷ 32 ∷ 113 ∷ 117 ∷ 101 ∷ 117 ∷ 101 ∷ 32 ∷ 102 ∷ 117 ∷ 108 ∷ 108
    ∷ []
