-- ===== src/Gateway/Framing.antt =====
-- src/tcp_gateway.cpp: how the bytes of a connection are cut into messages does not depend on how they
-- are cut into reads.
use rtes.Prelude.{
  ℕ, zero, suc, ◌-◌, ◌≤◌, ◌<◌, ◌≡◌, inl, inr, refl, true, false, Option, none, some, List, ◌++◌,
  arith, ltb, leb, Bool-cases, length, drop, length-drop, drop-zero, leb→le,
}
use rtes.Pool
use rtes.Pool.{Pool}
use rtes.Protocol.{header_size}
use rtes.Gateway.{
  TcpGateway, ConnectionState, try_process_message, process_message, handle_new_order,
  handle_cancel_order, take_slot, place, refused_length, order_from, count_message, disconnect,
}
use rtes.Gateway.Wire.{consume, message_length, new_order_size, cancel_order_size}
use rtes.Gateway.Reactor.{drain}
use rtes.Gateway.Reads.{byte_at-append, u32_at-append, u64_at-append, of_c_string-append}

order_from-append :
    (now : ℕ) (xs ys : List ℕ) → 110 ≤ length xs → order_from now (xs ++ ys) ≡ order_from now xs
unfolding order_from
order_from-append now xs ys h =
    rw
      (
        u64_at-append xs ys 101 (omega arith),
        u64_at-append xs ys 93 (omega arith),
        u64_at-append xs ys 28 (omega arith),
        byte_at-append xs ys 92 (omega arith),
        byte_at-append xs ys 109 (omega arith),
        of_c_string-append 8 xs ys 76 (omega arith),
        of_c_string-append 32 xs ys 36 (omega arith),
      )
      refl

take_slot-append :
    (g : TcpGateway) (fd : ℕ) (xs ys : List ℕ) (slot : Option ℕ × Pool)
    → 110 ≤ length xs
    → take_slot g fd (xs ++ ys) slot ≡ take_slot g fd xs slot
unfolding take_slot place
take_slot-append g fd xs ys (none, pool) h = rw (u64_at-append xs ys 28 (omega arith)) refl
take_slot-append g fd xs ys (some order, pool) h =
    rw (u64_at-append xs ys 28 (omega arith), order_from-append (g.clock g.ticks) xs ys h) refl

-- What a handler does with a message depends on the bytes of the message only.
handle_new_order-append :
    (g : TcpGateway) (fd : ℕ) (xs ys : List ℕ) (len : ℕ)
    → len ≤ length xs
    → handle_new_order g fd (xs ++ ys) len ≡ handle_new_order g fd xs len
unfolding handle_new_order
handle_new_order-append g fd xs ys len h = elim (Bool-cases (ltb len new_order_size)) [
  | inl e ↦ rw e refl
  | inr e ↦ rw e (take_slot-append g fd xs ys (Pool.allocate g.order_pool) (ground arith))
]

handle_cancel_order-append :
    (g : TcpGateway) (fd : ℕ) (xs ys : List ℕ) (len : ℕ)
    → len ≤ length xs
    → handle_cancel_order g fd (xs ++ ys) len ≡ handle_cancel_order g fd xs len
unfolding handle_cancel_order
handle_cancel_order-append g fd xs ys len h = elim (Bool-cases (ltb len cancel_order_size)) [
  | inl e ↦ rw e refl
  | inr e ↦
      let long : 92 ≤ length xs = ground arith in
      rw (e, u64_at-append xs ys 28 (omega arith), of_c_string-append 32 xs ys 36 (omega arith))
        refl
]

pub process_message-append :
    (g : TcpGateway) (fd : ℕ) (xs ys : List ℕ) (len : ℕ)
    → 4 ≤ length xs
    → len ≤ length xs
    → process_message g fd (xs ++ ys) len ≡ process_message g fd xs len
unfolding process_message
process_message-append g fd xs ys len f h =
    rw
      (
        u32_at-append xs ys 0 (omega arith),
        handle_new_order-append g fd xs ys len h,
        handle_cancel_order-append g fd xs ys len h,
      )
      refl

-- What stands at the front of a buffer.
pub data Front (xs : List ℕ) : Type 0 where
  short : ltb (length xs) header_size ≡ true → Front xs
  refused : ltb (length xs) header_size ≡ false → refused_length xs ≡ true → Front xs
  partial :
      ltb (length xs) header_size ≡ false
      → refused_length xs ≡ false
      → ltb (length xs) (message_length xs) ≡ true
      → Front xs
  whole :
      ltb (length xs) header_size ≡ false
      → refused_length xs ≡ false
      → ltb (length xs) (message_length xs) ≡ false
      → Front xs

pub front : (xs : List ℕ) → Front xs
front xs = elim (Bool-cases (ltb (length xs) header_size)) [
  | inl e ↦ short e
  | inr e ↦ elim (Bool-cases (refused_length xs)) [
    | inl f ↦ refused e f
    | inr f ↦ elim (Bool-cases (ltb (length xs) (message_length xs))) [
      | inl h ↦ partial e f h
      | inr h ↦ whole e f h
    ]
  ]
]

pub consume-drop :
    (xs : List ℕ) (n : ℕ)
    → n ≤ length xs
    → consume (record { bytes = xs }) n ≡ record { bytes = drop n xs }
unfolding consume
consume-drop xs n h = elim (Bool-cases (leb (length xs) n)) [
  | inl e ↦ rw (e, drop-zero n xs (leb→le _ _ e)) refl
  | inr e ↦ rw e refl
]

-- The connection of a descriptor with some bytes in its buffer.
abbrev pub holding : ConnectionState → List ℕ → ConnectionState
holding conn xs = record conn { read_buf = record { bytes = xs } }

module _ (g : TcpGateway) (conn : ConnectionState) (xs : List ℕ) where
  pub try-short :
      ltb (length xs) header_size ≡ true
      → try_process_message g (holding conn xs) ≡ (false, g, holding conn xs)
  unfolding try_process_message
  try-short e = rw e refl

  pub try-refused :
      ltb (length xs) header_size ≡ false
      → refused_length xs ≡ true
      → try_process_message g (holding conn xs) ≡ (false, g, disconnect (holding conn xs))
  unfolding try_process_message
  try-refused e f = rw (e, f) refl

  pub try-partial :
      ltb (length xs) header_size ≡ false
      → refused_length xs ≡ false
      → ltb (length xs) (message_length xs) ≡ true
      → try_process_message g (holding conn xs) ≡ (false, g, holding conn xs)
  unfolding try_process_message
  try-partial e f h = rw (e, f, h) refl

  pub try-whole :
      ltb (length xs) header_size ≡ false
      → refused_length xs ≡ false
      → ltb (length xs) (message_length xs) ≡ false
      → try_process_message g (holding conn xs) ≡ (
        true,
        process_message g conn.fd xs (message_length xs),
        holding conn (drop (message_length xs) xs),
      )
  unfolding try_process_message
  try-whole e f h = rw (e, f, h, consume-drop xs (message_length xs) (ground arith)) refl

-- The bounds of a length that is not refused.
pub message_length_bounds :
    (xs : List ℕ)
    → refused_length xs ≡ false
    → (28 ≤ message_length xs) × (message_length xs ≤ 4096)
message_length_bounds xs e = ground arith

-- The rounds of the loop beyond those that the bytes need do not matter.
pub drain_rounds :
    (n m : ℕ) (g : TcpGateway) (conn : ConnectionState) (xs : List ℕ)
    → length xs < n
    → length xs < m
    → drain n g (holding conn xs) ≡ drain m g (holding conn xs)
unfolding drain
drain_rounds zero m g conn xs h k = absurd (omega arith)
drain_rounds (suc n) zero g conn xs h k = absurd (omega arith)
drain_rounds (suc n) (suc m) g conn xs h k = elim (front xs) [
  | short e ↦ rw (try-short g conn xs e) refl
  | refused e f ↦ rw (try-refused g conn xs e f) refl
  | partial e f p ↦ rw (try-partial g conn xs e f p) refl
  | whole e f p ↦
      let b : (28 ≤ message_length xs) × (message_length xs ≤ 4096) = message_length_bounds xs f in
      let len : length (drop (message_length xs) xs) ≡ length xs - message_length xs =
        length-drop (message_length xs) xs in
      rw (try-whole g conn xs e f p) (
        drain_rounds n m (count_message (process_message g conn.fd xs (message_length xs))) conn
          (drop (message_length xs) xs) (ground arith) (ground arith))
]
