-- ===== src/Gateway/Room.antt =====
-- src/tcp_gateway.cpp: the loop over a buffer takes every whole message, and leaves room to read.
use rtes.Prelude.{
  ℕ, zero, suc, ◌-◌, ◌≤◌, ◌<◌, ◌≡◌, refl, true, false, List, ◌++◌, arith, length, drop, length-drop,
}
use rtes.Gateway.{TcpGateway, ConnectionState, try_process_message, process_message, count_message}
use rtes.Gateway.Wire.{message_length, remaining}
use rtes.Gateway.Reactor.{drain, receive}
use rtes.Gateway.Framing.{
  front, short, refused, partial, whole, holding, try-short, try-refused, try-partial, try-whole,
  message_length_bounds,
}

-- No whole message waits, and less than the longest message.
abbrev pub Settled : TcpGateway × ConnectionState → Type 0
Settled s = ((try_process_message s.0 s.1).0 ≡ false) × (4096 < remaining s.1.read_buf)

drain-Settled :
    (n : ℕ) (g : TcpGateway) (conn : ConnectionState) (xs : List ℕ)
    → length xs < n
    → ((drain n g (holding conn xs)).1.connected ≡ true)
    → Settled (drain n g (holding conn xs))
unfolding drain
drain-Settled zero g conn xs h = absurd (omega arith)
drain-Settled (suc n) g conn xs h = elim (front xs) [
  | short e ↦
      let t : try_process_message g (holding conn xs) ≡ (false, g, holding conn xs) =
        try-short g conn xs e in
      rw t (λ _. (rw t refl, ground arith))
  | refused e f ↦ rw (try-refused g conn xs e f) (λ c. absurd (ground arith))
  | partial e f p ↦
      let t : try_process_message g (holding conn xs) ≡ (false, g, holding conn xs) =
        try-partial g conn xs e f p in
      let b : (28 ≤ message_length xs) × (message_length xs ≤ 4096) = message_length_bounds xs f in
      rw t (λ _. (rw t refl, ground arith))
  | whole e f p ↦
      let b : (28 ≤ message_length xs) × (message_length xs ≤ 4096) = message_length_bounds xs f in
      let rest : List ℕ = drop (message_length xs) xs in
      let len : length rest ≡ length xs - message_length xs = length-drop (message_length xs) xs in
      rw (try-whole g conn xs e f p) (
        drain-Settled n (count_message (process_message g conn.fd xs (message_length xs))) conn rest
          (ground arith))
]

-- A connection that stays open after a read has no whole message left in its buffer, and more than
-- 4096 bytes of room: the next `recv` never asks for nothing.
pub receive-Settled :
    (g : TcpGateway) (conn : ConnectionState) (new : List ℕ)
    → (receive g conn new).1.connected ≡ true
    → Settled (receive g conn new)
unfolding receive
receive-Settled g conn new =
    drain-Settled (suc (length (conn.read_buf.bytes ++ new))) g conn (conn.read_buf.bytes ++ new)
      (omega arith)
