-- ===== src/Gateway/Chunks.antt =====
-- src/tcp_gateway.cpp: how the bytes of a connection are cut into reads does not matter, and what is
-- left of them after a read leaves room for the next.
use rtes.Prelude.{
  ℕ, zero, suc, ◌+◌, ◌-◌, ◌≤◌, ◌<◌, ◌≡◌, ◌⊎◌, inl, inr, refl, sym, ◌∙◌, true, false, List, ◌++◌,
  arith, ltb, length, length-append, drop, drop-append, length-drop,
}
use mathlib.Core.List.{append_assoc}
use rtes.Protocol.{header_size}
use rtes.Gateway.{
  TcpGateway, ConnectionState, try_process_message, process_message, refused_length, count_message,
}
use rtes.Gateway.Wire.{message_length}
use rtes.Gateway.Reactor.{drain, receive}
use rtes.Gateway.Reads.{u32_at-append}
use rtes.Gateway.Framing.{
  front, short, refused, partial, whole, holding, try-short, try-refused, try-partial, try-whole,
  message_length_bounds, drain_rounds, process_message-append,
}

-- A header in the buffer stays where it is when bytes come in behind it.
long-append :
    (xs ys : List ℕ)
    → ltb (length xs) header_size ≡ false
    → ltb (length (xs ++ ys)) header_size ≡ false
long-append xs ys e = ground (arith, length-append xs ys)

message_length-append :
    (xs ys : List ℕ)
    → ltb (length xs) header_size ≡ false
    → message_length (xs ++ ys) ≡ message_length xs
message_length-append xs ys e = u32_at-append xs ys 4 (ground arith)

-- A whole message at the front is taken alike whatever comes in behind it.
try_more :
    (g : TcpGateway) (conn : ConnectionState) (xs ys : List ℕ)
    → ltb (length xs) header_size ≡ false
    → refused_length xs ≡ false
    → ltb (length xs) (message_length xs) ≡ false
    → try_process_message g (holding conn (xs ++ ys)) ≡ (
      true,
      process_message g conn.fd xs (message_length xs),
      holding conn (drop (message_length xs) xs ++ ys),
    )
try_more g conn xs ys e f p =
    let same : message_length (xs ++ ys) ≡ message_length xs = message_length-append xs ys e in
    let f' : refused_length (xs ++ ys) ≡ false = rw same f in
    let p' : ltb (length (xs ++ ys)) (message_length (xs ++ ys)) ≡ false =
      rw same (ground (arith, length-append xs ys)) in
    try-whole g conn (xs ++ ys) (long-append xs ys e) f' p'
    ∙ rw
        (
          same,
          process_message-append g conn.fd xs ys (message_length xs) (ground arith) (ground arith),
          drop-append (message_length xs) xs ys (ground arith),
        )
        refl

-- The loop over `xs ++ ys` goes on where the loop over `xs` has stopped.
abbrev GoesOn :
    ℕ → TcpGateway × ConnectionState → TcpGateway → ConnectionState → List ℕ → List ℕ → Type 0
GoesOn m stopped g conn xs ys =
    (zs : List ℕ) × (stopped.1 ≡ holding conn zs)
    × (length zs ≤ length xs)
    × ((r : ℕ)
        → length (zs ++ ys) < r
        → drain m g (holding conn (xs ++ ys)) ≡ drain r stopped.0 (holding conn (zs ++ ys)))

-- A length that is refused stops both.
abbrev pub Stops : TcpGateway × ConnectionState → TcpGateway × ConnectionState → Type 0
Stops a b = (a.1.connected ≡ false) × (b.1.connected ≡ false) × (b.0 ≡ a.0)

pub drain-append :
    (n m : ℕ) (g : TcpGateway) (conn : ConnectionState) (xs ys : List ℕ)
    → length xs < n
    → length (xs ++ ys) < m
    → GoesOn m (drain n g (holding conn xs)) g conn xs ys
      ⊎ Stops (drain n g (holding conn xs)) (drain m g (holding conn (xs ++ ys)))
unfolding drain
drain-append zero m g conn xs ys h k = absurd (omega arith)
drain-append (suc n) zero g conn xs ys h k = absurd (omega arith)
drain-append (suc n) (suc m) g conn xs ys h k = elim (front xs) [
  | short e ↦
      rw (try-short g conn xs e)
        (inl (xs, refl, omega arith, λ r l. drain_rounds (suc m) r g conn (xs ++ ys) k l))
  | refused e f ↦
      let f' : refused_length (xs ++ ys) ≡ true = rw (message_length-append xs ys e) f in
      rw (try-refused g conn xs e f, try-refused g conn (xs ++ ys) (long-append xs ys e) f')
        (inr (refl, refl, refl))
  | partial e f p ↦
      rw (try-partial g conn xs e f p)
        (inl (xs, refl, omega arith, λ r l. drain_rounds (suc m) r g conn (xs ++ ys) k l))
  | whole e f p ↦
      let b : (28 ≤ message_length xs) × (message_length xs ≤ 4096) = message_length_bounds xs f in
      let rest : List ℕ = drop (message_length xs) xs in
      let len : length rest ≡ length xs - message_length xs = length-drop (message_length xs) xs in
      let both : length (rest ++ ys) ≡ length rest + length ys = length-append rest ys in
      let all : length (xs ++ ys) ≡ length xs + length ys = length-append xs ys in
      rw (try-whole g conn xs e f p, try_more g conn xs ys e f p)
        (elim (drain-append n m (count_message (process_message g conn.fd xs (message_length xs)))
          conn rest ys (ground arith) (ground arith)) [
            | inl (zs, a, l, q) ↦ inl (zs, a, omega arith, q)
            | inr s ↦ inr s
          ])
]

-- The sockets may cut the bytes of a connection into reads as they like: two reads leave what one read
-- of all the bytes leaves, or a refused length in the first part ends both, with one gateway.
pub receive-append :
    (g : TcpGateway) (conn : ConnectionState) (xs ys : List ℕ)
    → conn.connected ≡ true
    → (((receive g conn xs).1.connected ≡ true)
        × (receive (receive g conn xs).0 (receive g conn xs).1 ys ≡ receive g conn (xs ++ ys)))
      ⊎ Stops (receive g conn xs) (receive g conn (xs ++ ys))
unfolding receive
receive-append g conn xs ys c =
    let old : List ℕ = conn.read_buf.bytes in
    rw (sym (append_assoc old xs ys))
      (elim (drain-append (suc (length (old ++ xs))) (suc (length ((old ++ xs) ++ ys))) g conn
        (old ++ xs) ys (omega arith) (omega arith)) [
          | inl (zs, a, l, q) ↦ rw a (inl (c, sym (q (suc (length (zs ++ ys))) (omega arith))))
          | inr s ↦ inr s
        ])
