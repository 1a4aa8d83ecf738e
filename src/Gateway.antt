-- ===== src/Gateway.antt =====
-- src/tcp_gateway.cpp, `TcpGateway`: messages from the clients' connections to the risk manager. What
-- the operating system does is given from outside: the results of `recv` as a list, the results of
-- `send` and the clock as functions of the number of calls. Threads, sockets and logs are left out.
pub mod Wire
pub mod Reactor
pub mod Framing
pub mod Chunks
pub mod Room
pub mod Reads
pub mod Handover
pub mod Balance
use rtes.Prelude.{
  ℕ, zero, suc, ◌+◌, ◌%◌, Bool, true, false, Option, none, some, List, [], ◌∷◌, ◌++◌, ltb, ◌==◌,
  ◌||◌, ◌&&◌, not, if◌then◌else◌, add64, length,
}
use rtes.Types.FixedString.{FixedString, of_c_string}
use rtes.Types.Orders.{Order, pending}
use rtes.Protocol.{MessageHeader, make_header, header_size}
use rtes.Book.Levels.{Memory}
use rtes.Pool
use rtes.Pool.{Pool}
use rtes.Risk
use rtes.Risk.{RiskManager}
use Wire.{
  pool_exhausted_text, risk_queue_full_text, accepted_text, cancel_submitted_text,
  cancel_queue_full_text, ReadBuffer, size, write_behind, consume, message_type, message_length,
  u64_at, byte_at, client_id_at, symbol_at, side_of, order_type_of, new_order_size,
  cancel_order_size, ack_size,
}

pub record LocalStats : Type 0 where
  pub connections_accepted : ℕ
  pub messages_received : ℕ
  pub messages_sent : ℕ
  pub orders_rejected : ℕ
  pub pool_exhausted : ℕ
  pub disconnections : ℕ
  pub next_sequence : ℕ

-- `AtomicStats`, which other threads read
pub record AtomicStats : Type 0 where
  pub connections_accepted : ℕ
  pub messages_received : ℕ
  pub messages_sent : ℕ
  pub disconnections : ℕ

-- `ConnectionState`, without the fields that the code never reads.
pub record ConnectionState : Type 0 where
  pub fd : ℕ
  pub read_buf : ReadBuffer
  pub connected : Bool

-- `OrderAckMessage`
pub record OrderAckMessage : Type 0 where
  pub header : MessageHeader
  pub order_id : ℕ
  pub status : ℕ
  pub reason : List ℕ

-- `handed` remembers what was passed to `send`, with its descriptor.
pub record TcpGateway : Type 0 where
  pub risk_manager : RiskManager
  pub order_pool : Pool
  pub local_stats : LocalStats
  pub stats_atomic : AtomicStats
  pub clock : ℕ → ℕ
  pub ticks : ℕ
  pub send_works : ℕ → Bool
  pub handed : List (ℕ × OrderAckMessage)

abbrev pub max_message_size : ℕ
max_message_size = 4096

abbrev pub order_ack : ℕ
order_ack = 101

abbrev pub ack_of : TcpGateway → ℕ → ℕ → List ℕ → OrderAckMessage
ack_of g order_id status reason = record {
  header = make_header order_ack ack_size g.local_stats.next_sequence (g.clock g.ticks);
  order_id = order_id;
  status = status;
  reason = reason;
}

-- `send_ack`; the reasons of the code all fit their field.
unfoldable pub send_ack : TcpGateway → ℕ → ℕ → ℕ → List ℕ → TcpGateway
send_ack g fd order_id status reason = record g {
  ticks = suc g.ticks;
  handed = g.handed ++ ((fd, ack_of g order_id status reason) ∷ []);
  local_stats = record (g.local_stats) {
    next_sequence = add64 g.local_stats.next_sequence 1;
    messages_sent =
        if g.send_works (length g.handed)
        then add64 g.local_stats.messages_sent 1
        else g.local_stats.messages_sent;
  };
}

-- `send_reject`
unfoldable pub send_reject : TcpGateway → ℕ → ℕ → List ℕ → TcpGateway
unfolding send_ack
send_reject g fd order_id reason =
    let acked = send_ack g fd order_id 2 reason in
    record acked {
      local_stats = record (acked.local_stats) {
        orders_rejected = add64 acked.local_stats.orders_rejected 1;
      };
    }

-- The order that `handle_new_order` writes into its slot.
unfoldable pub order_from : ℕ → List ℕ → Order
order_from now msg = record {
  price = u64_at msg 101;
  remaining_quantity = u64_at msg 93;
  id = u64_at msg 28;
  status = pending;
  side = side_of (byte_at msg 92);
  type = order_type_of (byte_at msg 109);
  quantity = u64_at msg 93;
  timestamp = now;
  symbol = symbol_at msg;
  client_id = client_id_at msg;
}

-- The write to the slot.
abbrev pub fill_slot : TcpGateway → ℕ → List ℕ → TcpGateway
fill_slot g order msg = record g {
  ticks = suc g.ticks;
  risk_manager = record (g.risk_manager) {
    mem = λ q. if order == q then order_from (g.clock g.ticks) msg else g.risk_manager.mem q;
  };
}

-- The end of `handle_new_order`, with the order in its slot.
unfoldable pub submit : TcpGateway → ℕ → ℕ → ℕ → TcpGateway
submit g fd order order_id =
    let sent = Risk.submit_order g.risk_manager (some order) in
    if sent.0
    then send_ack (record g { risk_manager = sent.1 }) fd order_id 1 accepted_text
    else send_reject
        (record g { risk_manager = sent.1; order_pool = Pool.deallocate g.order_pool order }) fd
        order_id risk_queue_full_text

-- The pool has no slot left.
unfoldable pub refuse_exhausted : TcpGateway → ℕ → ℕ → TcpGateway
refuse_exhausted g fd order_id =
    let rejected = send_reject g fd order_id pool_exhausted_text in
    record rejected {
      local_stats = record (rejected.local_stats) {
        pool_exhausted = add64 rejected.local_stats.pool_exhausted 1;
      };
    }

unfoldable pub place : TcpGateway → ℕ → List ℕ → ℕ → TcpGateway
place g fd msg order = submit (fill_slot g order msg) fd order (u64_at msg 28)

unfoldable pub take_slot : TcpGateway → ℕ → List ℕ → Option ℕ × Pool → TcpGateway
take_slot g fd msg (none, pool) =
    refuse_exhausted (record g { order_pool = pool }) fd (u64_at msg 28)
take_slot g fd msg (some order, pool) = place (record g { order_pool = pool }) fd msg order

-- `handle_new_order`
unfoldable pub handle_new_order : TcpGateway → ℕ → List ℕ → ℕ → TcpGateway
handle_new_order g fd msg len =
    if ltb len new_order_size then g else take_slot g fd msg (Pool.allocate g.order_pool)

-- `handle_cancel_order`
unfoldable pub handle_cancel_order : TcpGateway → ℕ → List ℕ → ℕ → TcpGateway
handle_cancel_order g fd msg len =
    if ltb len cancel_order_size
    then g
    else let sent = Risk.submit_cancel g.risk_manager (u64_at msg 28) (client_id_at msg) in
      let g' = record g { risk_manager = sent.1 } in
      if sent.0
      then send_ack g' fd (u64_at msg 28) 1 cancel_submitted_text
      else send_reject g' fd (u64_at msg 28) cancel_queue_full_text

-- `process_message`: heartbeats and unknown types are dropped.
unfoldable pub process_message : TcpGateway → ℕ → List ℕ → ℕ → TcpGateway
process_message g fd msg len =
    if message_type msg == 1
    then handle_new_order g fd msg len
    else if message_type msg == 2
    then handle_cancel_order g fd msg len
    else g

-- `disconnect`
abbrev pub disconnect : ConnectionState → ConnectionState
disconnect conn = record conn { connected = false }

-- A length in the header that no message has.
abbrev pub refused_length : List ℕ → Bool
refused_length msg =
    ltb (message_length msg) header_size || ltb max_message_size (message_length msg)

-- `try_process_message`: whether a message was taken.
unfoldable pub try_process_message :
    TcpGateway → ConnectionState → Bool × TcpGateway × ConnectionState
try_process_message g conn =
    let msg = conn.read_buf.bytes in
    if ltb (size conn.read_buf) header_size
    then (false, g, conn)
    else if refused_length msg
    then (false, g, disconnect conn)
    else if ltb (size conn.read_buf) (message_length msg)
    then (false, g, conn)
    else (
      true,
      process_message g conn.fd msg (message_length msg),
      record conn { read_buf = consume conn.read_buf (message_length msg) },
    )

abbrev pub count_message : TcpGateway → TcpGateway
count_message g = record g {
  local_stats = record (g.local_stats) {
    messages_received = add64 g.local_stats.messages_received 1;
  };
}
