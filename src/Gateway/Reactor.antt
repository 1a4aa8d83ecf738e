-- ===== src/Gateway/Reactor.antt =====
-- src/tcp_gateway.cpp: the loops around the message handlers, and the table of the connections. The
-- results of `recv` are given as a list, whose end is "no data"; descriptors index the table.
use rtes.Prelude.{
  ℕ, zero, suc, ◌%◌, true, Option, none, some, List, [], ◌∷◌, ltb, leb, ◌==◌, ◌&&◌, if◌then◌else◌,
  add64,
}
use rtes.Gateway.{TcpGateway, ConnectionState, try_process_message, count_message}
use rtes.Gateway.Wire.{size, write_behind}

-- `while (try_process_message(conn))`, in at most `n` rounds.
unfoldable pub drain : ℕ → TcpGateway → ConnectionState → TcpGateway × ConnectionState
drain zero g conn = (g, conn)
drain (suc n) g conn =
    let taken = try_process_message g conn in
    let rest = drain n (count_message taken.1) taken.2 in
    if taken.0 then rest else (taken.1, taken.2)

abbrev pub buffered : ConnectionState → List ℕ → ConnectionState
buffered conn new = record conn { read_buf = write_behind conn.read_buf new }

-- What follows a `recv` of some bytes. A message has 28 bytes or more, so the rounds are enough.
unfoldable pub receive : TcpGateway → ConnectionState → List ℕ → TcpGateway × ConnectionState
receive g conn new = drain (suc (size (buffered conn new).read_buf)) g (buffered conn new)

pub data Recv : Type 0 where
  received : List ℕ → Recv
  closed would_block failed : Recv

pub record Server : Type 0 where
  pub gateway : TcpGateway
  pub connections : ℕ → Option ConnectionState

abbrev pub max_connections : ℕ
max_connections = 1024

abbrev pub set_connection : Server → ℕ → Option ConnectionState → Server
set_connection s fd conn = record s { connections = λ i. if fd == i then conn else s.connections i }

-- `remove_connection`
unfoldable pub remove_connection : Server → ℕ → Server
remove_connection s fd = if leb max_connections fd then s else record (set_connection s fd none) {
  gateway = record (s.gateway) {
    local_stats = record (s.gateway.local_stats) {
      disconnections = add64 s.gateway.local_stats.disconnections 1;
    };
  };
}

-- The loop of `handle_client_data`.
unfoldable pub read_loop : Server → ℕ → ConnectionState → List Recv → Server
read_loop s fd conn [] = set_connection s fd (some conn)
read_loop s fd conn (would_block ∷ later) = set_connection s fd (some conn)
read_loop s fd conn (closed ∷ later) = remove_connection s fd
read_loop s fd conn (failed ∷ later) = remove_connection s fd
read_loop s fd conn (received new ∷ later) =
    let after = receive s.gateway conn new in
    read_loop (record s { gateway = after.0 }) fd after.1 later

-- `handle_client_data`
unfoldable pub handle_client_data : Server → ℕ → List Recv → Server
handle_client_data s fd results =
    if leb max_connections fd
    then s
    else elim (s.connections fd) [ none ↦ s | some conn ↦ read_loop s fd conn results ]

-- The body of `acceptor_loop` for an accepted descriptor.
unfoldable pub accept_connection : Server → ℕ → Server
accept_connection s fd =
    if leb max_connections fd
    then s
    else record (set_connection s fd
        (some (record { fd = fd; read_buf = record { bytes = [] }; connected = true }))) {
          gateway = record (s.gateway) {
            local_stats = record (s.gateway.local_stats) {
              connections_accepted = add64 s.gateway.local_stats.connections_accepted 1;
            };
          };
        }

-- `flush_stats`
unfoldable pub flush_stats : TcpGateway → TcpGateway
flush_stats g = record g {
  stats_atomic = record {
    connections_accepted = g.local_stats.connections_accepted;
    messages_received = g.local_stats.messages_received;
    messages_sent = g.local_stats.messages_sent;
    disconnections = g.local_stats.disconnections;
  };
}

-- `STATS_FLUSH_INTERVAL`
abbrev pub stats_flush_interval : ℕ
stats_flush_interval = 4096

-- `maybe_flush_stats`
unfoldable pub maybe_flush_stats : TcpGateway → TcpGateway
unfolding flush_stats
maybe_flush_stats g =
    if ((g.local_stats.messages_received % stats_flush_interval) == 0)
      && ltb 0 g.local_stats.messages_received
    then flush_stats g
    else g

-- What `epoll_wait` reports of a descriptor.
pub data Event : Type 0 where
  hung_up : ℕ → Event
  readable : ℕ → List Recv → Event

unfoldable pub handle_event : Server → Event → Server
handle_event s (hung_up fd) = remove_connection s fd
handle_event s (readable fd results) = handle_client_data s fd results

-- One round of `worker_loop`.
unfoldable pub worker_events : Server → List Event → Server
worker_events s [] = s
worker_events s (e ∷ es) = worker_events (handle_event s e) es

unfoldable pub worker_round : Server → List Event → Server
worker_round s es =
    let after = worker_events s es in record after { gateway = maybe_flush_stats after.gateway }

-- The end of `stop`, once the threads have ended.
unfoldable pub close_all : Server → Server
close_all s = record { gateway = flush_stats s.gateway; connections = λ _. none }
