-- ===== src/Tests/Gateways.antt =====
-- The theorems on the gateway, applied to a connection that sends one new order.
use rtes.Prelude.{ℕ, zero, suc, ◌≡◌, ◌⊎◌, refl, true, List, [], ◌∷◌, ◌++◌, none, some}
use rtes.Queue.Ring.{IsQueue, make_queue-IsQueue}
use rtes.Risk
use rtes.Risk.{RiskRequest}
use rtes.Gateway.{TcpGateway, ConnectionState, try_process_message}
use rtes.Gateway.Wire.{consume, u32_at}
use rtes.Gateway.Reactor.{
  Server, received, would_block, hung_up, readable, worker_events, receive, drain,
}
use rtes.Gateway.Chunks.{Stops, receive-append}
use rtes.Gateway.Room.{Settled, receive-Settled}
use rtes.Gateway.Balance.{Balanced, worker_events-Balanced}
use rtes.Samples.{sample_manager, sample_pool, sample_free, sample_pool-IsValid}

abbrev blank : ℕ → List ℕ → List ℕ
blank zero later = later
blank (suc n) later = 0 ∷ blank n later

-- A client buys 3 of ACME at 101, with the order 9.
abbrev header_bytes : List ℕ
header_bytes = 1 ∷ 0 ∷ 0 ∷ 0 ∷ 110 ∷ 0 ∷ 0 ∷ 0 ∷ blank 20 []

abbrev body_bytes : List ℕ
body_bytes =
    9
    ∷ blank 7 (
        65
        ∷ 67
        ∷ 77
        ∷ 69
        ∷ blank 36 (65 ∷ 67 ∷ 77 ∷ 69 ∷ blank 12 (1 ∷ 3 ∷ blank 7 (101 ∷ blank 7 (2 ∷ [])))))

abbrev sample_message : List ℕ
sample_message = header_bytes ++ body_bytes

abbrev sample_gateway : TcpGateway
sample_gateway = record {
  risk_manager = sample_manager;
  order_pool = sample_pool;
  local_stats = record {
    connections_accepted = 1;
    messages_received = 0;
    messages_sent = 0;
    orders_rejected = 0;
    pool_exhausted = 0;
    disconnections = 0;
    next_sequence = 1;
  };
  stats_atomic = record {
    connections_accepted = 0;
    messages_received = 0;
    messages_sent = 0;
    disconnections = 0;
  };
  clock = λ n. n;
  ticks = 0;
  send_works = λ _. true;
  handed = [];
}

abbrev sample_connection : ConnectionState
sample_connection = record { fd = 5; read_buf = record { bytes = [] }; connected = true }

abbrev sample_server : Server
sample_server = record { gateway = sample_gateway; connections = λ _. some sample_connection }

sample-IsQueue : IsQueue sample_manager.input_queue []
sample-IsQueue = make_queue-IsQueue (Risk.new_order none)

sample-Balanced : Balanced sample_free sample_gateway
sample-Balanced = (sample_free, [], sample_pool-IsValid, sample-IsQueue, refl)

worker_events-Balanced_example :
    Balanced sample_free
      (worker_events sample_server
        (readable 5 (received sample_message ∷ would_block ∷ []) ∷ hung_up 5 ∷ [])).gateway
worker_events-Balanced_example =
    worker_events-Balanced sample_free sample_server
      (readable 5 (received sample_message ∷ would_block ∷ []) ∷ hung_up 5 ∷ []) sample-Balanced

receive-append_example :
    (((receive sample_gateway sample_connection header_bytes).1.connected ≡ true)
      × (receive
            (receive sample_gateway sample_connection header_bytes).0
            (receive sample_gateway sample_connection header_bytes).1
            body_bytes
          ≡ receive sample_gateway sample_connection sample_message))
    ⊎ Stops
        (receive sample_gateway sample_connection header_bytes)
        (receive sample_gateway sample_connection sample_message)
receive-append_example =
    receive-append sample_gateway sample_connection header_bytes body_bytes refl

receive-Settled_example : Settled (receive sample_gateway sample_connection sample_message)
unfolding receive drain try_process_message consume u32_at
receive-Settled_example = receive-Settled sample_gateway sample_connection sample_message refl
