-- ===== src/Publisher.antt =====
-- src/udp_publisher.cpp and include/rtes/udp_publisher.hpp: the publisher takes market-data events off
-- their queue and numbers the datagrams that it sends. A datagram is its packed structure; the queue, the
-- clock and the network are given from outside. The socket, the thread and the waiting are left out.
pub mod Rounds
use rtes.Prelude.{
  ℕ, zero, suc, ◌+◌, Bool, true, false, List, [], ◌∷◌, Option, none, some, ltb, ◌==◌, if◌then◌else◌,
  add64, length, take, ◌%◌, ◌&&◌,
}
use rtes.Types.Orders.{Trade}
use rtes.Worker.{MarketDataEvent, trade, bbo_update}

-- `MD_BATCH_SIZE`
abbrev pub md_batch_size : ℕ
md_batch_size = 64

-- `SENDMMSG_BATCH`
abbrev pub sendmmsg_batch : ℕ
sendmmsg_batch = 32

-- `UdpMessageHeader`
pub record UdpMessageHeader : Type 0 where
  pub type : ℕ
  pub length_of : ℕ
  pub sequence : ℕ
  pub timestamp_ns : ℕ

-- `BBOUpdateMessage` and `TradeUpdateMessage`
pub data Message : Type 0 where
  bbo_message :
      (header : UdpMessageHeader) (symbol : List ℕ)
      (bid_price bid_quantity ask_price ask_quantity : ℕ)
      → Message
  trade_message :
      (header : UdpMessageHeader) (trade_id : ℕ) (symbol : List ℕ)
      (quantity price aggressor_side : ℕ)
      → Message

abbrev pub header_of : Message → UdpMessageHeader
header_of (bbo_message h s bp bq ap aq) = h
header_of (trade_message h i s q p a) = h

-- `LocalStats`, with the number of readings of the clock so far
pub record LocalStats : Type 0 where
  pub messages_sent : ℕ
  pub next_sequence : ℕ
  pub readings : ℕ

module _ (clock : ℕ → ℕ) where
  -- `build_bbo_datagram` and `build_trade_datagram`: 64 and 57 bytes
  unfoldable pub build_datagram : MarketDataEvent → LocalStats → Message
  build_datagram (bbo_update symbol bid_price bid_quantity ask_price ask_quantity) s =
      bbo_message
        (record {
          type = 201;
          length_of = 64;
          sequence = s.next_sequence;
          timestamp_ns = clock s.readings;
        })
        (take 8 symbol) bid_price bid_quantity ask_price ask_quantity
  build_datagram (trade symbol t) s =
      trade_message
        (record {
          type = 202;
          length_of = 57;
          sequence = s.next_sequence;
          timestamp_ns = clock s.readings;
        })
        t.id (take 8 symbol) t.quantity t.price 1

  -- `next_sequence++`, and the reading of the clock
  abbrev pub counted : LocalStats → LocalStats
  counted s = record s { next_sequence = add64 s.next_sequence 1; readings = s.readings + 1 }

  -- The loop of `build_datagrams`, with the buffers that are left
  unfoldable pub build_datagrams : ℕ → List MarketDataEvent → LocalStats → List Message × LocalStats
  build_datagrams zero events s = ([], s)
  build_datagrams (suc buffers) [] s = ([], s)
  build_datagrams (suc buffers) (event ∷ events) s =
      let rest = build_datagrams buffers events (counted s) in
      (build_datagram event s ∷ rest.0, rest.1)

module _ {Q : Type 0} (pop : Q → Option MarketDataEvent × Q) where
  -- `drain_events`, with the room that is left in the batch
  unfoldable pub drain_events : ℕ → Q → List MarketDataEvent × Q
  drain_events zero q = ([], q)
  drain_events (suc room) q = elim ((pop q).0) [
    | none ↦ ([], (pop q).1)
    | some event ↦ let rest = drain_events room (pop q).1 in (event ∷ rest.0, rest.1)
  ]

module _ (clock : ℕ → ℕ) {Q : Type 0} (pop : Q → Option MarketDataEvent × Q) where
  -- A round of `worker_loop`: the messages that it gives to the network, which takes the number
  -- `taken` of them in one call.
  unfoldable pub worker_round : (List Message → ℕ) → Q → LocalStats → List Message × Q × LocalStats
  worker_round taken q s =
      let drained = drain_events pop md_batch_size q in
      let built = build_datagrams clock sendmmsg_batch drained.0 s in
      let sent = taken built.0 in
      if length drained.0 == 0 then ([], drained.1, s) else (
        built.0,
        drained.1,
        if length built.0 == 0
            then built.1
            else record (built.1) { messages_sent = add64 built.1.messages_sent sent },
      )
