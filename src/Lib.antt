-- ===== src/Lib.antt =====
-- RTES, a real-time trading exchange: the order path from the clients' connections to the order book, and
-- the services around it.
--
-- The gateway cuts the bytes of a connection into messages, puts a new order into a slot of the pool and
-- hands the slot to the risk manager's queue. An order is a slot of the memory pool, named by its index. The risk manager checks it and pushes a
-- request to the single-producer queue of the symbol's matching engine; the engine takes requests in
-- batches and applies them to its order book; the book matches, keeps what is left, and gives slots
-- back to the pool; trades and quotes go to the market-data queue.
--
-- The files, and the code that they model:
--   Types, Types/FixedString, Types/Orders   include/rtes/types.hpp: strings, sides, Order, Trade
--   Errors      include/rtes/error_handling.hpp: error codes and results
--   Pool        include/rtes/memory_pool.hpp: allocate, deallocate; Pool/FreeList its free list;
--               Pool/Threads interleaves the calls of any threads, its children are the proof
--   Queue       include/rtes/spsc_queue.hpp: push, pop, consumer_empty; Queue/Ring as a list;
--               Queue/Threads interleaves its two threads, Indices, Interleaved and Alone are the proof
--   Book        src/order_book.cpp and include/rtes/order_book.hpp: add_order, cancel_order, shutdown,
--               get_depth, read_bbo. Levels, PriceBook, Lookup and Matching are its parts; Matching/View
--               has the reference matching; Seqlock interleaves the quotes' writer and readers; the
--               other children are the proofs
--   Requests    src/matching_engine.cpp: submit_order, cancel_order (the side of the producer)
--   Worker      src/matching_engine.cpp: drain_batch, process_new_order, process_cancel, publication
--   Risk        src/risk_manager.cpp: the checks, routing with its rollback, cancels, drain_batch; Outcomes
--               what becomes of an order and its charge, Rate the window of the rate limit
--   Protocol    src/protocol.cpp: the CRC-32 checksum of a message; Checksums what it detects
--   Mpmc        include/rtes/mpmc_queue.hpp: push and pop as the moves of threads; System interleaves
--               them, Invariant, Others, Moves and Safety are the proof, Ownership what it comes to
--   Gateway     src/tcp_gateway.cpp: the message handlers; Wire the bytes of messages and the read
--               buffer, Reactor the loops and the connections; the other children are the proofs
--   Transaction src/transaction.cpp: commit, rollback, scopes, the manager; Commit and Ended the proofs
--   Recovery    src/error_handling.cpp: the circuit breaker and the other recovery strategies; Trips how
--               often a server that is down is called
--   Validation  src/input_validation.cpp: cleaning of text; Messages and Configs the checks
--   Limiter     src/network_security.cpp: rate limiter and sessions, Timeouts how long they are valid;
--               Monitor counts the traffic
--   Exchange    src/exchange.cpp: construction of the engines, start, stop, get_health; Sound, Cycle the proofs
--   Auth        src/security_utils.cpp and src/auth_middleware.cpp: tokens, roles, the middleware; Tokens and
--               Requests which tokens and requests are let through, Logs the escaping of text for the logs
--   Memory      include/rtes/memory_safety.hpp and src/memory_safety.cpp: checked buffers and strings, the
--               owner of a descriptor; Buffers, Strings and Owners the proofs
--   Publisher   src/udp_publisher.cpp: a round of the publisher; Rounds what it sends
--   Prelude     words, lists and Boolean tests; Samples and Tests apply the theorems to states
--
-- State is passed explicitly. Numbers are native naturals, with the wrap-around of 64 and 32 bit words
-- written out. Hash maps are lists of entries. A memory is a function from slots to orders, so all that
-- holds a pointer sees a write. The clock is a function of the number of readings.
--
-- A sweep runs on fuel: one round for each order on the other side, one for each level, and one more.
-- Each round takes an order or a level away, or is the last. The batch loops run on what the batch still
-- has room for, 128 requests of the risk manager and 256 of an engine.
--
-- The loop over a read buffer runs on one round for each byte and one more; a message has 28 bytes or
-- more, and the rounds beyond those needed change nothing.
--
-- The threads of the two queues, of the pool and of the snapshot of the best quotes are interleaved access
-- by access, with sequentially consistent memory: Mpmc, Queue/Threads, Pool/Threads, Book/Seqlock. Bounds on
-- the number of accesses (2 ^ 63, 2 ^ 32, 2 ^ 64) keep counters from wrapping around; the single-producer
-- queue needs none. Elsewhere a call of a queue or of the pool is one step.
--
-- Not modelled: the interleaving of atomic operations elsewhere, weaker memory orders, exceptions except where a result says so, latency metrics, prefetches and
-- logs, sockets and the operating system, which answer from outside, TLS and hashing, floating-point
-- arithmetic, deployment, monitoring, dashboards and tools. Towards the engine the market-data queue is
-- an interface: a type with the push that the engine calls.
pub mod Prelude
pub mod Types
pub mod Errors
pub mod Pool
pub mod Book
pub mod Queue
pub mod Requests
pub mod Risk
pub mod Mpmc
pub mod Gateway
pub mod Transaction
pub mod Recovery
pub mod Validation
pub mod Limiter
pub mod Memory
pub mod Exchange
pub mod Publisher
pub mod Auth
pub mod Worker
pub mod Protocol
pub mod Samples
pub mod Tests
