-- ===== src/Gateway/Balance.antt =====
-- src/tcp_gateway.cpp: whatever the clients send, in whatever reads, no slot is lost or taken twice on
-- its way from the pool to the risk manager's queue.
use rtes.Prelude.{
  ℕ, zero, suc, ◌≡◌, inl, inr, refl, sym, ap, ◌∙◌, true, false, none, some, List, [], ◌∷◌, ◌++◌,
  arith, ltb, leb, ◌==◌, Bool-cases, Option-cases, length,
}
use mathlib.Core.List.{append_assoc, append-nil}
use rtes.Protocol.{header_size}
use rtes.Pool.FreeList.{IsValid}
use rtes.Queue.{push}
use rtes.Queue.Ring.{IsQueue, push-IsQueue}
use rtes.Risk
use rtes.Risk.{RiskRequest, new_order, cancel_order}
use rtes.Gateway.{
  TcpGateway, ConnectionState, handle_new_order, handle_cancel_order, process_message,
  try_process_message, send_ack, send_reject, count_message, refused_length,
}
use rtes.Gateway.Wire.{
  u64_at, client_id_at, new_order_size, cancel_order_size, message_type, message_length, size,
}
use rtes.Gateway.Reactor.{
  drain, receive, buffered, Recv, received, closed, would_block, failed, Server, remove_connection,
  read_loop, handle_client_data, max_connections, Event, hung_up, readable, handle_event,
  worker_events,
}
use rtes.Gateway.Handover.{handle_new_order-Stocks}

-- The slots of the orders that wait.
abbrev pub pending : List RiskRequest → List ℕ
pending [] = []
pending (new_order none ∷ rs) = pending rs
pending (new_order (some i) ∷ rs) = i ∷ pending rs
pending (cancel_order id client ∷ rs) = pending rs

-- The slots that wait, and behind them the free ones, are `slots`.
abbrev pub Balanced : List ℕ → TcpGateway → Type 0
Balanced slots g =
    (free : List ℕ) × (reqs : List RiskRequest) × IsValid g.order_pool free
    × IsQueue g.risk_manager.input_queue reqs
    × (pending reqs ++ free ≡ slots)

pending-append : (rs ss : List RiskRequest) → pending (rs ++ ss) ≡ pending rs ++ pending ss
pending-append [] ss = refl
pending-append (new_order none ∷ rs) ss = pending-append rs ss
pending-append (new_order (some i) ∷ rs) ss = ap (λ r. i ∷ r) (pending-append rs ss)
pending-append (cancel_order id client ∷ rs) ss = pending-append rs ss

pending_cancel :
    (reqs : List RiskRequest) (r : RiskRequest)
    → pending (r ∷ []) ≡ []
    → pending (reqs ++ (r ∷ [])) ≡ pending reqs
pending_cancel reqs r h = pending-append reqs (r ∷ []) ∙ rw h (append-nil (pending reqs))

module _ (slots : List ℕ) where
  handle_new_order-Balanced :
      (g : TcpGateway) (fd : ℕ) (msg : List ℕ) (len : ℕ)
      → Balanced slots g
      → Balanced slots (handle_new_order g fd msg len)
  unfolding handle_new_order
  handle_new_order-Balanced g fd msg len (free, reqs, v, q, e) =
      elim (Bool-cases (ltb len new_order_size)) [
        | inl short ↦ rw short (free, reqs, v, q, e)
        | inr long ↦ elim (handle_new_order-Stocks g fd msg len free reqs (ground arith) v q) [
          | inl (i, rest, f, room, stocks, written, answer) ↦ (
            rest,
            reqs ++ (new_order (some i) ∷ []),
            stocks.0,
            stocks.1,
            rw
                (
                  pending-append reqs (new_order (some i) ∷ []),
                  append_assoc (pending reqs) (i ∷ []) rest,
                  sym f,
                )
                e,
          )
          | inr (why, stocks, answer) ↦ (free, reqs, stocks.0, stocks.1, e)
        ]
      ]

  handle_cancel_order-Balanced :
      (g : TcpGateway) (fd : ℕ) (msg : List ℕ) (len : ℕ)
      → Balanced slots g
      → Balanced slots (handle_cancel_order g fd msg len)
  unfolding handle_cancel_order send_reject send_ack Risk.submit_cancel
  handle_cancel_order-Balanced g fd msg len (free, reqs, v, q, e) =
      elim (Bool-cases (ltb len cancel_order_size)) [
        | inl short ↦ rw short (free, reqs, v, q, e)
        | inr long ↦
            let request : RiskRequest = cancel_order (u64_at msg 28) (client_id_at msg) in
            let pushed = push-IsQueue g.risk_manager.input_queue request reqs q in
            elim (Bool-cases (ltb (length reqs) 65536)) [
              | inl room ↦
                  let sent : (push g.risk_manager.input_queue request).0 ≡ true = pushed.0 ∙ room in
                  rw (long, sent)
                    (
                      free,
                      reqs ++ (request ∷ []),
                      v,
                      rw room at (pushed.1),
                      rw (pending_cancel reqs request refl) e,
                    )
              | inr full ↦
                  let sent : (push g.risk_manager.input_queue request).0 ≡ false =
                    pushed.0 ∙ full in
                  rw (long, sent) (free, reqs, v, rw full at (pushed.1), e)
            ]
      ]

  process_message-Balanced :
      (g : TcpGateway) (fd : ℕ) (msg : List ℕ) (len : ℕ)
      → Balanced slots g
      → Balanced slots (process_message g fd msg len)
  unfolding process_message
  process_message-Balanced g fd msg len b = elim (Bool-cases (message_type msg == 1)) [
    | inl e ↦ rw e (handle_new_order-Balanced g fd msg len b)
    | inr e ↦ elim (Bool-cases (message_type msg == 2)) [
      | inl f ↦ rw (e, f) (handle_cancel_order-Balanced g fd msg len b)
      | inr f ↦ rw (e, f) b
    ]
  ]

  try_process_message-Balanced :
      (g : TcpGateway) (conn : ConnectionState)
      → Balanced slots g
      → Balanced slots (try_process_message g conn).1
  unfolding try_process_message
  try_process_message-Balanced g conn b =
      let msg : List ℕ = conn.read_buf.bytes in
      elim (Bool-cases (ltb (length msg) header_size)) [
        | inl e ↦ rw e b
        | inr e ↦ elim (Bool-cases (refused_length msg)) [
          | inl f ↦ rw (e, f) b
          | inr f ↦ elim (Bool-cases (ltb (length msg) (message_length msg))) [
            | inl h ↦ rw (e, f, h) b
            | inr h ↦ rw (e, f, h) (process_message-Balanced g conn.fd msg (message_length msg) b)
          ]
        ]
      ]

  drain-Balanced :
      (n : ℕ) (g : TcpGateway) (conn : ConnectionState)
      → Balanced slots g
      → Balanced slots (drain n g conn).0
  unfolding drain
  drain-Balanced zero g conn b = b
  drain-Balanced (suc n) g conn b =
      let t = try_process_message g conn in
      let b' : Balanced slots t.1 = try_process_message-Balanced g conn b in
      elim (Bool-cases t.0) [
        | inl e ↦ rw e (drain-Balanced n (count_message t.1) t.2 b')
        | inr e ↦ rw e b'
      ]

  remove_connection-Balanced :
      (s : Server) (fd : ℕ)
      → Balanced slots s.gateway
      → Balanced slots (remove_connection s fd).gateway
  unfolding remove_connection
  remove_connection-Balanced s fd b = elim (Bool-cases (leb max_connections fd)) [
    | inl e ↦ rw e b
    | inr e ↦ rw e b
  ]

  read_loop-Balanced :
      (s : Server) (fd : ℕ) (conn : ConnectionState) (results : List Recv)
      → Balanced slots s.gateway
      → Balanced slots (read_loop s fd conn results).gateway
  unfolding read_loop receive
  read_loop-Balanced s fd conn [] b = b
  read_loop-Balanced s fd conn (would_block ∷ later) b = b
  read_loop-Balanced s fd conn (closed ∷ later) b = remove_connection-Balanced s fd b
  read_loop-Balanced s fd conn (failed ∷ later) b = remove_connection-Balanced s fd b
  read_loop-Balanced s fd conn (received new ∷ later) b =
      let after = drain (suc (size (buffered conn new).read_buf)) s.gateway (buffered conn new) in
      read_loop-Balanced (record s { gateway = after.0 }) fd after.1 later
        (drain-Balanced _ s.gateway _ b)

  handle_client_data-Balanced :
      (s : Server) (fd : ℕ) (results : List Recv)
      → Balanced slots s.gateway
      → Balanced slots (handle_client_data s fd results).gateway
  unfolding handle_client_data
  handle_client_data-Balanced s fd results b = elim (Bool-cases (leb max_connections fd)) [
    | inl e ↦ rw e b
    | inr e ↦ elim (Option-cases (s.connections fd)) [
      | inl f ↦ rw (e, f) b
      | inr (conn, f) ↦ rw (e, f) (read_loop-Balanced s fd conn results b)
    ]
  ]

  -- Whatever events the worker handles, the slots that wait and behind them the free ones stay the same
  -- list.
  pub worker_events-Balanced :
      (s : Server) (es : List Event)
      → Balanced slots s.gateway
      → Balanced slots (worker_events s es).gateway
  unfolding worker_events handle_event
  worker_events-Balanced s [] b = b
  worker_events-Balanced s (hung_up fd ∷ es) b =
      worker_events-Balanced (remove_connection s fd) es (remove_connection-Balanced s fd b)
  worker_events-Balanced s (readable fd results ∷ es) b =
      worker_events-Balanced (handle_client_data s fd results) es
        (handle_client_data-Balanced s fd results b)
