-- ===== src/Gateway/Handover.antt =====
-- src/tcp_gateway.cpp: a new order takes a slot of the pool to the risk manager's queue, or gives it
-- back, and its client gets one answer.
use rtes.Prelude.{
  ℕ, ◌≤◌, ◌<◌, ◌≡◌, ◌⊎◌, inl, inr, refl, ap, ◌∙◌, true, false, none, some, List, [], ◌∷◌, ◌++◌,
  arith, ltb, ltb→lt, Bool-cases, length, ==_refl,
}
use rtes.Pool
use rtes.Pool.{Pool}
use rtes.Pool.FreeList.{IsValid, allocate-IsValid, deallocate-allocate}
use rtes.Queue.{push}
use rtes.Queue.Ring.{IsQueue, push-IsQueue}
use rtes.Risk
use rtes.Risk.{RiskManager, RiskRequest, new_order}
use rtes.Gateway.{
  TcpGateway, OrderAckMessage, handle_new_order, take_slot, place, submit, send_ack, send_reject,
  refuse_exhausted, order_from, new_order_size,
}
use rtes.Gateway.Wire.{u64_at, new_order_size}

module _ (g : TcpGateway) (fd : ℕ) (msg : List ℕ) where
  -- One acknowledgement was passed to `send`: for this order, on this connection, with this status.
  abbrev pub Answered : TcpGateway → ℕ → Type 0
  Answered after status =
      (ack : OrderAckMessage) × (after.handed ≡ g.handed ++ ((fd, ack) ∷ []))
      × (ack.order_id ≡ u64_at msg 28)
      × (ack.status ≡ status)

  -- The free list `free` and the waiting requests `reqs`, in the pool and in the risk manager's queue.
  abbrev pub Stocks : TcpGateway → List ℕ → List RiskRequest → Type 0
  Stocks after free reqs =
      IsValid after.order_pool free × IsQueue after.risk_manager.input_queue reqs

  abbrev pub HandedOver : TcpGateway → List ℕ → List RiskRequest → Type 0
  HandedOver after free reqs =
      (i : ℕ) × (rest : List ℕ) × (free ≡ i ∷ rest)
      × (length reqs < 65536)
      × Stocks after rest (reqs ++ (new_order (some i) ∷ []))
      × (after.risk_manager.mem i ≡ order_from (g.clock g.ticks) msg)
      × Answered after 1

  abbrev pub TurnedAway : TcpGateway → List ℕ → List RiskRequest → Type 0
  TurnedAway after free reqs =
      ((free ≡ []) ⊎ (65536 ≤ length reqs)) × Stocks after free reqs × Answered after 2

  exhausted :
      (reqs : List RiskRequest) (pool : Pool)
      → IsValid pool []
      → IsQueue g.risk_manager.input_queue reqs
      → TurnedAway (take_slot g fd msg (none, pool)) [] reqs
  unfolding take_slot refuse_exhausted send_reject send_ack
  exhausted reqs pool v q = (inl refl, (v, q), (_, refl, refl, refl))

  given :
      (i : ℕ) (rest : List ℕ) (reqs : List RiskRequest)
      → IsValid g.order_pool (i ∷ rest)
      → IsQueue g.risk_manager.input_queue reqs
      → HandedOver (take_slot g fd msg (some i, (Pool.allocate g.order_pool).1)) (i ∷ rest) reqs
        ⊎ TurnedAway (take_slot g fd msg (some i, (Pool.allocate g.order_pool).1)) (i ∷ rest) reqs
  unfolding take_slot place submit send_reject send_ack Risk.submit_order
  given i rest reqs v q =
      let pushed = push-IsQueue g.risk_manager.input_queue (new_order (some i)) reqs q in
      let taken : IsValid (Pool.allocate g.order_pool).1 rest =
        (allocate-IsValid g.order_pool (i ∷ rest) v).1 in
      elim (Bool-cases (ltb (length reqs) 65536)) [
        | inl room ↦
            let sent : (push g.risk_manager.input_queue (new_order (some i))).0 ≡ true =
              pushed.0 ∙ room in
            rw sent (
              inl (
                i,
                rest,
                refl,
                ltb→lt _ _ room,
                (taken, rw room at (pushed.1)),
                rw (==_refl i) refl,
                (_, refl, refl, refl),
              ))
        | inr full ↦
            let sent : (push g.risk_manager.input_queue (new_order (some i))).0 ≡ false =
              pushed.0 ∙ full in
            rw sent (
              inr (
                inr (ground arith),
                (deallocate-allocate g.order_pool i rest v, rw full at (pushed.1)),
                (_, refl, refl, refl),
              ))
      ]

  pub handle_new_order-Stocks :
      (len : ℕ) (free : List ℕ) (reqs : List RiskRequest)
      → new_order_size ≤ len
      → IsValid g.order_pool free
      → IsQueue g.risk_manager.input_queue reqs
      → HandedOver (handle_new_order g fd msg len) free reqs
        ⊎ TurnedAway (handle_new_order g fd msg len) free reqs
  unfolding handle_new_order
  handle_new_order-Stocks len [] reqs h v q =
      let long : ltb len new_order_size ≡ false = ground arith in
      let a = allocate-IsValid g.order_pool [] v in
      let e : Pool.allocate g.order_pool ≡ (none, (Pool.allocate g.order_pool).1) =
        ap (λ o. (o, (Pool.allocate g.order_pool).1)) a.0 in
      rw (long, e) (inr (exhausted reqs (Pool.allocate g.order_pool).1 a.1 q))
  handle_new_order-Stocks len (i ∷ rest) reqs h v q =
      let long : ltb len new_order_size ≡ false = ground arith in
      let a = allocate-IsValid g.order_pool (i ∷ rest) v in
      let e : Pool.allocate g.order_pool ≡ (some i, (Pool.allocate g.order_pool).1) =
        ap (λ o. (o, (Pool.allocate g.order_pool).1)) a.0 in
      rw (long, e) (given i rest reqs v q)
