-- ===== src/Publisher/Rounds.antt =====
-- src/udp_publisher.cpp: what a round of the publisher sends.
use rtes.Prelude.{
  ℕ, zero, suc, ◌+◌, ◌%◌, ◌≤◌, ◌<◌, ◌≡◌, refl, ap, ◌∙◌, List, [], ◌∷◌, Option, none, some, arith,
  min, false, Bool-cases, inl, inr, if◌then◌else◌, u64_mod, length, take, get_elem?, ◌==◌,
}
use rtes.Worker.{MarketDataEvent, trade, bbo_update}
use rtes.Publisher.{
  md_batch_size, sendmmsg_batch, Message, bbo_message, trade_message, header_of, LocalStats,
  build_datagram, counted, build_datagrams, drain_events, worker_round,
}

-- The message has the content of the event.
abbrev pub Carries : Message → MarketDataEvent → Type 0
Carries (bbo_message h s bp bq ap aq) (bbo_update symbol a b c d) =
    (s ≡ take 8 symbol) × (bp ≡ a) × (bq ≡ b) × (ap ≡ c) × (aq ≡ d)
Carries (bbo_message h s bp bq ap aq) (trade symbol t) = ⊥
Carries (trade_message h i s q p a) (bbo_update symbol b c d e) = ⊥
Carries (trade_message h i s q p a) (trade symbol t) =
    (i ≡ t.id) × (s ≡ take 8 symbol) × (q ≡ t.quantity) × (p ≡ t.price)

module _ {Q : Type 0} (pop : Q → Option MarketDataEvent × Q) where
  -- The next pops give these events, and leave the queue `last`.
  abbrev pub Yields : Q → List MarketDataEvent → Q → Type 0
  Yields q [] last = q ≡ last
  Yields q (e ∷ es) last = ((pop q).0 ≡ some e) × Yields (pop q).1 es last

  module _ (clock : ℕ → ℕ) where
    -- What is left of the queue when the events have been taken: a pop of the empty queue is the last.
    abbrev pub left_of : ℕ → List MarketDataEvent → Q → Q
    left_of room es last = if length es == room then last else (pop last).1

    drain_events-Yields :
        (room : ℕ) (q : Q) (es : List MarketDataEvent) (last : Q)
        → Yields q es last
        → length es ≤ room
        → (length es < room → (pop last).0 ≡ none)
        → drain_events pop room q ≡ (es, left_of room es last)
    unfolding drain_events
    drain_events-Yields zero q [] last y h e = rw y refl
    drain_events-Yields zero q (x ∷ es) last y h e = absurd (omega arith)
    drain_events-Yields (suc room) q [] last y h e =
        let stop : (pop q).0 ≡ none = rw y (e (omega arith)) in
        let same : q ≡ last = y in rw (stop, drain_events) (rw same (ground arith))
    drain_events-Yields (suc room) q (x ∷ es) last y h e =
        let rest =
          drain_events-Yields room (pop q).1 es last y.1 (omega arith) (λ k. e (omega arith)) in
        let size : (length (x ∷ es) == suc room) ≡ (length es == room) = ground arith in
        rw (y.0, drain_events, rest, size) refl

    build-Carries : (e : MarketDataEvent) (s : LocalStats) → Carries (build_datagram clock e s) e
    unfolding build_datagram
    build-Carries (bbo_update symbol a b c d) s = (refl, refl, refl, refl, refl)
    build-Carries (trade symbol t) s = (refl, refl, refl, refl)

    sequence-build :
        (e : MarketDataEvent) (s : LocalStats)
        → (header_of (build_datagram clock e s)).sequence ≡ s.next_sequence
    unfolding build_datagram
    sequence-build (bbo_update symbol a b c d) s = refl
    sequence-build (trade symbol t) s = refl

    length-build :
        (buffers : ℕ) (es : List MarketDataEvent) (s : LocalStats)
        → length (build_datagrams clock buffers es s).0 ≡ min buffers (length es)
    unfolding build_datagrams
    length-build zero es s = omega arith
    length-build (suc buffers) [] s = omega arith
    length-build (suc buffers) (e ∷ es) s = omega (arith, length-build buffers es (counted clock s))

    -- The message at `k` is that of the event at `k`, and has the sequence number of `k`.
    abbrev pub NumberedFrom : ℕ → List MarketDataEvent → List Message → Type 0
    NumberedFrom seq es ms =
        (k : ℕ) (m : Message)
        → get_elem? ms k ≡ some m
        → ((header_of m).sequence ≡ (seq + k) % u64_mod)
          × (e : MarketDataEvent) × (get_elem? es k ≡ some e)
          × Carries m e

    build-NumberedFrom :
        (buffers : ℕ) (es : List MarketDataEvent) (s : LocalStats)
        → s.next_sequence < u64_mod
        → NumberedFrom s.next_sequence es (build_datagrams clock buffers es s).0
    unfolding build_datagrams
    build-NumberedFrom zero es s small k m h = absurd (ground arith)
    build-NumberedFrom (suc buffers) [] s small k m h = absurd (ground arith)
    build-NumberedFrom (suc buffers) (e ∷ es) s small zero m h =
        let first : build_datagram clock e s ≡ m = ground arith in
        let here : (header_of (build_datagram clock e s)).sequence
            ≡ (s.next_sequence + 0) % u64_mod =
          sequence-build e s ∙ omega arith in
        rw⁻¹ first (here, e, refl, build-Carries e s)
    build-NumberedFrom (suc buffers) (e ∷ es) s small (suc k) m h =
        let (seq, x, at_k, carried) =
          build-NumberedFrom buffers es (counted clock s) (omega arith) k m h in
        (seq ∙ omega arith, x, at_k, carried)

    sequence-build_datagrams :
        (buffers : ℕ) (es : List MarketDataEvent) (s : LocalStats)
        → s.next_sequence < u64_mod
        → (build_datagrams clock buffers es s).1.next_sequence
          ≡ (s.next_sequence + min buffers (length es)) % u64_mod
    unfolding build_datagrams
    sequence-build_datagrams zero es s small = omega arith
    sequence-build_datagrams (suc buffers) [] s small = omega arith
    sequence-build_datagrams (suc buffers) (e ∷ es) s small =
        sequence-build_datagrams buffers es (counted clock s) (omega arith) ∙ omega arith

    round_sends :
        (taken : List Message → ℕ) (q : Q) (s : LocalStats) (es : List MarketDataEvent) (after : Q)
        → drain_events pop md_batch_size q ≡ (es, after)
        → let r = worker_round clock pop taken q s in
          let built = build_datagrams clock sendmmsg_batch es s in
          (r.0 ≡ built.0) × (r.1 ≡ after) × (r.2.next_sequence ≡ built.1.next_sequence)
    unfolding worker_round build_datagrams
    round_sends taken q s [] after d = rw (d, worker_round) (refl, refl, refl)
    round_sends taken q s (e ∷ es) after d =
        let built = build_datagrams clock sendmmsg_batch (e ∷ es) s in
        let some_left : (length (e ∷ es) == 0) ≡ false = ground arith in
        elim (Bool-cases (length built.0 == 0)) [
          | inl none_built ↦ rw (d, worker_round, some_left, none_built) (refl, refl, refl)
          | inr some_built ↦ rw (d, worker_round, some_left, some_built) (refl, refl, refl)
        ]

    -- Where the next pops give `es`, at most 64, and the queue is empty behind them if they are fewer: a
    -- round takes all of them off the queue and sends the first 32, one message for each, with its
    -- content and the next sequence number. It sends no other, so the events after the first 32 are lost.
    pub worker_round-NumberedFrom :
        (taken : List Message → ℕ) (q : Q) (s : LocalStats) (es : List MarketDataEvent) (last : Q)
        → Yields q es last
        → length es ≤ 64
        → (length es < 64 → (pop last).0 ≡ none)
        → s.next_sequence < u64_mod
        → let r = worker_round clock pop taken q s in
          NumberedFrom s.next_sequence es r.0
          × (length r.0 ≡ min 32 (length es))
          × (r.1 ≡ left_of 64 es last)
          × (r.2.next_sequence ≡ (s.next_sequence + min 32 (length es)) % u64_mod)
    worker_round-NumberedFrom taken q s es last y h e small =
        let (sent, left, seq) =
          round_sends taken q s es (left_of 64 es last) (drain_events-Yields 64 q es last y h e) in
        (
          λ k m at_k. build-NumberedFrom 32 es s small k m (rw sent at at_k),
          rw sent (length-build 32 es s),
          left,
          seq ∙ sequence-build_datagrams 32 es s small,
        )
