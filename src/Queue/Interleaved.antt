-- ===== src/Queue/Interleaved.antt =====
-- include/rtes/spsc_queue.hpp: under any interleaving of its two threads the ring is a first-in
-- first-out list, and the threads keep to different slots.
use rtes.Prelude.{
  ℕ, ◌+◌, ◌%◌, ◌≤◌, ◌<◌, ◌≡◌, ◌≢◌, Option, refl, sym, ◌∙◌, ap, Bool, true, false, List, [], ◌∷◌,
  ◌++◌, arith, leb, ◌==◌, length, none, some,
}
use mathlib.Core.List.{append_assoc}
use rtes.Queue.{
  SpscQueue, make_queue, is_full, slot, looks_empty, advance_head, advance_tail, reload_tail,
  reload_head,
}
use rtes.Queue.Indices.{
  IsRing, reload_tail-IsRing, reload_head-IsRing, store-IsRing, advance_head-IsRing,
  advance_tail-IsRing, front-IsRing, is_full-IsRing, looks_empty-IsRing, make_queue-IsRing,
}
use rtes.Queue.Threads.{
  Producer, resting, reloading, storing, advancing, Consumer, waiting, looking, taking, leaving,
  Threads, begin, Step, push_room, push_doubt, push_reload, push_refuse, push_store, push_advance,
  pop_some, pop_doubt, pop_reload, pop_refuse, pop_take, pop_leave, peek, Reach, here, next,
}

module _ {ℓ} {T : Type ℓ} where
  -- What the producer knows while it stands in `push`: `h` elements have been pushed, and its cached
  -- tail is that of `seen` taken ones.
  abbrev pub ProducerKnows : (ℕ → T) → ℕ → ℕ → Producer T → Type ℓ
  ProducerKnows buffer h seen resting = Unit
  ProducerKnows buffer h seen (reloading x) = Unit
  ProducerKnows buffer h seen (storing x) = (h < seen + 65536) × Unit {ℓ}
  ProducerKnows buffer h seen (advancing x) = (h < seen + 65536) × (buffer (h % 65536) ≡ x)

  abbrev pub ConsumerKnows : List T → ℕ → ℕ → Consumer T → Type ℓ
  ConsumerKnows xs t seen waiting = Unit
  ConsumerKnows xs t seen looking = Unit
  ConsumerKnows xs t seen taking = (t < seen) × Unit {ℓ}
  ConsumerKnows xs t seen (leaving x) = (t < seen) × ((ys : List T) × (xs ≡ x ∷ ys))

  -- `xs` waits, and each thread's knowledge stays true whatever the other does.
  record Inv (s : Threads T) : Type ℓ where
    xs : List T
    t : ℕ
    seen_tail : ℕ
    seen_head : ℕ
    ring : IsRing s.queue xs t seen_tail seen_head
    in_order : s.pushed ≡ s.popped ++ xs
    producer_knows : ProducerKnows s.queue.buffer (t + length xs) seen_tail s.producer
    consumer_knows : ConsumerKnows xs t seen_head s.consumer

  inv :
      {s : Threads T} (xs : List T) {t st sh : ℕ}
      → IsRing s.queue xs t st sh
      → s.pushed ≡ s.popped ++ xs
      → ProducerKnows s.queue.buffer (t + length xs) st s.producer
      → ConsumerKnows xs t sh s.consumer
      → Inv s
  inv xs {t} {st} {sh} ring in_order p c = record {
    xs = xs;
    t = t;
    seen_tail = st;
    seen_head = sh;
    ring = ring;
    in_order = in_order;
    producer_knows = p;
    consumer_knows = c;
  }

  ConsumerKnows-append :
      (xs : List T) (x : T) (t seen : ℕ) (c : Consumer T)
      → ConsumerKnows xs t seen c
      → ConsumerKnows (xs ++ (x ∷ [])) t seen c
  ConsumerKnows-append xs x t seen waiting k = k
  ConsumerKnows-append xs x t seen looking k = k
  ConsumerKnows-append xs x t seen taking k = k
  ConsumerKnows-append xs x t seen (leaving y) (near, (ys, e)) = (near, (ys ++ (x ∷ []), rw e refl))

  room_seen :
      (q : SpscQueue T) (xs : List T) {t st sh : ℕ}
      → IsRing q xs t st sh
      → is_full q ≡ false
      → t + length xs < st + 65536
  room_seen q xs v e = ground (arith, is_full-IsRing xs v)

  some_seen :
      (q : SpscQueue T) (xs : List T) {t st sh : ℕ}
      → IsRing q xs t st sh
      → looks_empty q ≡ false
      → t < sh
  some_seen q xs v e = ground (arith, looks_empty-IsRing xs v, v.head_near)

  push_advance-Inv :
      (s : Threads T) (x : T) (v : Inv s)
      → ProducerKnows s.queue.buffer (v.t + length v.xs) v.seen_tail (advancing x)
      → Inv (record s {
        queue = advance_head s.queue;
        producer = resting;
        pushed = s.pushed ++ (x ∷ []);
      })
  push_advance-Inv s x v (near, stored) =
      let behind : s.pushed ++ (x ∷ []) ≡ s.popped ++ (v.xs ++ (x ∷ [])) =
        rw (v.in_order) (append_assoc s.popped v.xs (x ∷ [])) in
      inv (v.xs ++ (x ∷ [])) (advance_head-IsRing v.xs x v.ring near stored) behind tt
        (ConsumerKnows-append v.xs x v.t v.seen_head s.consumer v.consumer_knows)

  taken :
      (q : SpscQueue T) (xs : List T) {t st sh : ℕ}
      → IsRing q xs t st sh
      → t < sh
      → ConsumerKnows xs t sh (leaving (q.buffer (slot q q.tail)))
  taken q [] v near = absurd (omega (arith, v.head_seen))
  taken q (x ∷ ys) v near = (near, (ys, ap (λ (y : T). y ∷ ys) (sym (front-IsRing x ys v))))

  pop_leave-Inv :
      (s : Threads T) (x : T) (xs ys : List T) {t st sh : ℕ}
      → xs ≡ x ∷ ys
      → t < sh
      → IsRing s.queue xs t st sh
      → s.pushed ≡ s.popped ++ xs
      → ProducerKnows s.queue.buffer (t + length xs) st s.producer
      → Inv (record s {
        queue = advance_tail s.queue;
        consumer = waiting;
        popped = s.popped ++ (x ∷ []);
      })
  pop_leave-Inv s x xs ys {t} e near ring in_order p =
      let count : t + length xs ≡ t + 1 + length ys = rw e (omega arith) in
      inv ys (advance_tail-IsRing x ys (rw e at ring) near)
        (in_order ∙ rw e (sym (append_assoc s.popped (x ∷ []) ys))) (rw count at p) tt

  Step-Inv : {s s' : Threads T} → Inv s → Step s s' → Inv s'
  Step-Inv {s} v (push_room e room) =
      inv v.xs v.ring v.in_order (room_seen s.queue v.xs v.ring room, tt) v.consumer_knows
  Step-Inv v (push_doubt e full) = inv v.xs v.ring v.in_order tt v.consumer_knows
  Step-Inv {s} v (push_reload e room) =
      let again = reload_tail-IsRing v.xs v.ring in
      inv v.xs again v.in_order (room_seen (reload_tail s.queue) v.xs again room, tt)
        v.consumer_knows
  Step-Inv v (push_refuse e full) =
      inv v.xs (reload_tail-IsRing v.xs v.ring) v.in_order tt v.consumer_knows
  Step-Inv v (push_store {x} e) =
      let (near, _) = rw e at v.producer_knows in
      let stored = store-IsRing v.xs x v.ring near in
      inv v.xs stored.0 v.in_order (near, stored.1) v.consumer_knows
  Step-Inv {s} v (push_advance {x} e) = push_advance-Inv s x v (rw e at v.producer_knows)
  Step-Inv {s} v (pop_some e some_left) =
      inv v.xs v.ring v.in_order v.producer_knows (some_seen s.queue v.xs v.ring some_left, tt)
  Step-Inv v (pop_doubt e none_seen) = inv v.xs v.ring v.in_order v.producer_knows tt
  Step-Inv {s} v (pop_reload e some_left) =
      let again = reload_head-IsRing v.xs v.ring in
      inv v.xs again v.in_order v.producer_knows
        (some_seen (reload_head s.queue) v.xs again some_left, tt)
  Step-Inv v (pop_refuse e none_left) =
      inv v.xs (reload_head-IsRing v.xs v.ring) v.in_order v.producer_knows tt
  Step-Inv {s} v (pop_take e) =
      let (near, _) = rw e at v.consumer_knows in
      inv v.xs v.ring v.in_order v.producer_knows (taken s.queue v.xs v.ring near)
  Step-Inv {s} v (pop_leave {x} e) =
      let (near, (ys, first)) = rw e at v.consumer_knows in
      pop_leave-Inv s x v.xs ys first near v.ring v.in_order v.producer_knows
  Step-Inv v (peek e none_seen) =
      inv v.xs (reload_head-IsRing v.xs v.ring) v.in_order v.producer_knows (rw e tt)

  Reach-Inv : (blank : T) {s : Threads T} → Reach (begin (make_queue 65536 blank)) s → Inv s
  Reach-Inv blank here = inv [] (make_queue-IsRing blank) refl tt tt
  Reach-Inv blank (next r st) = Step-Inv (Reach-Inv blank r) st

  abbrev pub no_elements : List T → Bool
  no_elements [] = true
  no_elements (x ∷ xs) = false

  no_elements_lem : (t : ℕ) (xs : List T) → (t == t + length xs) ≡ no_elements xs
  no_elements_lem t [] = ground arith
  no_elements_lem t (x ∷ xs) = ground arith

  -- From a new queue of 65536 slots, under any interleaving of the two threads: what has been taken out
  -- is what has been put in, less at most 65536 elements that were put in last and wait. A push that
  -- reads the tail again finds the queue full exactly where 65536 elements wait, and a pop that reads
  -- the head again finds it empty exactly where none waits.
  pub Reach-fifo :
      (blank : T) {s : Threads T}
      → Reach (begin (make_queue 65536 blank)) s
      → (xs : List T) × (s.pushed ≡ s.popped ++ xs)
        × (length xs ≤ 65536)
        × (is_full (reload_tail s.queue) ≡ leb 65536 (length xs))
        × (looks_empty (reload_head s.queue) ≡ no_elements xs)
  Reach-fifo blank {s} r =
      let v = Reach-Inv blank r in
      (
        v.xs,
        v.in_order,
        v.ring.fits,
        is_full-IsRing v.xs (reload_tail-IsRing v.xs v.ring) ∙ ground arith,
        looks_empty-IsRing v.xs (reload_head-IsRing v.xs v.ring) ∙ no_elements_lem v.t v.xs,
      )

  -- The slot that a thread reads or writes.
  abbrev pub producer_slot : SpscQueue T → Producer T → Option ℕ
  producer_slot q (storing x) = some (slot q q.head)
  producer_slot q (advancing x) = some (slot q q.head)
  producer_slot q _ = none

  abbrev pub consumer_slot : SpscQueue T → Consumer T → Option ℕ
  consumer_slot q taking = some (slot q q.tail)
  consumer_slot q (leaving x) = some (slot q q.tail)
  consumer_slot q _ = none

  producer_has_room :
      (buffer : ℕ → T) (q : SpscQueue T) (h seen b : ℕ) (p : Producer T)
      → ProducerKnows buffer h seen p
      → producer_slot q p ≡ some b
      → (h < seen + 65536) × (slot q q.head ≡ b)
  producer_has_room buffer q h seen b (storing x) k e = (k.0, ground arith)
  producer_has_room buffer q h seen b (advancing x) k e = (k.0, ground arith)
  producer_has_room buffer q h seen b resting k e = absurd (ground arith)
  producer_has_room buffer q h seen b (reloading x) k e = absurd (ground arith)

  consumer_has_some :
      (q : SpscQueue T) (xs : List T) (t seen b : ℕ) (c : Consumer T)
      → ConsumerKnows xs t seen c
      → consumer_slot q c ≡ some b
      → (t < seen) × (slot q q.tail ≡ b)
  consumer_has_some q xs t seen b taking k e = (k.0, ground arith)
  consumer_has_some q xs t seen b (leaving x) k e = (k.0, ground arith)
  consumer_has_some q xs t seen b waiting k e = absurd (ground arith)
  consumer_has_some q xs t seen b looking k e = absurd (ground arith)

  -- In the same states, while the producer stands at the write of its slot or behind it and the consumer
  -- at the read of its slot or behind it, these are two slots.
  pub Reach-apart :
      (blank : T) {s : Threads T}
      → Reach (begin (make_queue 65536 blank)) s
      → (b : ℕ) → producer_slot s.queue s.producer ≡ some b
      → consumer_slot s.queue s.consumer ≢ some b
  Reach-apart blank {s} r b p c =
      let v = Reach-Inv blank r in
      let (room, at_head) =
        producer_has_room s.queue.buffer s.queue _ _ b s.producer v.producer_knows p in
      let (left, at_tail) = consumer_has_some s.queue v.xs _ _ b s.consumer v.consumer_knows c in
      let head_slot : s.queue.head % 65536 ≡ b = rw⁻¹ (v.ring.size_is) at_head in
      let tail_slot : s.queue.tail % 65536 ≡ b = rw⁻¹ (v.ring.size_is) at_tail in
      omega (arith, v.ring.head_is, v.ring.tail_is, v.ring.tail_seen, v.ring.head_seen)
