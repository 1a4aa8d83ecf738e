-- ===== src/Mpmc/Ownership.antt =====
-- include/rtes/mpmc_queue.hpp: what every reachable state of the threads of a queue has.
use rtes.Prelude.{
  ℕ, ◌+◌, ◌^◌, ◌≤◌, ◌<◌, ◌≡◌, ◌≢◌, ◌⊎◌, inl, inr, refl, ◌∙◌, Option, none, some, arith,
}
use rtes.Queue.{round_up_pow2}
use rtes.Mpmc.{
  MpmcQueue, make_queue, Pc, push_start, writing, publishing, reading, recycling, Move, cell,
}
use rtes.Mpmc.System.{System, Step, pick, init, Reach, here, next}
use rtes.Mpmc.Invariant.{writes, reads, Fine, cell_next}
use rtes.Mpmc.Safety.{Inv, Step-Inv, init-Inv}

module _ {T : Type 0} where
  -- The cell that is the thread's alone, as a producer or as a consumer.
  abbrev pub owned : MpmcQueue T → Pc T → Option ℕ
  owned q (writing x p) = some (cell q p)
  owned q (publishing x p) = some (cell q p)
  owned q (reading p) = some (cell q p)
  owned q (recycling p x) = some (cell q p)
  owned q _ = none

  Move-capacity : {q q' : MpmcQueue T} {c c' : Pc T} → Move q c q' c' → q'.capacity ≡ q.capacity
  Move-capacity push_start = refl
  Move-capacity mv = refl

  Step-capacity : {s t : System T} → Step s t → t.queue.capacity ≡ s.queue.capacity
  Step-capacity (pick i mv) = Move-capacity mv

  Reach-capacity :
      {s : System T} {n : ℕ} {t : System T} → Reach s n t → t.queue.capacity ≡ s.queue.capacity
  Reach-capacity here = refl
  Reach-capacity (next r st) = Step-capacity st ∙ Reach-capacity r

  Reach-Inv :
      (min_capacity : ℕ) (blank : T)
      → 2 ≤ round_up_pow2 min_capacity
      → {n : ℕ} {s : System T} → Reach (init (make_queue min_capacity blank)) n s
      → n + s.queue.capacity < 2 ^ 63
      → Inv n s
  Reach-Inv m blank h here room = init-Inv m blank h
  Reach-Inv m blank h (next {n} {s} {t} r st) room =
      let before : n + s.queue.capacity < 2 ^ 63 = omega (arith, Step-capacity st) in
      Step-Inv before (Reach-Inv m blank h r before) st

  -- The sequence number of a cell tells its owner's side and position.
  abbrev Produces : MpmcQueue T → Pc T → ℕ → Type 0
  Produces q c b = (p : ℕ) × (writes c ≡ some p) × (cell q p ≡ b) × (q.sequence b ≡ p)

  abbrev Consumes : MpmcQueue T → Pc T → ℕ → Type 0
  Consumes q c b = (p : ℕ) × (reads c ≡ some p) × (cell q p ≡ b) × (q.sequence b ≡ p + 1)

  owner :
      (q : MpmcQueue T) (c : Pc T) (b : ℕ)
      → Fine q c
      → owned q c ≡ some b
      → Produces q c b ⊎ Consumes q c b
  owner q (writing x p) b f e = inl (p, refl, ground arith, ground arith)
  owner q (publishing x p) b f e = inl (p, refl, ground arith, ground arith)
  owner q (reading p) b f e = inr (p, refl, ground arith, ground arith)
  owner q (recycling p x) b f e = inr (p, refl, ground arith, ground arith)
  owner q c b f e = absurd (ground arith)

  Fine-apart :
      (q : MpmcQueue T) (c d : Pc T) (b : ℕ)
      → 2 ≤ q.capacity
      → Fine q c
      → Fine q d
      → ((r : ℕ) → writes c ≡ some r → writes d ≢ some r)
      → ((r : ℕ) → reads c ≡ some r → reads d ≢ some r)
      → owned q c ≡ some b
      → owned q d ≢ some b
  Fine-apart q c d b h f g w v e k = elim (owner q c b f e) [
    | inl (p, m, a, x) ↦ elim (owner q d b g k) [
      | inl (r, o, y, z) ↦ w p m (ground arith)
      | inr (r, o, y, z) ↦ cell_next q.capacity r h (ground arith)
    ]
    | inr (p, m, a, x) ↦ elim (owner q d b g k) [
      | inl (r, o, y, z) ↦ cell_next q.capacity p h (ground arith)
      | inr (r, o, y, z) ↦ v p m (ground arith)
    ]
  ]

  -- From a new queue of at least 2 cells, at any interleaving of any threads in fewer steps than
  -- 2 ^ 63 less the capacity, no cell is owned by two threads.
  pub Reach-owned :
      (min_capacity : ℕ) (blank : T)
      → 2 ≤ round_up_pow2 min_capacity
      → {n : ℕ} {s : System T} → Reach (init (make_queue min_capacity blank)) n s
      → n + s.queue.capacity < 2 ^ 63
      → (i j b : ℕ) → i ≢ j
      → owned s.queue (s.pc i) ≡ some b
      → owned s.queue (s.pc j) ≢ some b
  Reach-owned m blank h {n} {s} r room i j b d =
      let v : Inv n s = Reach-Inv m blank h r room in
      Fine-apart s.queue (s.pc i) (s.pc j) b v.sound.several (v.fine i) (v.fine j)
        (λ k. v.one_writer i j k d) (λ k. v.one_reader i j k d)

  -- From a new queue of at least 2 cells, at any interleaving of any threads in fewer steps than
  -- 2 ^ 63 less the capacity: an element that a consumer has taken at a position is the one of the
  -- producer that claimed the position, and the queue counts from 0 to its capacity of claimed positions
  -- that no consumer has claimed.
  pub Reach-popped :
      (min_capacity : ℕ) (blank : T)
      → 2 ≤ round_up_pow2 min_capacity
      → {n : ℕ} {s : System T} → Reach (init (make_queue min_capacity blank)) n s
      → n + s.queue.capacity < 2 ^ 63
      → (i p : ℕ) (x : T) → s.pc i ≡ recycling p x
      → (x ≡ s.queue.history p)
        × (p < s.queue.dequeue_pos)
        × (s.queue.dequeue_pos ≤ s.queue.enqueue_pos)
        × (s.queue.enqueue_pos ≤ s.queue.dequeue_pos + s.queue.capacity)
  Reach-popped m blank h {n} {s} r room i p x e =
      let v : Inv n s = Reach-Inv m blank h r room in
      let f : Fine s.queue (recycling p x) = rw e at (v.fine i) in
      (f.2, f.0, v.sound.ordered, v.sound.bounded)
