-- ===== src/Mpmc/Invariant.antt =====
-- include/rtes/mpmc_queue.hpp: what holds between any two moves of the threads of a queue.
use rtes.Prelude.{ℕ, ◌+◌, ◌%◌, ◌≤◌, ◌<◌, ◌≡◌, ◌≢◌, Option, none, some, arith}
use rtes.Mpmc.{
  MpmcQueue, Pc, idle, pushing, saw_free, writing, publishing, popping, saw_full, reading,
  recycling, cell,
}

-- The position whose cell the thread owns as a producer, or as a consumer.
abbrev pub writes : {T : Type 0} → Pc T → Option ℕ
writes (writing x p) = some p
writes (publishing x p) = some p
writes _ = none

abbrev pub reads : {T : Type 0} → Pc T → Option ℕ
reads (reading p) = some p
reads (recycling p x) = some p
reads _ = none

module _ {T : Type 0} where
  -- What a thread may rely on where it stands.
  abbrev pub Fine : MpmcQueue T → Pc T → Type 0
  Fine q idle = Unit
  Fine q (pushing x p) = Unit
  Fine q (saw_free x p) = q.enqueue_pos ≤ p → q.sequence (cell q p) ≡ p
  Fine q (writing x p) = (p < q.enqueue_pos) × (q.sequence (cell q p) ≡ p) × (q.history p ≡ x)
  Fine q (publishing x p) =
      (p < q.enqueue_pos)
      × (q.sequence (cell q p) ≡ p)
      × (q.history p ≡ x)
      × (q.data_of (cell q p) ≡ x)
  Fine q (popping p) = p ≤ q.dequeue_pos
  Fine q (saw_full p) = (p ≤ q.dequeue_pos) × (q.dequeue_pos ≤ p → q.sequence (cell q p) ≡ p + 1)
  Fine q (reading p) = (p < q.dequeue_pos) × (q.sequence (cell q p) ≡ p + 1)
  Fine q (recycling p x) = (p < q.dequeue_pos) × (q.sequence (cell q p) ≡ p + 1) × (x ≡ q.history p)

  -- The cells and the positions, whatever the threads do; `k` bounds the positions.
  pub record Sound (k : ℕ) (q : MpmcQueue T) : Type 0 where
    pub several : 2 ≤ q.capacity
    pub claimed : q.enqueue_pos ≤ k
    pub ordered : q.dequeue_pos ≤ q.enqueue_pos
    pub bounded : q.enqueue_pos ≤ q.dequeue_pos + q.capacity
    pub full :
        (p : ℕ)
        → q.sequence (cell q p) ≡ p + 1
        → (p < q.enqueue_pos) × (q.data_of (cell q p) ≡ q.history p)
    pub free : (p : ℕ) → q.sequence (cell q p) ≡ p → p < q.dequeue_pos + q.capacity

-- Two positions in a row have two cells.
pub cell_next : (n p : ℕ) → 2 ≤ n → (p + 1) % n ≢ p % n
cell_next n p h = grind arith

pub cell_again : (n p : ℕ) → 2 ≤ n → (p + n) % n ≡ p % n
cell_again n p h = grind arith
