-- ===== src/Mpmc.antt =====
-- include/rtes/mpmc_queue.hpp, `MPMCQueue<T>`: many producers and consumers over one ring of cells. This
-- file has one thread's moves, a shared access at a time; every load sees the last store. The
-- monitoring calls and the allocation of the buffer are left out.
pub mod System
pub mod Invariant
pub mod Others
pub mod Moves
pub mod Safety
pub mod Ownership
use rtes.Prelude.{
  ℕ, ◌+◌, ◌-◌, ◌%◌, ◌^◌, ◌≤◌, ◌<◌, ◌≡◌, ◌≢◌, Bool, true, false, ltb, leb, ◌==◌, if◌then◌else◌,
  add64, sub64, u64_mod,
}
use rtes.Queue.{round_up_pow2}

-- `history` is no part of the queue: it remembers the element of the producer that claimed a position.
pub record MpmcQueue (T : Type 0) : Type 0 where
  pub capacity : ℕ
  pub sequence : ℕ → ℕ
  pub data_of : ℕ → T
  pub enqueue_pos : ℕ
  pub dequeue_pos : ℕ
  pub history : ℕ → T

-- A write to one cell, or to one entry of the history.
abbrev pub write {ℓ} : {A : Type ℓ} → (ℕ → A) → ℕ → A → ℕ → A
write f i a j = if i == j then a else f j

-- The difference `diff` of two words as signed numbers is below 0.
abbrev pub is_negative : ℕ → ℕ → Bool
is_negative seq pos = leb (2 ^ 63) (sub64 seq pos)

module _ {T : Type 0} where
  -- The constructor: the cell `i` is writable at the position `i`; `blank` is what zeroed memory reads as.
  unfoldable pub make_queue : ℕ → T → MpmcQueue T
  make_queue min_capacity blank = record {
    capacity = round_up_pow2 min_capacity;
    sequence = λ i. i;
    data_of = λ _. blank;
    enqueue_pos = 0;
    dequeue_pos = 0;
    history = λ _. blank;
  }

  -- `pos & mask_`, the capacity being a power of 2
  abbrev pub cell : MpmcQueue T → ℕ → ℕ
  cell q pos = pos % q.capacity

-- Where a thread stands, with the local variables that are live there.
pub data Pc (T : Type 0) : Type 0 where
  idle : Pc T
  pushing : (item : T) (pos : ℕ) → Pc T  -- head of the loop of `push`
  saw_free : (item : T) (pos : ℕ) → Pc T  -- before its compare-exchange
  writing : (item : T) (pos : ℕ) → Pc T  -- it owns the cell
  publishing : (item : T) (pos : ℕ) → Pc T  -- before the store of the sequence
  popping : (pos : ℕ) → Pc T  -- head of the loop of `pop`
  saw_full : (pos : ℕ) → Pc T
  reading : (pos : ℕ) → Pc T
  recycling : (pos : ℕ) (item : T) → Pc T

-- One shared access of one thread. A weak compare-exchange may fail without a reason.
pub data Move {T : Type 0} (q : MpmcQueue T) : Pc T → MpmcQueue T → Pc T → Type 0 where
  push_start : {x : T} → Move q idle q (pushing x q.enqueue_pos)
  push_free : {x : T} {p : ℕ} → q.sequence (cell q p) ≡ p → Move q (pushing x p) q (saw_free x p)
  push_full :
      {x : T} {p : ℕ}
      → q.sequence (cell q p) ≢ p
      → is_negative (q.sequence (cell q p)) p ≡ true
      → Move q (pushing x p) q idle
  push_reload :
      {x : T} {p : ℕ}
      → q.sequence (cell q p) ≢ p
      → is_negative (q.sequence (cell q p)) p ≡ false
      → Move q (pushing x p) q (pushing x q.enqueue_pos)
  push_claim :
      {x : T} {p : ℕ}
      → q.enqueue_pos ≡ p
      → Move q
          (saw_free x p)
          (record q { enqueue_pos = add64 p 1; history = write q.history p x })
          (writing x p)
  push_lost : {x : T} {p : ℕ} → Move q (saw_free x p) q (pushing x q.enqueue_pos)
  push_write :
      {x : T} {p : ℕ}
      → Move q (writing x p) (record q { data_of = write q.data_of (cell q p) x }) (publishing x p)
  push_publish :
      {x : T} {p : ℕ}
      → Move q
          (publishing x p)
          (record q { sequence = write q.sequence (cell q p) (add64 p 1) })
          idle
  pop_start : Move q idle q (popping q.dequeue_pos)
  pop_full : {p : ℕ} → q.sequence (cell q p) ≡ add64 p 1 → Move q (popping p) q (saw_full p)
  pop_empty :
      {p : ℕ}
      → q.sequence (cell q p) ≢ add64 p 1
      → is_negative (q.sequence (cell q p)) (add64 p 1) ≡ true
      → Move q (popping p) q idle
  pop_reload :
      {p : ℕ}
      → q.sequence (cell q p) ≢ add64 p 1
      → is_negative (q.sequence (cell q p)) (add64 p 1) ≡ false
      → Move q (popping p) q (popping q.dequeue_pos)
  pop_claim :
      {p : ℕ}
      → q.dequeue_pos ≡ p
      → Move q (saw_full p) (record q { dequeue_pos = add64 p 1 }) (reading p)
  pop_lost : {p : ℕ} → Move q (saw_full p) q (popping q.dequeue_pos)
  pop_read : {p : ℕ} → Move q (reading p) q (recycling p (q.data_of (cell q p)))
  pop_recycle :
      {p : ℕ} {x : T}
      → Move q
          (recycling p x)
          (record q { sequence = write q.sequence (cell q p) (add64 p q.capacity) })
          idle
