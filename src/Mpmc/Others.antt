-- ===== src/Mpmc/Others.antt =====
-- include/rtes/mpmc_queue.hpp: a move of one thread keeps what the others rely on.
use rtes.Prelude.{ℕ, ◌+◌, ◌<◌, ◌≡◌, ◌≢◌, some, arith}
use rtes.Mpmc.{
  MpmcQueue, Pc, idle, pushing, saw_free, writing, publishing, popping, saw_full, reading,
  recycling, write, cell,
}
use rtes.Mpmc.Invariant.{writes, reads, Fine, Sound, cell_next}

module _ {T : Type 0} {k : ℕ} (q : MpmcQueue T) (sound : Sound k q) (p : ℕ) where
  pub claim_push_keeps :
      (x : T) (e : ℕ)
      → e ≡ p + 1
      → q.enqueue_pos ≡ p
      → (c : Pc T) → Fine q c
      → Fine (record q { enqueue_pos = e; history = write q.history p x }) c
  claim_push_keeps x e h g idle f = f
  claim_push_keeps x e h g (pushing y r) f = f
  claim_push_keeps x e h g (saw_free y r) f = ground arith
  claim_push_keeps x e h g (writing y r) f = ground arith
  claim_push_keeps x e h g (publishing y r) f = ground arith
  claim_push_keeps x e h g (popping r) f = f
  claim_push_keeps x e h g (saw_full r) f = f
  claim_push_keeps x e h g (reading r) f = f
  claim_push_keeps x e h g (recycling r y) f = ground (arith, sound.ordered)

  pub write_keeps :
      (x : T) (c : Pc T)
      → q.sequence (cell q p) ≡ p
      → writes c ≢ some p
      → Fine q c
      → Fine (record q { data_of = write q.data_of (cell q p) x }) c
  write_keeps x idle h n f = f
  write_keeps x (pushing y r) h n f = f
  write_keeps x (saw_free y r) h n f = f
  write_keeps x (writing y r) h n f = f
  write_keeps x (publishing y r) h n f = ground arith
  write_keeps x (popping r) h n f = f
  write_keeps x (saw_full r) h n f = f
  write_keeps x (reading r) h n f = f
  write_keeps x (recycling r y) h n f = f

  pub publish_keeps :
      (e : ℕ) (c : Pc T)
      → e ≡ p + 1
      → q.sequence (cell q p) ≡ p
      → p < q.enqueue_pos
      → writes c ≢ some p
      → Fine q c
      → Fine (record q { sequence = write q.sequence (cell q p) e }) c
  publish_keeps e idle g h l n f = f
  publish_keeps e (pushing y r) g h l n f = f
  publish_keeps e (saw_free y r) g h l n f = ground arith
  publish_keeps e (writing y r) g h l n f = ground arith
  publish_keeps e (publishing y r) g h l n f = ground arith
  publish_keeps e (popping r) g h l n f = f
  publish_keeps e (saw_full r) g h l n f = ground (arith, cell_next q.capacity r sound.several)
  publish_keeps e (reading r) g h l n f = ground (arith, cell_next q.capacity r sound.several)
  publish_keeps e (recycling r y) g h l n f = ground (arith, cell_next q.capacity r sound.several)

  pub claim_pop_keeps :
      (e : ℕ) (c : Pc T)
      → e ≡ p + 1
      → q.dequeue_pos ≡ p
      → Fine q c
      → Fine (record q { dequeue_pos = e }) c
  claim_pop_keeps e idle g h f = f
  claim_pop_keeps e (pushing y r) g h f = f
  claim_pop_keeps e (saw_free y r) g h f = f
  claim_pop_keeps e (writing y r) g h f = f
  claim_pop_keeps e (publishing y r) g h f = f
  claim_pop_keeps e (popping r) g h f = ground arith
  claim_pop_keeps e (saw_full r) g h f = ground arith
  claim_pop_keeps e (reading r) g h f = ground arith
  claim_pop_keeps e (recycling r y) g h f = ground arith

  pub recycle_keeps :
      (e : ℕ) (c : Pc T)
      → e ≡ p + q.capacity
      → q.sequence (cell q p) ≡ p + 1
      → p < q.dequeue_pos
      → reads c ≢ some p
      → Fine q c
      → Fine (record q { sequence = write q.sequence (cell q p) e }) c
  recycle_keeps e idle g h l n f = f
  recycle_keeps e (pushing y r) g h l n f = f
  recycle_keeps e (saw_free y r) g h l n f = ground (arith, cell_next q.capacity p sound.several)
  recycle_keeps e (writing y r) g h l n f = ground (arith, cell_next q.capacity p sound.several)
  recycle_keeps e (publishing y r) g h l n f = ground (arith, cell_next q.capacity p sound.several)
  recycle_keeps e (popping r) g h l n f = f
  recycle_keeps e (saw_full r) g h l n f = ground arith
  recycle_keeps e (reading r) g h l n f = ground arith
  recycle_keeps e (recycling r y) g h l n f = ground arith
