-- ===== src/Pool/Threads.antt =====
-- include/rtes/memory_pool.hpp: any number of threads in `allocate` and `deallocate` of one pool,
-- interleaved access by access; every load sees the last store. The counters of the statistics are left
-- out.
pub mod Invariant
pub mod Facts
pub mod Claims
pub mod Returns
pub mod Exclusive
use rtes.Prelude.{
  ℕ, zero, suc, ◌+◌, ◌≡◌, ◌≢◌, Bool, true, false, List, Option, none, some, set, add32,
}
use rtes.Mpmc.{write}
use rtes.Pool.{Pool, pool_empty, pack, unpack, next_of}

-- Where a thread stands, with the head that it loaded last, as the word `old_head`.
pub data Pc : Type 0 where
  idle : Pc
  allocating : (old_head : ℕ) → Pc  -- head of the loop of `allocate`
  claiming : (old_head next_index : ℕ) → Pc  -- before its compare-exchange
  freeing : (slot old_head : ℕ) → Pc  -- head of the loop of `deallocate`
  linking : (slot old_head : ℕ) → Pc  -- before its compare-exchange

-- `held` is no part of the pool: it remembers which slots `allocate` has returned and no call of
-- `deallocate` has been given since.
pub record Threads : Type 0 where
  pub next : List ℕ
  pub head : ℕ
  pub held : ℕ → Bool
  pub pc : ℕ → Pc

abbrev pub begin : Pool → Threads
begin p = record { next = p.next; head = p.head; held = λ _. false; pc = λ _. idle }

-- One access of one thread. A weak compare-exchange may fail without a reason. `deallocate` is only
-- called with a slot that `allocate` returned, and once for each time.
pub data Step (s : Threads) : Threads → Type 0 where
  alloc_start :
      (i : ℕ) → s.pc i ≡ idle → Step s (record s { pc = write s.pc i (allocating s.head) })
  alloc_empty :
      (i : ℕ) {old : ℕ}
      → s.pc i ≡ allocating old
      → (unpack old).0 ≡ pool_empty
      → Step s (record s { pc = write s.pc i idle })
  alloc_next :
      (i : ℕ) {old : ℕ}
      → s.pc i ≡ allocating old
      → (unpack old).0 ≢ pool_empty
      → Step s (record s { pc = write s.pc i (claiming old (next_of s.next (unpack old).0)) })
  alloc_claim :
      (i : ℕ) {old next_index : ℕ}
      → s.pc i ≡ claiming old next_index
      → s.head ≡ old
      → Step s (record s {
        head = pack next_index (add32 (unpack old).1 1);
        held = write s.held (unpack old).0 true;
        pc = write s.pc i idle;
      })
  alloc_lost :
      (i : ℕ) {old next_index : ℕ}
      → s.pc i ≡ claiming old next_index
      → Step s (record s { pc = write s.pc i (allocating s.head) })
  free_start :
      (i slot : ℕ)
      → s.pc i ≡ idle
      → s.held slot ≡ true
      → Step s
          (record s { held = write s.held slot false; pc = write s.pc i (freeing slot s.head) })
  free_next :
      (i : ℕ) {slot old : ℕ}
      → s.pc i ≡ freeing slot old
      → Step s
          (record s { next = set s.next slot (unpack old).0; pc = write s.pc i (linking slot old) })
  free_link :
      (i : ℕ) {slot old : ℕ}
      → s.pc i ≡ linking slot old
      → s.head ≡ old
      → Step s (record s { head = pack slot (add32 (unpack old).1 1); pc = write s.pc i idle })
  free_lost :
      (i : ℕ) {slot old : ℕ}
      → s.pc i ≡ linking slot old
      → Step s (record s { pc = write s.pc i (freeing slot s.head) })

-- The states that `n` steps lead to.
pub data Reach (start : Threads) : ℕ → Threads → Type 0 where
  here : Reach start zero start
  next : {n : ℕ} {s t : Threads} → Reach start n s → Step s t → Reach start (suc n) t
