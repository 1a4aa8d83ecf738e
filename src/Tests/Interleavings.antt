-- ===== src/Tests/Interleavings.antt =====
-- The theorems on the interleaved threads of the ring, of the quotes and of the pool, applied to short
-- runs of them.
use rtes.Prelude.{
  ℕ, ◌+◌, ◌≤◌, ◌<◌, ◌≡◌, ◌≢◌, refl, true, false, List, ◌++◌, Option, none, some, arith, leb, ◌==◌,
  length, contains, Distinct,
}
use rtes.Queue.{make_queue, is_full, looks_empty, reload_tail, reload_head, round_up_pow2}
use rtes.Queue.Threads.{
  Threads, begin, push_room, push_store, push_advance, pop_doubt, pop_reload, Reach, here, next,
}
use rtes.Queue.Interleaved.{Reach-fifo, Reach-apart, consumer_slot, no_elements}
use rtes.Book.Seqlock
use rtes.Mpmc.{write}
use rtes.Book.Seqlock.{copying}
use rtes.Book.Seqlock.Untorn.{Reach-untorn}
use rtes.Pool.{Pool, init, pack, unpack, pool_empty, links}
use rtes.Pool.Threads as Slots
use rtes.Pool.{validate_capacity}
use rtes.Pool.FreeList.{Chain}
use rtes.Pool.Threads.Invariant.{flying, IsKept}
use rtes.Pool.Threads.Exclusive.{Reach-exclusive, Reach-IsKept}

-- The producer has pushed 7 and stands before the store of 8 while the consumer reads its slot.
record Run : Type 0 where
  state : Threads ℕ
  reached : Reach (begin (make_queue 65536 0)) state

abbrev two_pushes : Run
unfolding make_queue round_up_pow2
two_pushes = record {
  state = _;
  reached =
      next
        (next
          (next
            (next (next (next here (push_room {x = 7} refl refl)) (push_store refl))
              (push_advance refl))
            (pop_doubt refl refl))
          (pop_reload refl refl))
        (push_room {x = 8} refl refl);
}

Reach-fifo_example :
    (xs : List ℕ) × (two_pushes.state.pushed ≡ two_pushes.state.popped ++ xs)
    × (length xs ≤ 65536)
    × (is_full (reload_tail two_pushes.state.queue) ≡ leb 65536 (length xs))
    × (looks_empty (reload_head two_pushes.state.queue) ≡ no_elements xs)
Reach-fifo_example = Reach-fifo 0 two_pushes.reached

Reach-apart_example : consumer_slot two_pushes.state.queue two_pushes.state.consumer ≢ some 1
unfolding make_queue round_up_pow2
Reach-apart_example = Reach-apart 0 two_pushes.reached 1 refl

-- One update of the quotes, and then a reader that has copied them all.
abbrev quotes : ℕ → ℕ
quotes j = j + 100

record Copy (n : ℕ) : Type 0 where
  state : Seqlock.Threads
  reached : Seqlock.Reach n state

abbrev one_copy : Copy 12
one_copy = record {
  state = _;
  reached =
      Seqlock.next
        (Seqlock.next
          (Seqlock.next
            (Seqlock.next
              (Seqlock.next
                (Seqlock.next
                  (Seqlock.next
                    (Seqlock.next
                      (Seqlock.next
                        (Seqlock.next
                          (Seqlock.next
                            (Seqlock.next Seqlock.here
                              (Seqlock.update_begin {quotes = quotes} refl))
                            (Seqlock.update_word refl (omega arith)))
                          (Seqlock.update_word refl (omega arith)))
                        (Seqlock.update_word refl (omega arith)))
                      (Seqlock.update_word refl (omega arith)))
                    (Seqlock.update_end refl (omega arith)))
                  (Seqlock.read_begin 3 refl refl))
                (Seqlock.read_word 3 4 refl))
              (Seqlock.read_word 3 0 refl))
            (Seqlock.read_word 3 1 refl))
          (Seqlock.read_word 3 2 refl))
        (Seqlock.read_word 3 3 refl);
}

abbrev copied : ℕ → Option ℕ
copied =
    write
      (write (write (write (write (λ _. none) 4 (some 2)) 0 (some 100)) 1 (some 101)) 2 (some 102))
      3 (some 103)

all_copied : (j : ℕ) → j < 5 → copied j ≢ none
all_copied j h = ground arith

Reach-untorn_example :
    (one_copy.state.writer ≡ Seqlock.resting)
    × ((j : ℕ) → j < 4 → copied j ≡ some (one_copy.state.published j))
    × (copied 4 ≡ some 2)
Reach-untorn_example = Reach-untorn one_copy.reached (omega arith) 3 2 copied refl all_copied refl

-- A thread has taken the slot 0 of three, and another one is about to take the slot 1.
abbrev three_slots : Pool
three_slots = record { capacity = 3; next = links 0 3; head = 0; allocated = 0; high_water = 0 }

record Taking (n : ℕ) : Type 0 where
  state : Slots.Threads
  reached : Slots.Reach (Slots.begin three_slots) n state

abbrev two_takers : Taking 5
unfolding pack unpack links
two_takers = record {
  state = _;
  reached =
      Slots.next
        (Slots.next
          (Slots.next
            (Slots.next (Slots.next Slots.here (Slots.alloc_start 0 refl))
              (Slots.alloc_next 0 refl (omega arith)))
            (Slots.alloc_claim 0 refl refl))
          (Slots.alloc_start 1 refl))
        (Slots.alloc_next 1 refl (omega arith));
}

three_slots_made : init 3 ≡ some three_slots
unfolding init validate_capacity links pack
three_slots_made = refl

Reach-exclusive_example :
    ((unpack 4294967297).0 < 3)
    × (two_takers.state.held (unpack 4294967297).0 ≡ false)
    × ((j : ℕ) → flying (two_takers.state.pc j) ≢ some (unpack 4294967297).0)
unfolding pack unpack links
Reach-exclusive_example =
    Reach-exclusive 3 three_slots three_slots_made two_takers.reached (omega arith) 1 4294967297 2
      refl refl

Reach-IsKept_example :
    (free : List ℕ) × Chain two_takers.state.next (unpack two_takers.state.head).0 free
    × Distinct free
    × ((b : ℕ) → b < 3 → IsKept two_takers.state free b)
    × ((b : ℕ) → contains b free ≡ true → two_takers.state.held b ≡ false)
    × ((i b : ℕ)
        → flying (two_takers.state.pc i) ≡ some b
        → (contains b free ≡ false) × (two_takers.state.held b ≡ false))
    × (((unpack two_takers.state.head).0 == pool_empty) ≡ (length free == 0))
Reach-IsKept_example = Reach-IsKept 3 three_slots three_slots_made two_takers.reached (omega arith)
