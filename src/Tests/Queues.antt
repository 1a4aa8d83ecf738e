-- ===== src/Tests/Queues.antt =====
-- The theorems on the queue of many producers and consumers, applied to short runs of it.
use rtes.Prelude.{ℕ, ◌≡◌, ◌≢◌, ◌≤◌, ◌<◌, ◌+◌, refl, some, arith}
use rtes.Queue.{round_up_pow2}
use rtes.Mpmc.{
  make_queue, push_start, push_free, push_claim, push_write, push_publish, pop_start, pop_full,
  pop_claim, pop_read,
}
use rtes.Mpmc.System.{System, pick, init, Reach, here, next}
use rtes.Mpmc.Ownership.{owned, Reach-owned, Reach-popped}

two_cells : 2 ≤ round_up_pow2 2
unfolding round_up_pow2
two_cells = omega arith

abbrev fresh : System ℕ
fresh = init (make_queue 2 0)

-- The threads 0 and 1 have each claimed a cell for an element.
record Run (n : ℕ) : Type 0 where
  state : System ℕ
  reached : Reach fresh n state

abbrev two_producers : Run 6
unfolding make_queue round_up_pow2
two_producers = record {
  state = _;
  reached =
      next
        (next
          (next
            (next (next (next here (pick 0 (push_start {x = 7}))) (pick 0 (push_free {p = 0} refl)))
              (pick 0 (push_claim refl)))
            (pick 1 (push_start {x = 8})))
          (pick 1 (push_free {p = 1} refl)))
        (pick 1 (push_claim refl));
}

-- The thread 0 has pushed the element 7, and the thread 1 has read it.
abbrev one_element : Run 9
unfolding make_queue round_up_pow2
one_element = record {
  state = _;
  reached =
      next
        (next
          (next
            (next
              (next
                (next
                  (next
                    (next (next here (pick 0 (push_start {x = 7})))
                      (pick 0 (push_free {p = 0} refl)))
                    (pick 0 (push_claim refl)))
                  (pick 0 push_write))
                (pick 0 push_publish))
              (pick 1 pop_start))
            (pick 1 (pop_full {p = 0} refl)))
          (pick 1 (pop_claim refl)))
        (pick 1 pop_read);
}

Reach-owned_example : owned two_producers.state.queue (two_producers.state.pc 1) ≢ some 0
unfolding make_queue round_up_pow2
Reach-owned_example =
    Reach-owned 2 0 two_cells two_producers.reached (omega arith) 0 1 0 (omega arith) refl

Reach-popped_example : (7 ≡ one_element.state.queue.history 0) × (0 < 1) × (1 ≤ 1) × (1 ≤ 1 + 2)
unfolding make_queue round_up_pow2
Reach-popped_example = Reach-popped 2 0 two_cells one_element.reached (omega arith) 1 0 7 refl
