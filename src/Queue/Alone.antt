-- ===== src/Queue/Alone.antt =====
-- include/rtes/spsc_queue.hpp: a call that the other thread does not interrupt is the call of one step.
use rtes.Prelude.{
  ◌≡◌, refl, List, [], ◌∷◌, ◌++◌, Bool-cases, inl, inr, if◌then◌else◌, Option, none, some,
}
use rtes.Queue.{is_full, looks_empty, reload_tail, reload_head, push, pop}
use rtes.Queue.Threads.{
  resting, waiting, Threads, push_room, push_doubt, push_reload, push_refuse, push_store,
  push_advance, pop_some, pop_doubt, pop_reload, pop_refuse, pop_take, pop_leave, Reach, next,
}

module _ {ℓ} {T : Type ℓ} where
  abbrev pub with_popped : List T → Option T → List T
  with_popped popped none = popped
  with_popped popped (some x) = popped ++ (x ∷ [])

  -- Where no push has begun, the producer's moves alone can lead to the queue and the answer of `push`.
  pub push-Reach :
      (start s : Threads T) (x : T)
      → Reach start s
      → s.producer ≡ resting
      → Reach start (record s {
        queue = (push s.queue x).1;
        producer = resting;
        pushed = if (push s.queue x).0 then s.pushed ++ (x ∷ []) else s.pushed;
      })
  unfolding push
  push-Reach start s x r e = elim (Bool-cases (is_full s.queue)) [
    | inr room ↦
        rw room (next (next (next r (push_room e room)) (push_store refl)) (push_advance refl))
    | inl full ↦ elim (Bool-cases (is_full (reload_tail s.queue))) [
      | inl still ↦
          rw (full, still) (next (next r (push_doubt {x = x} e full)) (push_refuse refl still))
      | inr room ↦
          rw (full, room)
            (next
              (next (next (next r (push_doubt e full)) (push_reload refl room)) (push_store refl))
              (push_advance refl))
    ]
  ]

  -- Where no pop has begun, the consumer's moves alone can lead to the queue and the answer of `pop`.
  pub pop-Reach :
      (start s : Threads T)
      → Reach start s
      → s.consumer ≡ waiting
      → Reach start (record s {
        queue = (pop s.queue).1;
        consumer = waiting;
        popped = with_popped s.popped (pop s.queue).0;
      })
  unfolding pop
  pop-Reach start s r e = elim (Bool-cases (looks_empty s.queue)) [
    | inr some_left ↦
        rw some_left (next (next (next r (pop_some e some_left)) (pop_take refl)) (pop_leave refl))
    | inl doubt ↦ elim (Bool-cases (looks_empty (reload_head s.queue))) [
      | inl still ↦ rw (doubt, still) (next (next r (pop_doubt e doubt)) (pop_refuse refl still))
      | inr some_left ↦
          rw (doubt, some_left)
            (next
              (next (next (next r (pop_doubt e doubt)) (pop_reload refl some_left)) (pop_take refl))
              (pop_leave refl))
    ]
  ]
