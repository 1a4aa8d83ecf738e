-- ===== src/Queue/Threads.antt =====
-- include/rtes/spsc_queue.hpp: the producer's and the consumer's thread over one ring, interleaved in
-- any order, a shared access at a time; every load sees the last store. A thread's own index is no
-- shared access for it, nor is its cached copy of the other one.
use rtes.Prelude.{◌≡◌, true, false, List, [], ◌∷◌, ◌++◌}
use rtes.Queue.{
  SpscQueue, slot, is_full, looks_empty, store, advance_head, advance_tail, reload_tail,
  reload_head,
}

-- Where `push` of the element stands.
pub data Producer {ℓ} (T : Type ℓ) : Type ℓ where
  resting : Producer T
  reloading : T → Producer T  -- the cached tail says full
  storing : T → Producer T  -- the slot is the producer's
  advancing : T → Producer T  -- before the store of the head

-- Where `pop` stands.
pub data Consumer {ℓ} (T : Type ℓ) : Type ℓ where
  waiting : Consumer T
  looking : Consumer T  -- the cached head says empty
  taking : Consumer T  -- the slot is the consumer's
  leaving : T → Consumer T  -- before the store of the tail

-- `pushed` and `popped` are no part of the queue: they remember what the calls that returned true have
-- put in and taken out.
pub record Threads {ℓ} (T : Type ℓ) : Type ℓ where
  pub queue : SpscQueue T
  pub producer : Producer T
  pub consumer : Consumer T
  pub pushed : List T
  pub popped : List T

module _ {ℓ} {T : Type ℓ} where
  abbrev pub begin : SpscQueue T → Threads T
  begin q = record { queue = q; producer = resting; consumer = waiting; pushed = []; popped = [] }

  -- One move of one of the two threads.
  pub data Step (s : Threads T) : Threads T → Type ℓ where
    push_room :
        {x : T}
        → s.producer ≡ resting
        → is_full s.queue ≡ false
        → Step s (record s { producer = storing x })
    push_doubt :
        {x : T}
        → s.producer ≡ resting
        → is_full s.queue ≡ true
        → Step s (record s { producer = reloading x })
    push_reload :
        {x : T}
        → s.producer ≡ reloading x
        → is_full (reload_tail s.queue) ≡ false
        → Step s (record s { queue = reload_tail s.queue; producer = storing x })
    push_refuse :
        {x : T}
        → s.producer ≡ reloading x
        → is_full (reload_tail s.queue) ≡ true
        → Step s (record s { queue = reload_tail s.queue; producer = resting })
    push_store :
        {x : T}
        → s.producer ≡ storing x
        → Step s (record s { queue = store s.queue x; producer = advancing x })
    push_advance :
        {x : T}
        → s.producer ≡ advancing x
        → Step s (record s {
          queue = advance_head s.queue;
          producer = resting;
          pushed = s.pushed ++ (x ∷ []);
        })
    pop_some :
        s.consumer ≡ waiting → looks_empty s.queue ≡ false → Step s (record s { consumer = taking })
    pop_doubt :
        s.consumer ≡ waiting → looks_empty s.queue ≡ true → Step s (record s { consumer = looking })
    pop_reload :
        s.consumer ≡ looking
        → looks_empty (reload_head s.queue) ≡ false
        → Step s (record s { queue = reload_head s.queue; consumer = taking })
    pop_refuse :
        s.consumer ≡ looking
        → looks_empty (reload_head s.queue) ≡ true
        → Step s (record s { queue = reload_head s.queue; consumer = waiting })
    pop_take :
        s.consumer ≡ taking
        → Step s (record s { consumer = leaving (s.queue.buffer (slot s.queue s.queue.tail)) })
    pop_leave :
        {x : T}
        → s.consumer ≡ leaving x
        → Step s (record s {
          queue = advance_tail s.queue;
          consumer = waiting;
          popped = s.popped ++ (x ∷ []);
        })
    -- `consumer_empty` where the cached head says empty
    peek :
        s.consumer ≡ waiting
        → looks_empty s.queue ≡ true
        → Step s (record s { queue = reload_head s.queue })

  pub data Reach (start : Threads T) : Threads T → Type ℓ where
    here : Reach start start
    next : {s t : Threads T} → Reach start s → Step s t → Reach start t
