-- ===== src/Queue.antt =====
-- include/rtes/spsc_queue.hpp, `SPSCQueue<T>`: the bounded ring between one producer and one consumer.
-- Here each call is one step; Threads interleaves them. The indices are words that wrap around; `empty`,
-- `size` and the prefetch have no model of their own.
pub mod Indices
pub mod Ring
pub mod Threads
pub mod Interleaved
pub mod Alone
use rtes.Prelude.{
  ℕ, ◌+◌, ◌%◌, ◌/◌, Bool, true, false, Option, none, some, leb, ◌==◌, if◌then◌else◌, not, add64,
  sub64, u64_mod, zero,
}
use Prim.Native.Nat.{bit_or}

-- `round_up_pow2`: smear the highest bit of `v - 1` down, and add 1.
abbrev smear : ℕ → ℕ → ℕ
smear shift v = bit_or v (v / shift)

unfoldable pub round_up_pow2 : ℕ → ℕ
round_up_pow2 v =
    if v == 0
    then 1
    else add64
        (smear 4294967296 (smear 65536 (smear 256 (smear 16 (smear 4 (smear 2 (sub64 v 1))))))) 1

pub record SpscQueue {ℓ} (T : Type ℓ) : Type ℓ where
  pub capacity : ℕ
  pub buffer : ℕ → T
  pub head : ℕ
  pub cached_tail : ℕ
  pub tail : ℕ
  pub cached_head : ℕ

module _ {ℓ} {T : Type ℓ} where
  -- The constructor: the memory is zeroed, and `blank` is what a zeroed slot reads as.
  unfoldable pub make_queue : ℕ → T → SpscQueue T
  unfolding round_up_pow2
  make_queue min_capacity blank = record {
    capacity = round_up_pow2 min_capacity;
    buffer = λ _. blank;
    head = 0;
    cached_tail = 0;
    tail = 0;
    cached_head = 0;
  }

  -- `i & mask_`, the capacity being a power of 2
  abbrev pub slot : SpscQueue T → ℕ → ℕ
  slot q i = i % q.capacity

  abbrev pub is_full : SpscQueue T → Bool
  is_full q = leb q.capacity (sub64 q.head q.cached_tail)

  -- The write of `push` to its slot.
  abbrev pub store : SpscQueue T → T → SpscQueue T
  store q item = record q { buffer = λ i. if slot q q.head == i then item else q.buffer i }

  abbrev pub advance_head : SpscQueue T → SpscQueue T
  advance_head q = record q { head = add64 q.head 1 }

  abbrev pub advance_tail : SpscQueue T → SpscQueue T
  advance_tail q = record q { tail = add64 q.tail 1 }

  abbrev pub reload_tail : SpscQueue T → SpscQueue T
  reload_tail q = record q { cached_tail = q.tail }

  abbrev pub reload_head : SpscQueue T → SpscQueue T
  reload_head q = record q { cached_head = q.head }

  abbrev pub looks_empty : SpscQueue T → Bool
  looks_empty q = q.tail == q.cached_head

  abbrev pub publish : SpscQueue T → T → SpscQueue T
  publish q item = advance_head (store q item)

  -- `push`: the tail is read again where the cached one says full.
  unfoldable pub push : SpscQueue T → T → Bool × SpscQueue T
  push q item =
      let r = reload_tail q in
      if is_full q
      then if is_full r then (false, r) else (true, publish r item)
      else (true, publish q item)

  abbrev pub take_front : SpscQueue T → Option T × SpscQueue T
  take_front q = (some (q.buffer (slot q q.tail)), advance_tail q)

  -- `pop`: the head is read again where the cached one says empty.
  unfoldable pub pop : SpscQueue T → Option T × SpscQueue T
  pop q =
      let r = reload_head q in
      if looks_empty q then if looks_empty r then (none, r) else take_front r else take_front q

  -- `consumer_empty`
  unfoldable pub consumer_empty : SpscQueue T → Bool × SpscQueue T
  consumer_empty q =
      if not (looks_empty q) then (false, q) else (looks_empty (reload_head q), reload_head q)
