-- ===== src/Pool.antt =====
-- include/rtes/memory_pool.hpp, `MemoryPool<T>` as a release build has it (NDEBUG, no ownership
-- array). A pointer is the index of its slot; what the slots hold is kept by the pool's clients.
pub mod FreeList
pub mod Threads
use rtes.Prelude.{
  ℕ, suc, ◌+◌, ◌-◌, ◌*◌, ◌/◌, ◌%◌, ◌^◌, Bool, true, false, List, [], ◌∷◌, Option, none, some, ltb,
  leb, ◌==◌, if◌then◌else◌, get_elem?, set, add32, add64, sub64, u32_mod, zero,
}

-- `POOL_EMPTY`, `UINT32_MAX`: the end of the free list.
abbrev pub pool_empty : ℕ
pool_empty = 4294967295

-- The head of the free list: the index in the low half, its generation in the high half.
unfoldable pub pack : ℕ → ℕ → ℕ
pack index gen = gen * u32_mod + index

unfoldable pub unpack : ℕ → ℕ × ℕ
unpack packed = (packed % u32_mod, packed / u32_mod)

pub record Pool : Type 0 where
  pub capacity : ℕ
  pub next : List ℕ
  pub head : ℕ
  pub allocated : ℕ
  pub high_water : ℕ

-- `next_[i] = i + 1` for the `n` slots from `i` on, and the end mark in the last one.
unfoldable pub links : ℕ → ℕ → List ℕ
links i zero = []
links i (suc zero) = pool_empty ∷ []
links i (suc (suc n)) = (i + 1) ∷ links (i + 1) (suc n)

-- `validate_capacity`: `none` is the exception.
unfoldable pub validate_capacity : ℕ → Option ℕ
validate_capacity cap = if cap == 0 then none else if leb pool_empty cap then none else some cap

unfoldable pub init : ℕ → Option Pool
unfolding links validate_capacity pack
init cap = elim (validate_capacity cap) [
  | none ↦ none
  | some c ↦
      some
        (record { capacity = c; next = links 0 c; head = pack 0 0; allocated = 0; high_water = 0 })
]

-- A read of `next_` past its end, which no valid pool makes, gives the end mark.
abbrev pub next_of : List ℕ → ℕ → ℕ
next_of links i = elim (get_elem? links i) [ none ↦ pool_empty | some n ↦ n ]

update_stats_allocate : Pool → Pool
update_stats_allocate p =
    let current = add64 p.allocated 1 in
    record p {
      allocated = current;
      high_water = if ltb p.high_water current then current else p.high_water;
    }

-- `allocate` when no other thread moves the head between its load and its exchange: the exchange
-- succeeds at once. `none` is the null pointer.
pub allocate : Pool → Option ℕ × Pool
unfolding pack unpack update_stats_allocate
allocate p =
    let (index, gen) = unpack p.head in
    if index == pool_empty then (none, p) else (
      some index,
      update_stats_allocate (record p { head = pack (next_of p.next index) (add32 gen 1) }),
    )

-- `deallocate` of a slot of the pool; a pointer outside of it is ignored.
unfoldable pub deallocate : Pool → ℕ → Pool
unfolding pack unpack
deallocate p index =
    let (head_index, gen) = unpack p.head in
    if leb p.capacity index then p else record p {
      next = set p.next index head_index;
      head = pack index (add32 gen 1);
      allocated = sub64 p.allocated 1;
    }

-- `available`
pub available : Pool → ℕ
available p = sub64 p.capacity p.allocated

-- `owns`
pub owns : Pool → ℕ → Bool
owns p index = ltb index p.capacity
