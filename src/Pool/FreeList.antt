-- ===== src/Pool/FreeList.antt =====
-- include/rtes/memory_pool.hpp: the free list of `MemoryPool` as a stack of slots.
use rtes.Prelude.{
  ℕ, zero, suc, ◌+◌, ◌≤◌, ◌<◌, ◌≡◌, refl, false, List, [], ◌∷◌, none, some, arith, ◌==◌,
  if◌then◌else◌, get_elem?, set, drop, sym, subst, length, contains, Distinct, length-set,
  get_elem?-set, All, length-le_of_below,
}
use rtes.Pool.{
  update_stats_allocate, Pool, pool_empty, pack, unpack, links, next_of, validate_capacity, init,
  allocate, deallocate,
}

-- The slots that one meets from the head `h` on, in order.
abbrev pub Chain : List ℕ → ℕ → List ℕ → Type 0
Chain links h [] = h ≡ pool_empty
Chain links h (i ∷ free) = (h ≡ i) × (i < length links) × Chain links (next_of links i) free

-- `free` is the free list of `p`, and the other slots are allocated.
pub record IsValid (p : Pool) (free : List ℕ) : Type 0 where
  pub small : p.capacity < pool_empty
  pub linked : length p.next ≡ p.capacity
  pub chain : Chain p.next (unpack p.head).0 free
  pub distinct : Distinct free
  pub counted : p.allocated + length free ≡ p.capacity
  pub peak : p.allocated ≤ p.high_water
  pub peak_in : p.high_water ≤ p.capacity

pub unpack-pack : (i g : ℕ) → i ≤ pool_empty → g < 4294967296 → unpack (pack i g) ≡ (i, g)
unfolding unpack pack
unpack-pack i g h k = ground arith

-- A write to a slot that is not on the list leaves the list as it is.
pub Chain-set :
    (links : List ℕ) (h i v : ℕ) (free : List ℕ)
    → contains i free ≡ false
    → Chain links h free
    → Chain (set links i v) h free
Chain-set links h i v [] d c = c
Chain-set links h i v (j ∷ free) d c = ground (
  arith,
  length-set links i v,
  get_elem?-set links i j v,
  Chain-set links (next_of links j) i v free,
)

pub Chain-le :
    (links : List ℕ) (h : ℕ) (free : List ℕ)
    → Chain links h free
    → length links ≤ pool_empty
    → h ≤ pool_empty
Chain-le links h [] c w = omega arith
Chain-le links h (i ∷ free) c w = omega arith

allocate_empty : (p : Pool) → IsValid p [] → allocate p ≡ (none, p)
unfolding allocate
allocate_empty p v = ground arith

allocate_cons :
    (p : Pool) (i : ℕ) (free : List ℕ)
    → IsValid p (i ∷ free)
    → ((allocate p).0 ≡ some i) × IsValid (allocate p).1 free
unfolding allocate
allocate_cons p i free v = ground (arith, Chain-le p.next (next_of p.next i) free)

pub Chain-below :
    (links : List ℕ) (h n : ℕ) (free : List ℕ)
    → Chain links h free
    → length links ≡ n
    → All (λ x. x < n) free
Chain-below links h n [] c e = tt
Chain-below links h n (i ∷ free) c e =
    (omega arith, Chain-below links (next_of links i) n free c.2 e)

-- While a slot is allocated, the count of allocated slots is positive.
allocated_pos :
    (p : Pool) (i : ℕ) (free : List ℕ)
    → IsValid p free
    → i < p.capacity
    → contains i free ≡ false
    → 0 < p.allocated
allocated_pos p i free v h d = omega (
  arith,
  length-le_of_below p.capacity (i ∷ free) (d, v.distinct)
      (h, Chain-below p.next (unpack p.head).0 p.capacity free v.chain v.linked),
)

-- `deallocate` of a slot of the pool that is not on the free list puts it at the front of the list.
pub deallocate-IsValid :
    (p : Pool) (i : ℕ) (free : List ℕ)
    → IsValid p free
    → i < p.capacity
    → contains i free ≡ false
    → IsValid (deallocate p i) (i ∷ free)
unfolding deallocate
deallocate-IsValid p i free v h d = ground (
  arith,
  Chain-le p.next (unpack p.head).0 free,
  Chain-set p.next (unpack p.head).0 i (unpack p.head).0 free,
  length-set p.next i (unpack p.head).0,
  get_elem?-set p.next i i (unpack p.head).0,
  allocated_pos p i free v h d,
)

-- `allocate` on a valid pool takes the first slot of the free list, and is null where the list is empty;
-- the pool stays valid.
pub allocate-IsValid :
    (p : Pool) (free : List ℕ)
    → IsValid p free
    → ((allocate p).0 ≡ get_elem? free 0) × IsValid (allocate p).1 (drop 1 free)
allocate-IsValid p [] v = rw (allocate_empty p v) (refl, v)
allocate-IsValid p (i ∷ free) v = allocate_cons p i free v

-- The slots `i`, `i + 1`, ... of a new pool.
abbrev pub upwards : ℕ → ℕ → List ℕ
upwards i zero = []
upwards i (suc n) = i ∷ upwards (i + 1) n

length-upwards : (i n : ℕ) → length (upwards i n) ≡ n
length-upwards i zero = refl
length-upwards i (suc n) = omega (arith, length-upwards (i + 1) n)

contains-upwards : (x i n : ℕ) → x < i → contains x (upwards i n) ≡ false
contains-upwards x i zero h = refl
contains-upwards x i (suc n) h = ground (arith, contains-upwards x (i + 1) n)

pub upwards-Distinct : (i n : ℕ) → Distinct (upwards i n)
upwards-Distinct i zero = tt
upwards-Distinct i (suc n) =
    (contains-upwards i (i + 1) n (omega arith), upwards-Distinct (i + 1) n)

pub length-links : (i n : ℕ) → length (links i n) ≡ n
unfolding links
length-links i zero = refl
length-links i (suc zero) = refl
length-links i (suc (suc n)) = omega (arith, length-links (i + 1) (suc n))

links_at :
    (i n k : ℕ) → k < n → next_of (links i n) k ≡ (if (k + 1) == n then pool_empty else i + k + 1)
unfolding links
links_at i zero k h = absurd (omega arith)
links_at i (suc zero) zero h = refl
links_at i (suc zero) (suc k) h = absurd (omega arith)
links_at i (suc (suc n)) zero h = ground arith
links_at i (suc (suc n)) (suc k) h = ground (arith, links_at (i + 1) (suc n) k)

first_links_at :
    (cap k : ℕ) → k < cap → next_of (links 0 cap) k ≡ (if (k + 1) == cap then pool_empty else k + 1)
first_links_at cap k h = ground (arith, links_at 0 cap k)

-- From the slot `i` of a new pool on, `n` slots are linked.
pub links-Chain :
    (cap i n : ℕ)
    → i + n ≡ cap
    → Chain (links 0 cap) (if i == cap then pool_empty else i) (upwards i n)
links-Chain cap i zero e = ground arith
links-Chain cap i (suc n) e = (
  ground arith,
  omega (arith, length-links 0 cap),
  subst (λ z. Chain (links 0 cap) z (upwards (i + 1) n)) (sym (first_links_at cap i (omega arith)))
      (links-Chain cap (i + 1) n (omega arith)),
)

-- A capacity from 1 to 4294967294 gives a valid pool in which every slot is free, in order.
pub init-IsValid :
    (cap : ℕ)
    → 0 < cap
    → cap < pool_empty
    → (p : Pool) × (init cap ≡ some p) × IsValid p (upwards 0 cap)
unfolding init validate_capacity pack unpack
init-IsValid cap h k =
    let start : (if 0 == cap then pool_empty else 0) ≡ 0 = ground arith in
    let linked : Chain (links 0 cap) 0 (upwards 0 cap) =
      subst (λ z. Chain (links 0 cap) z (upwards 0 cap)) start
        (links-Chain cap 0 cap (omega arith)) in
    let p : Pool = record {
      capacity = cap;
      next = links 0 cap;
      head = 0;
      allocated = 0;
      high_water = 0;
    } in
    (
      p,
      ground arith,
      record {
        small = k;
        linked = length-links 0 cap;
        chain = linked;
        distinct = upwards-Distinct 0 cap;
        counted = omega (arith, length-upwards 0 cap);
        peak = omega arith;
        peak_in = omega arith;
      },
    )

pub capacity-allocate : (p : Pool) → (allocate p).1.capacity ≡ p.capacity
unfolding allocate unpack update_stats_allocate
capacity-allocate p = ground arith

-- A slot that is taken and given back at once leaves the free list as it was.
pub deallocate-allocate :
    (p : Pool) (i : ℕ) (free : List ℕ)
    → IsValid p (i ∷ free)
    → IsValid (deallocate (allocate p).1 i) (i ∷ free)
deallocate-allocate p i free v =
    let taken : IsValid (allocate p).1 free = (allocate-IsValid p (i ∷ free) v).1 in
    deallocate-IsValid (allocate p).1 i free taken
      (omega (arith, capacity-allocate p, v.linked, v.chain.1)) v.distinct.0
