-- ===== src/Pool/Threads/Exclusive.antt =====
-- include/rtes/memory_pool.hpp: no slot is handed out twice, and none is lost, under any interleaving.
use rtes.Prelude.{
  ℕ, zero, suc, ◌+◌, ◌≤◌, ◌<◌, ◌≡◌, ◌≢◌, inl, inr, refl, sym, ap, ◌∙◌, true, false, some, List, [],
  ◌∷◌, arith, ◌==◌, if◌then◌else◌, Bool-cases, length, contains, Distinct, set, length-set, u32_mod,
  subst,
}
use rtes.Mpmc.{write}
use rtes.Pool.{Pool, pool_empty, pack, unpack, next_of, links, validate_capacity, init}
use rtes.Pool.FreeList.{Chain, Chain-set, upwards, upwards-Distinct, length-links, links-Chain}
use rtes.Pool.Threads.{
  Pc, idle, allocating, claiming, freeing, linking, Threads, begin, Step, alloc_start, alloc_empty,
  alloc_next, alloc_claim, alloc_lost, free_start, free_next, free_link, free_lost, Reach, here,
  next,
}
use rtes.Pool.Threads.Invariant.{flying, Seen, Knows, IsKept, Inv, same-Inv}
use rtes.Pool.Threads.Facts.{set-Knows, next_of-set_self, Chain-cons, Chain-contains, seen_now}
use rtes.Pool.Threads.Claims.{alloc_claim-Inv}
use rtes.Pool.Threads.Returns.{free_link-Inv, free_start-Inv}

Seen-now : {cap n : ℕ} (s : Threads) (v : Inv cap n s) → Seen v.top v.gen s.head
Seen-now s v = rw (v.head_is) (omega arith, λ _. refl)

-- The write of `deallocate` to the link of its slot.
free_next-Inv :
    {cap n : ℕ} (s : Threads) (i slot old : ℕ) (v : Inv cap n s)
    → s.pc i ≡ freeing slot old
    → Inv cap
        (suc n)
        (record s { next = set s.next slot (unpack old).0; pc = write s.pc i (linking slot old) })
free_next-Inv {cap} s i slot old v e =
    let mine : flying (s.pc i) ≡ some slot = rw e refl in
    let seen : Seen v.top v.gen old = rw e at (v.knows i) in
    let (in_pool, off_list, not_held) = v.owned i slot mine in
    let links : List ℕ = set s.next slot (unpack old).0 in
    let others : (j : ℕ) → Knows links v.top v.gen (s.pc j) = λ j. elim (Bool-cases (i == j)) [
      | inl at_i ↦
          let same : i ≡ j = ground arith in
          let there : s.pc j ≡ freeing slot old = rw same at e in rw there seen
      | inr away ↦
          set-Knows s.next v.top v.gen slot (unpack old).0 v.free (s.pc j) v.chain off_list
            (v.alone i j slot (ground arith) mine) (v.knows j)
    ] in
    same-Inv s i (linking slot old) links v (sym mine) (length-set s.next slot _ ∙ v.linked)
      (Chain-set s.next v.top slot (unpack old).0 v.free off_list v.chain) others
      (seen, next_of-set_self s.next slot (unpack old).0 (omega (arith, v.linked)))

module _ {cap : ℕ} (small : cap < pool_empty) where
  -- A move that writes nothing but the thread's own place.
  stay-Inv :
      {n : ℕ} (s : Threads) (i : ℕ) (p : Pc) (v : Inv cap n s)
      → flying p ≡ flying (s.pc i)
      → Knows s.next v.top v.gen p
      → Inv cap (suc n) (record s { pc = write s.pc i p })
  stay-Inv s i p v e k = same-Inv s i p s.next v e v.linked v.chain v.knows k

  Step-Inv : {n : ℕ} {s t : Threads} → n + 1 < u32_mod → Inv cap n s → Step s t → Inv cap (suc n) t
  Step-Inv {n} {s} room v (alloc_start i e) =
      stay-Inv s i (allocating s.head) v (rw e refl) (Seen-now s v)
  Step-Inv {n} {s} room v (alloc_empty i e h) = stay-Inv s i idle v (rw e refl) tt
  Step-Inv {n} {s} room v (alloc_next i {old} e h) =
      let seen : Seen v.top v.gen old = rw e at (v.knows i) in
      stay-Inv s i (claiming old (next_of s.next (unpack old).0)) v (rw e refl) (seen, h, λ _. refl)
  Step-Inv {n} {s} room v (alloc_claim i {old} {next_index = nx} e h) =
      alloc_claim-Inv small room s i old nx v e h
  Step-Inv {n} {s} room v (alloc_lost i e) =
      stay-Inv s i (allocating s.head) v (rw e refl) (Seen-now s v)
  Step-Inv {n} {s} room v (free_start i slot e h) = free_start-Inv s i slot v e h
  Step-Inv {n} {s} room v (free_next i {slot} {old} e) = free_next-Inv s i slot old v e
  Step-Inv {n} {s} room v (free_link i {slot} {old} e h) =
      free_link-Inv small room s i slot old v e h
  Step-Inv {n} {s} room v (free_lost i {slot} e) =
      stay-Inv s i (freeing slot s.head) v (rw e refl) (Seen-now s v)

contains-upwards_inside : (b i n : ℕ) → i ≤ b → b < i + n → contains b (upwards i n) ≡ true
contains-upwards_inside b i zero h k = absurd (omega arith)
contains-upwards_inside b i (suc n) h k = elim (Bool-cases (i == b)) [
  | inl e ↦ rw e refl
  | inr e ↦ rw e (contains-upwards_inside b (i + 1) n (ground arith) (omega arith))
]

abbrev new_pool : ℕ → Pool
new_pool cap = record {
  capacity = cap;
  next = links 0 cap;
  head = 0;
  allocated = 0;
  high_water = 0;
}

init_eq :
    (cap : ℕ) (p : Pool) → init cap ≡ some p → (0 < cap) × (cap < pool_empty) × (p ≡ new_pool cap)
unfolding init validate_capacity pack
init_eq cap p h = ground arith

begin-Inv : (cap : ℕ) → 0 < cap → Inv cap 0 (begin (new_pool cap))
unfolding unpack
begin-Inv cap h =
    let start : (if 0 == cap then pool_empty else 0) ≡ 0 = ground arith in
    record {
      free = upwards 0 cap;
      top = 0;
      gen = 0;
      counted = omega arith;
      linked = length-links 0 cap;
      head_is = refl;
      chain =
          subst (λ z. Chain (links 0 cap) z (upwards 0 cap)) start
            (links-Chain cap 0 cap (omega arith));
      distinct = upwards-Distinct 0 cap;
      free_held = λ b on_list. refl;
      held_inside = λ b h. absurd (ground arith);
      knows = λ i. tt;
      owned = λ i b h. absurd (ground arith);
      alone = λ i j b d h. absurd (ground arith);
      kept = λ b h. inl (contains-upwards_inside b 0 cap (omega arith) (omega arith));
    }

Reach-Inv :
    (cap : ℕ)
    → 0 < cap
    → cap < pool_empty
    → {n : ℕ} {s : Threads} → Reach (begin (new_pool cap)) n s
    → n < u32_mod
    → Inv cap n s
Reach-Inv cap h small here room = begin-Inv cap h
Reach-Inv cap h small (next r st) room =
    Step-Inv small (omega arith) (Reach-Inv cap h small r (omega arith)) st

new-Inv :
    (cap : ℕ) (p : Pool)
    → init cap ≡ some p
    → {n : ℕ} {s : Threads} → Reach (begin p) n s
    → n < u32_mod
    → (cap < pool_empty) × Inv cap n s
new-Inv cap p made {n} {s} r room =
    let (some_slot, small, q) = init_eq cap p made in
    let r' : Reach (begin (new_pool cap)) n s = subst (λ z. Reach (begin z) n s) q r in
    (small, Reach-Inv cap some_slot small r' room)

empty_test :
    (links : List ℕ) (top : ℕ) (free : List ℕ)
    → Chain links top free
    → length links < pool_empty
    → (top == pool_empty) ≡ (length free == 0)
empty_test links top [] c h = rw c refl
empty_test links top (x ∷ xs) c h = ground arith

-- From a new pool, at any interleaving of any threads in fewer than 2 ^ 32 accesses, where `deallocate`
-- is only given slots that are held: a thread whose exchange in `allocate` succeeds now takes a slot of
-- the pool that is not held and on no thread's way back.
pub Reach-exclusive :
    (cap : ℕ) (p : Pool)
    → init cap ≡ some p
    → {n : ℕ} {s : Threads} → Reach (begin p) n s
    → n < u32_mod
    → (i old next_index : ℕ) → s.pc i ≡ claiming old next_index
    → s.head ≡ old
    → ((unpack old).0 < cap)
      × (s.held (unpack old).0 ≡ false)
      × ((j : ℕ) → flying (s.pc j) ≢ some (unpack old).0)
Reach-exclusive cap p made {n} {s} r room i old next_index e now =
    let (small, v) = new-Inv cap p made r room in
    let at_top : (unpack old).0 ≡ v.top = ap (λ (p : ℕ × ℕ). p.0) (seen_now s v.head_is now) in
    let knows : Knows s.next v.top v.gen (claiming old next_index) = rw e at (v.knows i) in
    let some_left : v.top ≢ pool_empty = rw at_top at (knows.1) in
    let on_list : contains v.top v.free ≡ true =
      Chain-contains s.next v.top v.free v.chain some_left in
    let (xs, split, inside, chain) = Chain-cons s.next v.top v.free v.chain some_left in
    rw at_top (
      omega (arith, v.linked),
      v.free_held v.top on_list,
      λ j h. let (in_pool, off, free_of) = v.owned j v.top h in ground arith,
    )

-- In the same states the links from the head lead through distinct slots to the end mark, and each slot
-- of the pool is one of these, or held, or on the way back of a thread; no slot is two of the three. The
-- head is the end mark, for which `allocate` answers with the null pointer, exactly where there are no
-- such slots.
pub Reach-IsKept :
    (cap : ℕ) (p : Pool)
    → init cap ≡ some p
    → {n : ℕ} {s : Threads} → Reach (begin p) n s
    → n < u32_mod
    → (free : List ℕ) × Chain s.next (unpack s.head).0 free
      × Distinct free
      × ((b : ℕ) → b < cap → IsKept s free b)
      × ((b : ℕ) → contains b free ≡ true → s.held b ≡ false)
      × ((i b : ℕ) → flying (s.pc i) ≡ some b → (contains b free ≡ false) × (s.held b ≡ false))
      × (((unpack s.head).0 == pool_empty) ≡ (length free == 0))
Reach-IsKept cap p made {n} {s} r room =
    let (small, v) = new-Inv cap p made r room in
    let at_top : (unpack s.head).0 ≡ v.top = ap (λ (p : ℕ × ℕ). p.0) v.head_is in
    (
      v.free,
      rw at_top v.chain,
      v.distinct,
      v.kept,
      v.free_held,
      λ i b h. let (in_pool, off, free_of) = v.owned i b h in (off, free_of),
      rw at_top (empty_test s.next v.top v.free v.chain (omega (arith, v.linked))),
    )
