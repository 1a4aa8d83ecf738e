-- ===== src/Pool/Threads/Invariant.antt =====
-- include/rtes/memory_pool.hpp: what every reachable state of the threads of a pool has.
use rtes.Prelude.{
  ℕ, suc, ◌≤◌, ◌<◌, ◌≡◌, ◌≢◌, ◌⊎◌, inl, inr, refl, ◌∙◌, true, false, Option, none, some, List,
  arith, ◌==◌, Bool-cases, length, contains, Distinct,
}
use rtes.Mpmc.{write}
use rtes.Pool.{pool_empty, unpack, next_of}
use rtes.Pool.FreeList.{Chain}
use rtes.Pool.Threads.{Pc, idle, allocating, claiming, freeing, linking, Threads}

-- The slot that the thread has been given to free and that is not on the free list yet.
abbrev pub flying : Pc → Option ℕ
flying (freeing slot old) = some slot
flying (linking slot old) = some slot
flying _ = none

-- The head that a thread has loaded: no later generation than the current one, and where it is the
-- current one, the current head.
abbrev pub Seen : ℕ → ℕ → ℕ → Type 0
Seen top gen old = ((unpack old).1 ≤ gen) × ((unpack old).1 ≡ gen → (unpack old).0 ≡ top)

-- What a thread knows, whatever the others do. The link that it has read is the current one as long as
-- the generation is.
abbrev pub Knows : List ℕ → ℕ → ℕ → Pc → Type 0
Knows links top gen idle = Unit
Knows links top gen (allocating old) = Seen top gen old
Knows links top gen (claiming old next_index) =
    Seen top gen old
    × ((unpack old).0 ≢ pool_empty)
    × ((unpack old).1 ≡ gen → next_index ≡ next_of links (unpack old).0)
Knows links top gen (freeing slot old) = Seen top gen old
Knows links top gen (linking slot old) = Seen top gen old × (next_of links slot ≡ (unpack old).0)

-- A slot is on the free list, or held, or on its way back.
abbrev pub IsKept : Threads → List ℕ → ℕ → Type 0
IsKept s free b =
    (contains b free ≡ true) ⊎ ((s.held b ≡ true) ⊎ ((i : ℕ) × (flying (s.pc i) ≡ some b)))

pub record Inv (cap n : ℕ) (s : Threads) : Type 0 where
  pub free : List ℕ
  pub top : ℕ
  pub gen : ℕ
  pub counted : gen ≤ n
  pub linked : length s.next ≡ cap
  pub head_is : unpack s.head ≡ (top, gen)
  pub chain : Chain s.next top free
  pub distinct : Distinct free
  pub free_held : (b : ℕ) → contains b free ≡ true → s.held b ≡ false
  pub held_inside : (b : ℕ) → s.held b ≡ true → b < cap
  pub knows : (i : ℕ) → Knows s.next top gen (s.pc i)
  pub owned :
      (i b : ℕ)
      → flying (s.pc i) ≡ some b
      → (b < cap) × (contains b free ≡ false) × (s.held b ≡ false)
  pub alone : (i j b : ℕ) → i ≢ j → flying (s.pc i) ≡ some b → flying (s.pc j) ≢ some b
  pub kept : (b : ℕ) → b < cap → IsKept s free b

-- What holds for every thread and for the new place of the thread `i` holds after its move.
pub write_all :
    (P : Pc → Type 0) (pc : ℕ → Pc) (i : ℕ) (p : Pc)
    → ((j : ℕ) → P (pc j))
    → P p
    → (j : ℕ) → P (write pc i p j)
write_all P pc i p h k j = elim (Bool-cases (i == j)) [ inl e ↦ rw e k | inr e ↦ rw e (h j) ]

pub flying_same :
    (pc : ℕ → Pc) (i : ℕ) (p : Pc)
    → flying p ≡ flying (pc i)
    → (j : ℕ) → flying (write pc i p j) ≡ flying (pc j)
flying_same pc i p e j = elim (Bool-cases (i == j)) [
  | inl at_i ↦ let same : i ≡ j = ground arith in rw at_i (rw same at e)
  | inr other ↦ rw other refl
]

-- A move that leaves the free list, the held slots and the slots on their way back alone.
pub same-Inv :
    {cap n : ℕ} (s : Threads) (i : ℕ) (p : Pc) (links : List ℕ) (v : Inv cap n s)
    → flying p ≡ flying (s.pc i)
    → length links ≡ cap
    → Chain links v.top v.free
    → ((j : ℕ) → Knows links v.top v.gen (s.pc j))
    → Knows links v.top v.gen p
    → Inv cap (suc n) (record s { next = links; pc = write s.pc i p })
same-Inv s i p links v e len chain others mine =
    let same = flying_same s.pc i p e in
    record {
      free = v.free;
      top = v.top;
      gen = v.gen;
      counted = omega (arith, v.counted);
      linked = len;
      head_is = v.head_is;
      chain = chain;
      distinct = v.distinct;
      free_held = v.free_held;
      held_inside = v.held_inside;
      knows = write_all (Knows links v.top v.gen) s.pc i p others mine;
      owned = λ j b h. v.owned j b (rw (same j) at h);
      alone = λ j k b d h g. v.alone j k b d (rw (same j) at h) (rw (same k) at g);
      kept = λ b h. elim (v.kept b h) [
        | inl on_list ↦ inl on_list
        | inr (inl is_held) ↦ inr (inl is_held)
        | inr (inr (j, q)) ↦ inr (inr (j, same j ∙ q))
      ];
    }
