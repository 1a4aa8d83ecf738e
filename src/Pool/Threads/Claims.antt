-- ===== src/Pool/Threads/Claims.antt =====
-- include/rtes/memory_pool.hpp: the successful compare-exchange of `allocate` keeps the invariant.
use rtes.Prelude.{
  ℕ, suc, ◌+◌, ◌≤◌, ◌<◌, ◌≡◌, ◌≢◌, inl, inr, refl, sym, ap, ◌∙◌, true, false, none, List, ◌∷◌,
  arith, ◌==◌, Bool-cases, contains, Distinct, add32, u32_mod,
}
use rtes.Mpmc.{write}
use rtes.Pool.{pool_empty, pack, unpack, next_of}
use rtes.Pool.FreeList.{Chain, Chain-le}
use rtes.Pool.Threads.{idle, claiming, Threads}
use rtes.Pool.Threads.Invariant.{flying, Knows, IsKept, Inv, write_all, flying_same}
use rtes.Pool.Threads.Facts.{Chain-cons, later-Knows, seen_now, new_head, write_held, distinct_ne}

-- A slot that is on none of the threads' way back, nor on the free list after its first slot.
alloc-IsKept :
    (s : Threads) (i top b : ℕ) (xs : List ℕ)
    → ((j : ℕ) → flying (write s.pc i idle j) ≡ flying (s.pc j))
    → IsKept s (top ∷ xs) b
    → (links : List ℕ) (h : ℕ)
    → IsKept
        (record { next = links; head = h; held = write s.held top true; pc = write s.pc i idle })
        xs
        b
alloc-IsKept s i top b xs same k links h = elim (Bool-cases (top == b)) [
  | inl e ↦ inr (inl (ground arith))
  | inr other ↦ elim k [
    | inl on_list ↦ inl (rw other at on_list)
    | inr (inl is_held) ↦ inr (inl (rw other is_held))
    | inr (inr (j, q)) ↦ inr (inr (j, same j ∙ q))
  ]
]

module _ {cap n : ℕ} (small : cap < pool_empty) (room : n + 1 < u32_mod) where
  alloc_at_top :
      (s : Threads) (i h : ℕ) (v : Inv cap n s) (xs : List ℕ)
      → v.free ≡ v.top ∷ xs
      → Chain s.next (next_of s.next v.top) xs
      → flying (s.pc i) ≡ none
      → unpack h ≡ (next_of s.next v.top, v.gen + 1)
      → v.top < cap
      → Inv cap
          (suc n)
          (record s { head = h; held = write s.held v.top true; pc = write s.pc i idle })
  alloc_at_top s i h v xs at_top chain e word inside =
      let same = flying_same s.pc i idle (sym e) in
      let apart : Distinct (v.top ∷ xs) = rw at_top at v.distinct in
      record {
        free = xs;
        top = next_of s.next v.top;
        gen = v.gen + 1;
        counted = omega (arith, v.counted);
        linked = v.linked;
        head_is = word;
        chain = chain;
        distinct = apart.1;
        free_held = λ b on_list.
            let other : v.top ≢ b = distinct_ne v.top b xs apart.0 on_list in
            let before : contains b v.free ≡ true = rw at_top (ground arith) in
            write_held s.held v.top b true other ∙ v.free_held b before;
        held_inside = λ b h. elim (Bool-cases (v.top == b)) [
          | inl e ↦ ground arith
          | inr other ↦ v.held_inside b (rw other at h)
        ];
        knows =
            write_all (Knows s.next (next_of s.next v.top) (v.gen + 1)) s.pc i idle
              (λ j. later-Knows s.next v.top (next_of s.next v.top) v.gen (s.pc j) (v.knows j)) tt;
        owned = λ j b h.
            let (in_pool, off_list, not_held) = v.owned j b (rw (same j) at h) in
            let off : contains b (v.top ∷ xs) ≡ false = rw at_top at off_list in
            let other : v.top ≢ b = ground arith in
            (in_pool, ground arith, write_held s.held v.top b true other ∙ not_held);
        alone = λ j k b d h g. v.alone j k b d (rw (same j) at h) (rw (same k) at g);
        kept = λ b in_pool.
            alloc-IsKept s i v.top b xs same (rw at_top at (v.kept b in_pool)) s.next h;
      }

  pub alloc_claim-Inv :
      (s : Threads) (i old next_index : ℕ) (v : Inv cap n s)
      → s.pc i ≡ claiming old next_index
      → s.head ≡ old
      → Inv cap (suc n) (record s {
        head = pack next_index (add32 (unpack old).1 1);
        held = write s.held (unpack old).0 true;
        pc = write s.pc i idle;
      })
  alloc_claim-Inv s i old next_index v e now =
      let word : unpack old ≡ (v.top, v.gen) = seen_now s v.head_is now in
      let at_top : (unpack old).0 ≡ v.top = ap (λ (p : ℕ × ℕ). p.0) word in
      let at_gen : (unpack old).1 ≡ v.gen = ap (λ (p : ℕ × ℕ). p.1) word in
      let knows : Knows s.next v.top v.gen (claiming old next_index) = rw e at (v.knows i) in
      let some_left : v.top ≢ pool_empty = rw at_top at (knows.1) in
      let link : next_index ≡ next_of s.next v.top = rw at_top at (knows.2 at_gen) in
      let (xs, split, inside, chain) = Chain-cons s.next v.top v.free v.chain some_left in
      let fits : next_of s.next v.top ≤ pool_empty =
        Chain-le s.next (next_of s.next v.top) xs chain (omega (arith, v.linked)) in
      let stored : unpack (pack next_index (add32 (unpack old).1 1))
          ≡ (next_of s.next v.top, v.gen + 1) =
        rw link (new_head (next_of s.next v.top) v.gen (unpack old).1 fits at_gen (omega arith)) in
      rw at_top (alloc_at_top s i _ v xs split chain (rw e refl) stored (omega (arith, v.linked)))
