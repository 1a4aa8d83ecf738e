-- ===== src/Pool/Threads/Returns.antt =====
-- include/rtes/memory_pool.hpp: the start of `deallocate` and its successful compare-exchange keep the
-- invariant.
use rtes.Prelude.{
  ℕ, suc, ◌+◌, ◌<◌, ◌≡◌, ◌≢◌, inl, inr, refl, sym, ap, ◌∙◌, true, false, some, ◌∷◌, arith, ◌==◌,
  Bool-cases, contains, add32, u32_mod, subst, ==_refl,
}
use rtes.Mpmc.{write}
use rtes.Pool.{pool_empty, pack, unpack}
use rtes.Pool.FreeList.{Chain}
use rtes.Pool.Threads.{idle, freeing, linking, Threads}
use rtes.Pool.Threads.Invariant.{flying, Knows, Inv, write_all}
use rtes.Pool.Threads.Facts.{later-Knows, seen_now, new_head, write_self, flying_new}

module _ {cap n : ℕ} (small : cap < pool_empty) (room : n + 1 < u32_mod) where
  pub free_link-Inv :
      (s : Threads) (i slot old : ℕ) (v : Inv cap n s)
      → s.pc i ≡ linking slot old
      → s.head ≡ old
      → Inv cap
          (suc n)
          (record s { head = pack slot (add32 (unpack old).1 1); pc = write s.pc i idle })
  free_link-Inv s i slot old v e now =
      let word : unpack old ≡ (v.top, v.gen) = seen_now s v.head_is now in
      let at_top : (unpack old).0 ≡ v.top = ap (λ (p : ℕ × ℕ). p.0) word in
      let at_gen : (unpack old).1 ≡ v.gen = ap (λ (p : ℕ × ℕ). p.1) word in
      let knows : Knows s.next v.top v.gen (linking slot old) = rw e at (v.knows i) in
      let mine : flying (s.pc i) ≡ some slot = rw e refl in
      let (in_pool, off_list, not_held) = v.owned i slot mine in
      record {
        free = slot ∷ v.free;
        top = slot;
        gen = v.gen + 1;
        counted = omega (arith, v.counted);
        linked = v.linked;
        head_is = new_head slot v.gen (unpack old).1 (omega arith) at_gen (omega arith);
        chain = (
          refl,
          omega (arith, v.linked),
          subst (λ z. Chain s.next z v.free) (sym (knows.1 ∙ at_top)) v.chain,
        );
        distinct = (off_list, v.distinct);
        free_held = λ b on_list. elim (Bool-cases (slot == b)) [
          | inl e ↦ let same : slot ≡ b = ground arith in rw⁻¹ same not_held
          | inr other ↦ v.free_held b (rw other at on_list)
        ];
        held_inside = v.held_inside;
        knows =
            write_all (Knows s.next slot (v.gen + 1)) s.pc i idle
              (λ j. later-Knows s.next v.top slot v.gen (s.pc j) (v.knows j)) tt;
        owned = λ j b h. elim (flying_new s.pc i j b idle h) [
          | inl (_, none_there) ↦ absurd (ground arith)
          | inr (apart, there) ↦
              let other : slot ≢ b = λ same. v.alone i j b apart (rw same at mine) there in
              let (in_pool, off, free_of) = v.owned j b there in (in_pool, ground arith, free_of)
        ];
        alone = λ j k b d h g. elim (flying_new s.pc i j b idle h) [
          | inl (_, none_there) ↦ absurd (ground arith)
          | inr (_, at_j) ↦ elim (flying_new s.pc i k b idle g) [
            | inl (_, none_there) ↦ absurd (ground arith)
            | inr (_, at_k) ↦ v.alone j k b d at_j at_k
          ]
        ];
        kept = λ b h. elim (v.kept b h) [
          | inl on_list ↦ inl (ground arith)
          | inr (inl is_held) ↦ inr (inl is_held)
          | inr (inr (j, q)) ↦ elim (Bool-cases (i == j)) [
            | inl at_i ↦
                let same : i ≡ j = ground arith in
                let here : some slot ≡ some b = sym mine ∙ (rw same q) in inl (ground arith)
            | inr away ↦ inr (inr (j, rw away q))
          ]
        ];
      }

pub free_start-Inv :
    {cap n : ℕ} (s : Threads) (i slot : ℕ) (v : Inv cap n s)
    → s.pc i ≡ idle
    → s.held slot ≡ true
    → Inv cap
        (suc n)
        (record s { held = write s.held slot false; pc = write s.pc i (freeing slot s.head) })
free_start-Inv s i slot v e is_held =
    let p = freeing slot s.head in
    let off_list : contains slot v.free ≡ false = elim (Bool-cases (contains slot v.free)) [
      | inl on_list ↦ absurd (ground (arith, v.free_held slot on_list))
      | inr off ↦ off
    ] in
    let gone : (b : ℕ) → s.held b ≡ false → write s.held slot false b ≡ false =
      λ b h. ground arith in
    record {
      free = v.free;
      top = v.top;
      gen = v.gen;
      counted = omega (arith, v.counted);
      linked = v.linked;
      head_is = v.head_is;
      chain = v.chain;
      distinct = v.distinct;
      free_held = λ b on_list. gone b (v.free_held b on_list);
      held_inside = λ b h. elim (Bool-cases (slot == b)) [
        | inl at_b ↦ absurd (ground arith)
        | inr other ↦ v.held_inside b (rw other at h)
      ];
      knows =
          write_all (Knows s.next v.top v.gen) s.pc i p v.knows
            (rw (v.head_is) (omega arith, λ _. refl));
      owned = λ j b h. elim (flying_new s.pc i j b p h) [
        | inl (_, here) ↦
            let same : slot ≡ b = ground arith in
            rw⁻¹ same (v.held_inside slot is_held, off_list, write_self s.held slot slot false refl)
        | inr (_, there) ↦
            let (in_pool, off, free_of) = v.owned j b there in (in_pool, off, gone b free_of)
      ];
      alone = λ j k b d h g. elim (flying_new s.pc i j b p h) [
        | inl (at_j, here) ↦ elim (flying_new s.pc i k b p g) [
          | inl (at_k, _) ↦ d (sym at_j ∙ at_k)
          | inr (_, there) ↦
              let same : slot ≡ b = ground arith in
              ground (arith, rw same at is_held, (v.owned k b there).2)
        ]
        | inr (_, at_j) ↦ elim (flying_new s.pc i k b p g) [
          | inl (_, here) ↦
              let same : slot ≡ b = ground arith in
              ground (arith, rw same at is_held, (v.owned j b at_j).2)
          | inr (_, at_k) ↦ v.alone j k b d at_j at_k
        ]
      ];
      kept = λ b h. elim (v.kept b h) [
        | inl on_list ↦ inl on_list
        | inr (inl held_before) ↦ elim (Bool-cases (slot == b)) [
          | inl at_b ↦
              let same : slot ≡ b = ground arith in inr (inr (i, rw (==_refl i) (ap some same)))
          | inr other ↦ inr (inl (rw other held_before))
        ]
        | inr (inr (j, q)) ↦ elim (Bool-cases (i == j)) [
          | inl at_i ↦
              let same : i ≡ j = ground arith in
              let idle_there : s.pc j ≡ idle = rw same at e in
              absurd (ground (arith, rw idle_there at q))
          | inr away ↦ inr (inr (j, rw away q))
        ]
      ];
    }
