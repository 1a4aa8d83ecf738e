-- ===== src/Mpmc/Moves.antt =====
-- include/rtes/mpmc_queue.hpp: each move of one thread keeps the cells and positions sound.
use rtes.Prelude.{ℕ, suc, ◌+◌, ◌^◌, ◌<◌, ◌≡◌, ◌≢◌, ◌⊎◌, inl, inr, refl, some, arith, add64}
use rtes.Mpmc.{
  MpmcQueue, Pc, Move, push_start, push_free, push_full, push_reload, push_claim, push_lost,
  push_write, push_publish, pop_start, pop_full, pop_empty, pop_reload, pop_claim, pop_lost,
  pop_read, pop_recycle,
}
use rtes.Mpmc.Invariant.{writes, reads, Fine, Sound, cell_next, cell_again}
use rtes.Mpmc.Others.{claim_push_keeps, write_keeps, publish_keeps, claim_pop_keeps, recycle_keeps}

module _ {T : Type 0} {k : ℕ} {q : MpmcQueue T} (sound : Sound k q)
    (room : k + q.capacity < 2 ^ 63) where
  later : Sound (suc k) q
  later = record {
    several = sound.several;
    claimed = omega (arith, sound.claimed);
    ordered = sound.ordered;
    bounded = sound.bounded;
    full = sound.full;
    free = sound.free;
  }

  pub Move-Sound : {c c' : Pc T} {q' : MpmcQueue T} → Move q c q' c' → Fine q c → Sound (suc k) q'
  Move-Sound (push_claim {x} {p} g) f = record {
    several = sound.several;
    claimed = ground (arith, sound.claimed);
    ordered = ground (arith, sound.claimed, sound.ordered);
    bounded = ground (arith, sound.claimed, sound.free p);
    full = λ r e. ground (arith, sound.full r, sound.claimed);
    free = sound.free;
  }
  Move-Sound (push_write {x} {p}) f = record {
    several = sound.several;
    claimed = omega (arith, sound.claimed);
    ordered = sound.ordered;
    bounded = sound.bounded;
    full = λ r e. ground (arith, sound.full r, cell_next q.capacity r sound.several);
    free = sound.free;
  }
  Move-Sound (push_publish {x} {p}) f = record {
    several = sound.several;
    claimed = omega (arith, sound.claimed);
    ordered = sound.ordered;
    bounded = sound.bounded;
    full = λ r e. ground (arith, sound.full r, sound.claimed);
    free = λ r e. ground (arith, sound.free r, sound.claimed, cell_next q.capacity p sound.several);
  }
  Move-Sound (pop_claim {p} g) f = record {
    several = sound.several;
    claimed = omega (arith, sound.claimed);
    ordered = ground (arith, sound.full p, sound.claimed);
    bounded = ground (arith, sound.bounded, sound.ordered, sound.claimed);
    full = sound.full;
    free = λ r e. ground (arith, sound.free r e, sound.ordered, sound.claimed);
  }
  Move-Sound (pop_recycle {p}) f = record {
    several = sound.several;
    claimed = omega (arith, sound.claimed);
    ordered = sound.ordered;
    bounded = sound.bounded;
    full = λ r e. ground (
      arith,
      sound.full r,
      sound.claimed,
      sound.ordered,
      cell_next q.capacity r sound.several,
      cell_again q.capacity p sound.several,
    );
    free = λ r e. ground (arith, sound.free r, sound.claimed, sound.ordered);
  }
  Move-Sound push_start f = later
  Move-Sound (push_free g) f = later
  Move-Sound (push_full g h) f = later
  Move-Sound (push_reload g h) f = later
  Move-Sound push_lost f = later
  Move-Sound pop_start f = later
  Move-Sound (pop_full g) f = later
  Move-Sound (pop_empty g h) f = later
  Move-Sound (pop_reload g h) f = later
  Move-Sound pop_lost f = later
  Move-Sound pop_read f = later

  pub Move-Fine : {c c' : Pc T} {q' : MpmcQueue T} → Move q c q' c' → Fine q c → Fine q' c'
  Move-Fine push_start f = tt
  Move-Fine (push_free g) f = λ _. g
  Move-Fine (push_full g h) f = tt
  Move-Fine (push_reload g h) f = tt
  Move-Fine (push_claim g) f = ground (arith, sound.claimed)
  Move-Fine push_lost f = tt
  Move-Fine push_write f = ground arith
  Move-Fine push_publish f = tt
  Move-Fine pop_start f = omega arith
  Move-Fine (pop_full g) f = ground (arith, sound.claimed, sound.ordered)
  Move-Fine (pop_empty g h) f = tt
  Move-Fine (pop_reload g h) f = omega arith
  Move-Fine (pop_claim g) f = ground (arith, sound.claimed, sound.ordered)
  Move-Fine pop_lost f = omega arith
  Move-Fine (pop_read {p}) f = ground (arith, sound.full p)
  Move-Fine pop_recycle f = tt

  pub Move-others :
      {c c' : Pc T} {q' : MpmcQueue T}
      → Move q c q' c'
      → Fine q c
      → (d : Pc T) → ((r : ℕ) → writes c ≡ some r → writes d ≢ some r)
      → ((r : ℕ) → reads c ≡ some r → reads d ≢ some r)
      → Fine q d
      → Fine q' d
  Move-others (push_claim {x} {p} g) f d w v h =
      claim_push_keeps q sound p x (add64 p 1) (omega (arith, sound.claimed)) g d h
  Move-others (push_write {x} {p}) f d w v h = write_keeps q sound p x d f.1 (w p refl) h
  Move-others (push_publish {x} {p}) f d w v h =
      publish_keeps q sound p (add64 p 1) d (ground (arith, sound.claimed)) f.1 f.0 (w p refl) h
  Move-others (pop_claim {p} g) f d w v h =
      claim_pop_keeps q sound p (add64 p 1) d (omega (arith, sound.claimed, sound.ordered)) g h
  Move-others (pop_recycle {p}) f d w v h =
      recycle_keeps q sound p (add64 p q.capacity) d (ground (arith, sound.claimed, sound.ordered))
        f.1 f.0 (v p refl) h
  Move-others push_start f d w v h = h
  Move-others (push_free g) f d w v h = h
  Move-others (push_full g e) f d w v h = h
  Move-others (push_reload g e) f d w v h = h
  Move-others push_lost f d w v h = h
  Move-others pop_start f d w v h = h
  Move-others (pop_full g) f d w v h = h
  Move-others (pop_empty g e) f d w v h = h
  Move-others (pop_reload g e) f d w v h = h
  Move-others pop_lost f d w v h = h
  Move-others pop_read f d w v h = h

  -- A position that is owned after a move was owned before it, or is claimed by it.
  pub Move-writes :
      {c c' : Pc T} {q' : MpmcQueue T} (r : ℕ)
      → Move q c q' c'
      → writes c' ≡ some r
      → (writes c ≡ some r) ⊎ (q.enqueue_pos ≡ r)
  Move-writes r (push_claim g) e = inr (ground arith)
  Move-writes r push_write e = inl e
  Move-writes r mv e = ground arith

  pub Move-reads :
      {c c' : Pc T} {q' : MpmcQueue T} (r : ℕ)
      → Move q c q' c'
      → reads c' ≡ some r
      → (reads c ≡ some r) ⊎ (q.dequeue_pos ≡ r)
  Move-reads r (pop_claim g) e = inr (ground arith)
  Move-reads r pop_read e = inl e
  Move-reads r mv e = ground arith
