-- ===== src/Mpmc/Safety.antt =====
-- include/rtes/mpmc_queue.hpp: no two threads have one cell, and what is popped is what was pushed.
use rtes.Prelude.{
  ℕ, suc, ◌+◌, ◌^◌, ◌≤◌, ◌<◌, ◌≡◌, ◌≢◌, inl, inr, sym, ◌∙◌, Option, some, arith, ◌==◌, Bool-cases,
}
use rtes.Queue.{round_up_pow2}
use rtes.Mpmc.{MpmcQueue, make_queue, Pc, writing, publishing, Move, write}
use rtes.Mpmc.System.{System, Step, pick, init}
use rtes.Mpmc.Invariant.{writes, reads, Fine, Sound}
use rtes.Mpmc.Moves.{Move-Sound, Move-Fine, Move-others, Move-writes, Move-reads}

module _ {T : Type 0} where
  writes_below :
      (q : MpmcQueue T) (c : Pc T) (r : ℕ) → Fine q c → writes c ≡ some r → r < q.enqueue_pos
  writes_below q (writing x p) r f e = ground arith
  writes_below q (publishing x p) r f e = ground arith
  writes_below q c r f e = ground arith

  reads_below :
      (q : MpmcQueue T) (c : Pc T) (r : ℕ) → Fine q c → reads c ≡ some r → r < q.dequeue_pos
  reads_below q c r f e = ground arith

  pub record Inv (k : ℕ) (s : System T) : Type 0 where
    pub sound : Sound k s.queue
    pub fine : (i : ℕ) → Fine s.queue (s.pc i)
    pub one_writer : (i j r : ℕ) → i ≢ j → writes (s.pc i) ≡ some r → writes (s.pc j) ≢ some r
    pub one_reader : (i j r : ℕ) → i ≢ j → reads (s.pc i) ≡ some r → reads (s.pc j) ≢ some r

  -- Distinct threads own distinct positions.
  abbrev OneOwner : (Pc T → Option ℕ) → (ℕ → Pc T) → Type 0
  OneOwner owns pc = (i j r : ℕ) → i ≢ j → owns (pc i) ≡ some r → owns (pc j) ≢ some r

  write_elim {κ} :
      (P : Pc T → Type κ) (pc : ℕ → Pc T) (i : ℕ) (c : Pc T) (j : ℕ)
      → (i ≡ j → P c)
      → (i ≢ j → P (pc j))
      → P (write pc i c j)
  write_elim P pc i c j same other = elim (Bool-cases (i == j)) [
    | inl e ↦ rw e (same (ground arith))
    | inr e ↦ rw e (other (ground arith))
  ]

  write-OneOwner :
      (owns : Pc T → Option ℕ) (pc : ℕ → Pc T) (i : ℕ) (c : Pc T)
      → ((j r : ℕ) → i ≢ j → owns c ≡ some r → owns (pc j) ≢ some r)
      → OneOwner owns pc
      → OneOwner owns (write pc i c)
  write-OneOwner owns pc i c new old j l r n =
      write_elim (λ d. owns d ≡ some r → owns (write pc i c l) ≢ some r) pc i c j
        (λ g e.
          write_elim (λ d. owns d ≢ some r) pc i c l (λ h. absurd (n (sym g ∙ h)))
            (λ h. new l r h e))
        (λ g e.
          write_elim (λ d. owns d ≢ some r) pc i c l (λ h w. new j r g w e) (λ h. old j l r n e))

  module _ {k : ℕ} {s : System T} (v : Inv k s) (room : k + s.queue.capacity < 2 ^ 63) (i : ℕ) where
    new_writer :
        {q : MpmcQueue T} {c : Pc T}
        → Move s.queue (s.pc i) q c
        → (j r : ℕ) → i ≢ j
        → writes c ≡ some r
        → writes (s.pc j) ≢ some r
    new_writer mv j r n e w = elim (Move-writes v.sound room r mv e) [
      | inl h ↦ v.one_writer i j r n h w
      | inr h ↦ omega (arith, writes_below s.queue (s.pc j) r (v.fine j) w)
    ]

    new_reader :
        {q : MpmcQueue T} {c : Pc T}
        → Move s.queue (s.pc i) q c
        → (j r : ℕ) → i ≢ j
        → reads c ≡ some r
        → reads (s.pc j) ≢ some r
    new_reader mv j r n e w = elim (Move-reads v.sound room r mv e) [
      | inl h ↦ v.one_reader i j r n h w
      | inr h ↦ omega (arith, reads_below s.queue (s.pc j) r (v.fine j) w)
    ]

  pub Step-Inv :
      {k : ℕ} {s t : System T} → k + s.queue.capacity < 2 ^ 63 → Inv k s → Step s t → Inv (suc k) t
  Step-Inv {k} {s} {t} room v (pick i {q} {p = c} mv) = record {
    sound = Move-Sound v.sound room mv (v.fine i);
    fine = λ j.
        write_elim (Fine q) s.pc i c j (λ _. Move-Fine v.sound room mv (v.fine i))
          (λ n.
            Move-others v.sound room mv (v.fine i) (s.pc j) (λ r. v.one_writer i j r n)
              (λ r. v.one_reader i j r n) (v.fine j));
    one_writer = write-OneOwner writes s.pc i c (new_writer v room i mv) v.one_writer;
    one_reader = write-OneOwner reads s.pc i c (new_reader v room i mv) v.one_reader;
  }

  pub init-Inv :
      (min_capacity : ℕ) (blank : T)
      → 2 ≤ round_up_pow2 min_capacity
      → Inv 0 (init (make_queue min_capacity blank))
  unfolding make_queue
  init-Inv min_capacity blank h = record {
    sound = record {
      several = h;
      claimed = omega arith;
      ordered = omega arith;
      bounded = omega arith;
      full = λ p e. absurd (grind arith);
      free = λ p e. grind arith;
    };
    fine = λ i. tt;
    one_writer = λ i j r n e. ground arith;
    one_reader = λ i j r n e. ground arith;
  }
