-- ===== src/Mpmc/System.antt =====
-- include/rtes/mpmc_queue.hpp: any number of threads over one queue, interleaved in any order.
use rtes.Prelude.{ℕ, zero, suc}
use rtes.Mpmc.{MpmcQueue, Pc, idle, Move, write}

pub record System (T : Type 0) : Type 0 where
  pub queue : MpmcQueue T
  pub pc : ℕ → Pc T

pub data Step {T : Type 0} (s : System T) : System T → Type 0 where
  pick :
      (i : ℕ) {q : MpmcQueue T} {p : Pc T}
      → Move s.queue (s.pc i) q p
      → Step s (record { queue = q; pc = write s.pc i p })

abbrev pub init : {T : Type 0} → MpmcQueue T → System T
init q = record { queue = q; pc = λ _. idle }

-- The states that `n` steps lead to.
pub data Reach {T : Type 0} (start : System T) : ℕ → System T → Type 0 where
  here : Reach start zero start
  next : {n : ℕ} {s t : System T} → Reach start n s → Step s t → Reach start (suc n) t
