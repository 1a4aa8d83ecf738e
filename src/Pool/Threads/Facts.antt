-- ===== src/Pool/Threads/Facts.antt =====
-- include/rtes/memory_pool.hpp: what a move leaves of the links, the known heads and the held slots.
use rtes.Prelude.{
  ℕ, ◌+◌, ◌≤◌, ◌<◌, ◌≡◌, ◌≢◌, ◌⊎◌, inl, inr, sym, ap, ◌∙◌, Bool, true, false, some, List, [], ◌∷◌,
  arith, ◌==◌, Bool-cases, length, contains, set, get_elem?-set, add32, u32_mod,
}
use rtes.Mpmc.{write}
use rtes.Pool.{pool_empty, pack, unpack, next_of}
use rtes.Pool.FreeList.{Chain, unpack-pack}
use rtes.Pool.Threads.{Pc, idle, allocating, claiming, freeing, linking, Threads}
use rtes.Pool.Threads.Invariant.{flying, Knows}

pub Chain-contains :
    (links : List ℕ) (top : ℕ) (free : List ℕ)
    → Chain links top free
    → top ≢ pool_empty
    → contains top free ≡ true
Chain-contains links top [] c h = absurd (h c)
Chain-contains links top (x ∷ xs) c h = ground arith

pub next_of-set :
    (links : List ℕ) (slot v k : ℕ) → slot ≢ k → next_of (set links slot v) k ≡ next_of links k
next_of-set links slot v k h = ground (arith, get_elem?-set links slot k v)

pub next_of-set_self :
    (links : List ℕ) (slot v : ℕ) → slot < length links → next_of (set links slot v) slot ≡ v
next_of-set_self links slot v h = ground (arith, get_elem?-set links slot slot v)

-- After a successful exchange, what was known of the generation before still holds.
pub later-Knows :
    (links : List ℕ) (top top' gen : ℕ) (c : Pc)
    → Knows links top gen c
    → Knows links top' (gen + 1) c
later-Knows links top top' gen idle k = tt
later-Knows links top top' gen (allocating old) k = (omega arith, λ e. absurd (omega arith))
later-Knows links top top' gen (claiming old nx) k =
    ((omega arith, λ e. absurd (omega arith)), k.1, λ e. absurd (omega arith))
later-Knows links top top' gen (freeing slot old) k = (omega arith, λ e. absurd (omega arith))
later-Knows links top top' gen (linking slot old) k =
    ((omega arith, λ e. absurd (omega arith)), k.1)

-- A write to the link of a slot that is not on the free list and not the thread's.
pub set-Knows :
    (links : List ℕ) (top gen slot v : ℕ) (free : List ℕ) (c : Pc)
    → Chain links top free
    → contains slot free ≡ false
    → flying c ≢ some slot
    → Knows links top gen c
    → Knows (set links slot v) top gen c
set-Knows links top gen slot v free idle ch d f k = tt
set-Knows links top gen slot v free (allocating old) ch d f k = k
set-Knows links top gen slot v free (claiming old nx) ch d f (seen, some_left, at_gen) = (
  seen,
  some_left,
  λ e.
      let at_top : (unpack old).0 ≡ top = seen.1 e in
      let on_list : contains (unpack old).0 free ≡ true =
        Chain-contains links (unpack old).0 free (rw at_top ch) some_left in
      let other : slot ≢ (unpack old).0 = λ same. ground (arith, rw same at d) in
      at_gen e ∙ sym (next_of-set links slot v (unpack old).0 other),
)
set-Knows links top gen slot v free (freeing b old) ch d f k = k
set-Knows links top gen slot v free (linking b old) ch d f (seen, linked) =
    let other : slot ≢ b = λ same. f (ap some (sym same)) in
    (seen, next_of-set links slot v b other ∙ linked)

pub seen_now :
    (s : Threads) {top gen old : ℕ}
    → unpack s.head ≡ (top, gen)
    → s.head ≡ old
    → unpack old ≡ (top, gen)
seen_now s h e = rw e at h

pub Chain-cons :
    (links : List ℕ) (top : ℕ) (free : List ℕ)
    → Chain links top free
    → top ≢ pool_empty
    → (xs : List ℕ) × (free ≡ top ∷ xs) × (top < length links) × Chain links (next_of links top) xs
Chain-cons links top [] c h = absurd (h c)
Chain-cons links top (x ∷ xs) c h =
    let e : top ≡ x = c.0 in (xs, ap (λ (z : ℕ). z ∷ xs) (sym e), rw e c.1, rw e c.2)

-- The word that a successful exchange stores.
pub new_head :
    (index gen g : ℕ)
    → index ≤ pool_empty
    → g ≡ gen
    → gen + 1 < u32_mod
    → unpack (pack index (add32 g 1)) ≡ (index, gen + 1)
new_head index gen g small same room =
    let plus : add32 g 1 ≡ gen + 1 = omega arith in rw plus (unpack-pack index (gen + 1) small room)

pub write_held :
    (held : ℕ → Bool) (top b : ℕ) (value : Bool) → top ≢ b → write held top value b ≡ held b
write_held held top b value h = ground arith

pub write_self :
    (held : ℕ → Bool) (top b : ℕ) (value : Bool) → top ≡ b → write held top value b ≡ value
write_self held top b value h = ground arith

pub distinct_ne :
    (top b : ℕ) (xs : List ℕ) → contains top xs ≡ false → contains b xs ≡ true → top ≢ b
distinct_ne top b xs h k e = ground (arith, rw e at h)

pub flying_new :
    (pc : ℕ → Pc) (i j b : ℕ) (p : Pc)
    → flying (write pc i p j) ≡ some b
    → ((i ≡ j) × (flying p ≡ some b)) ⊎ ((i ≢ j) × (flying (pc j) ≡ some b))
flying_new pc i j b p h = elim (Bool-cases (i == j)) [
  | inl e ↦ inl (ground arith, rw e at h)
  | inr e ↦ inr (ground arith, rw e at h)
]
