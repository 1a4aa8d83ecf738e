-- ===== src/Queue/Indices.antt =====
-- include/rtes/spsc_queue.hpp: what the indices, their cached copies and the slots of the ring say, and
-- what each write to them keeps.
use rtes.Prelude.{
  ℕ, suc, ◌+◌, ◌%◌, ◌≤◌, ◌<◌, ◌≡◌, ◌≢◌, refl, List, [], ◌∷◌, ◌++◌, arith, leb, ◌==◌, if◌then◌else◌,
  u64_mod, length, length-append, ◌∙◌,
}
use rtes.Queue.{
  SpscQueue, make_queue, slot, store, advance_head, advance_tail, reload_tail, reload_head,
  looks_empty, publish, is_full,
}

-- The elements that wait, from the slot of the index `i` on.
abbrev pub Holds {ℓ} : {T : Type ℓ} → ℕ → (ℕ → T) → ℕ → List T → Type ℓ
Holds capacity buffer i [] = Unit {ℓ}
Holds capacity buffer i (x ∷ xs) = (buffer (i % capacity) ≡ x) × Holds capacity buffer (i + 1) xs

-- `xs` waits in `q`, oldest first. `t` elements have been taken before, and both cached indices are
-- values that the other side's index has had; the capacity is that of the queues of the program.
pub record IsRing {ℓ} {T : Type ℓ} (q : SpscQueue T) (xs : List T) (t seen_tail seen_head : ℕ)
    : Type ℓ where
  pub size_is : q.capacity ≡ 65536
  pub fits : length xs ≤ 65536
  pub tail_is : q.tail ≡ t % u64_mod
  pub head_is : q.head ≡ (t + length xs) % u64_mod
  pub cached_tail_is : q.cached_tail ≡ seen_tail % u64_mod
  pub tail_seen : seen_tail ≤ t
  pub tail_near : t + length xs ≤ seen_tail + 65536
  pub cached_head_is : q.cached_head ≡ seen_head % u64_mod
  pub head_seen : seen_head ≤ t + length xs
  pub head_near : t ≤ seen_head
  pub holds : Holds q.capacity q.buffer t xs

module _ {ℓ} {T : Type ℓ} where
  -- A write behind the elements that wait keeps them.
  Holds-write :
      (buffer : ℕ → T) (item : T) (c k h i : ℕ) (xs : List T)
      → c ≡ 65536
      → k ≡ h % 65536
      → i + length xs ≡ h
      → h < i + 65536
      → Holds c buffer i xs
      → Holds c (λ j. if k == j then item else buffer j) i xs
  Holds-write buffer item c k h i [] size at_k e near w = tt
  Holds-write buffer item c k h i (x ∷ xs) size at_k e near w =
      let other : k ≢ i % c = rw size (omega arith) in
      (
        ground arith,
        Holds-write buffer item c k h (i + 1) xs size at_k (omega arith) (omega arith) w.1,
      )

  Holds-append :
      (buffer : ℕ → T) (item : T) (c i : ℕ) (xs : List T)
      → buffer ((i + length xs) % c) ≡ item
      → Holds c buffer i xs
      → Holds c buffer i (xs ++ (item ∷ []))
  Holds-append buffer item c i [] e w = let there : i + 0 ≡ i = omega arith in (rw there at e, tt)
  Holds-append buffer item c i (x ∷ xs) e w =
      let there : i + 1 + length xs ≡ i + suc (length xs) = omega arith in
      (w.0, Holds-append buffer item c (i + 1) xs (rw there e) w.1)

  module _ {q : SpscQueue T} {t st sh : ℕ} where
    pub reload_tail-IsRing : (xs : List T) → IsRing q xs t st sh → IsRing (reload_tail q) xs t t sh
    reload_tail-IsRing xs v = ground arith

    pub reload_head-IsRing :
        (xs : List T) → IsRing q xs t st sh → IsRing (reload_head q) xs t st (t + length xs)
    reload_head-IsRing xs v = ground arith

    pub store-IsRing :
        (xs : List T) (item : T)
        → IsRing q xs t st sh
        → t + length xs < st + 65536
        → IsRing (store q item) xs t st sh
          × ((store q item).buffer ((t + length xs) % 65536) ≡ item)
    store-IsRing xs item v near =
        let same : q.head % 65536 ≡ (t + length xs) % 65536 = omega (arith, v.head_is) in
        (
          record {
            size_is = v.size_is;
            fits = v.fits;
            tail_is = v.tail_is;
            head_is = v.head_is;
            cached_tail_is = v.cached_tail_is;
            tail_seen = v.tail_seen;
            tail_near = v.tail_near;
            cached_head_is = v.cached_head_is;
            head_seen = v.head_seen;
            head_near = v.head_near;
            holds =
                Holds-write q.buffer item q.capacity (slot q q.head) (t + length xs) t xs v.size_is
                  (rw (v.size_is) same) refl (omega arith) v.holds;
          },
          ground (arith, v.size_is),
        )

    pub advance_head-IsRing :
        (xs : List T) (item : T)
        → IsRing q xs t st sh
        → t + length xs < st + 65536
        → q.buffer ((t + length xs) % 65536) ≡ item
        → IsRing (advance_head q) (xs ++ (item ∷ [])) t st sh
    advance_head-IsRing xs item v near e =
        let len : length (xs ++ (item ∷ [])) ≡ length xs + 1 =
          length-append xs (item ∷ []) ∙ omega arith in
        record {
          size_is = v.size_is;
          fits = omega (arith, len, v.tail_seen);
          tail_is = v.tail_is;
          head_is = ground (arith, v.head_is, len);
          cached_tail_is = v.cached_tail_is;
          tail_seen = v.tail_seen;
          tail_near = omega (arith, len);
          cached_head_is = v.cached_head_is;
          head_seen = omega (arith, len, v.head_seen);
          head_near = v.head_near;
          holds = Holds-append q.buffer item q.capacity t xs (rw (v.size_is) e) v.holds;
        }

    pub advance_tail-IsRing :
        (x : T) (xs : List T)
        → IsRing q (x ∷ xs) t st sh
        → t < sh
        → IsRing (advance_tail q) xs (t + 1) st sh
    advance_tail-IsRing x xs v near = record {
      size_is = v.size_is;
      fits = omega (arith, v.fits);
      tail_is = omega (arith, v.tail_is);
      head_is = v.head_is ∙ omega arith;
      cached_tail_is = v.cached_tail_is;
      tail_seen = omega (arith, v.tail_seen);
      tail_near = omega (arith, v.tail_near);
      cached_head_is = v.cached_head_is;
      head_seen = omega (arith, v.head_seen);
      head_near = omega arith;
      holds = v.holds.1;
    }

    pub front-IsRing :
        (x : T) (xs : List T) → IsRing q (x ∷ xs) t st sh → q.buffer (slot q q.tail) ≡ x
    front-IsRing x xs v = ground (arith, v.size_is, v.tail_is, v.holds.0)

    pub is_full-IsRing :
        (xs : List T) → IsRing q xs t st sh → is_full q ≡ leb (st + 65536) (t + length xs)
    is_full-IsRing xs v =
        ground (arith, v.size_is, v.head_is, v.cached_tail_is, v.tail_seen, v.tail_near, v.fits)

    pub looks_empty-IsRing : (xs : List T) → IsRing q xs t st sh → looks_empty q ≡ (t == sh)
    looks_empty-IsRing xs v =
        ground (arith, v.tail_is, v.cached_head_is, v.head_seen, v.head_near, v.fits)

  pub publish-IsRing :
      {q : SpscQueue T} {t st sh : ℕ} (xs : List T) (item : T)
      → IsRing q xs t st sh
      → t + length xs < st + 65536
      → IsRing (publish q item) (xs ++ (item ∷ [])) t st sh
  publish-IsRing xs item v near =
      let stored = store-IsRing xs item v near in advance_head-IsRing xs item stored.0 near stored.1

pub make_queue-IsRing {ℓ} : {T : Type ℓ} (blank : T) → IsRing (make_queue 65536 blank) [] 0 0 0
unfolding make_queue
make_queue-IsRing blank = record {
  size_is = refl;
  fits = omega arith;
  tail_is = refl;
  head_is = refl;
  cached_tail_is = refl;
  tail_seen = omega arith;
  tail_near = omega arith;
  cached_head_is = refl;
  head_seen = omega arith;
  head_near = omega arith;
  holds = tt;
}
