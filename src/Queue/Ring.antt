-- ===== src/Queue/Ring.antt =====
-- include/rtes/spsc_queue.hpp: the ring is a first-in first-out list of at most its capacity.
use rtes.Prelude.{
  ℕ, suc, ◌+◌, ◌<◌, ◌≡◌, refl, ap, true, false, List, [], ◌∷◌, ◌++◌, none, some, arith, Bool-cases,
  ltb, inl, inr, if◌then◌else◌, length, ◌∙◌,
}
use rtes.Queue.{
  SpscQueue, make_queue, push, pop, reload_tail, reload_head, looks_empty, publish, take_front,
  is_full,
}
use rtes.Queue.Indices.{
  IsRing, reload_tail-IsRing, reload_head-IsRing, advance_tail-IsRing, front-IsRing, is_full-IsRing,
  looks_empty-IsRing, publish-IsRing, make_queue-IsRing,
}

-- `xs` waits in `q`, oldest first.
pub record IsQueue {ℓ} {T : Type ℓ} (q : SpscQueue T) (xs : List T) : Type ℓ where
  pub t : ℕ
  pub seen_tail : ℕ
  pub seen_head : ℕ
  pub ring : IsRing q xs t seen_tail seen_head

module _ {ℓ} {T : Type ℓ} where
  ring-IsQueue : (q : SpscQueue T) (xs : List T) {t st sh : ℕ} → IsRing q xs t st sh → IsQueue q xs
  ring-IsQueue q xs {t} {st} {sh} v = record { t = t; seen_tail = st; seen_head = sh; ring = v }

  push_again :
      (q : SpscQueue T) (item : T)
      → is_full q ≡ true
      → push q item ≡ (
          if is_full (reload_tail q)
          then (false, reload_tail q)
          else (true, publish (reload_tail q) item))
  unfolding push
  push_again q item h = rw h refl

  pop_again :
      (q : SpscQueue T)
      → looks_empty q ≡ true
      → pop q ≡ (
          if looks_empty (reload_head q) then (none, reload_head q) else take_front (reload_head q))
  unfolding pop
  pop_again q h = rw h refl

  -- `push` succeeds exactly where fewer elements wait than the capacity; it then appends the element,
  -- and otherwise the elements that wait stay. This holds whatever the cached tail says.
  pub push-IsQueue :
      (q : SpscQueue T) (item : T) (xs : List T)
      → IsQueue q xs
      → ((push q item).0 ≡ ltb (length xs) 65536)
        × IsQueue (push q item).1 (if ltb (length xs) 65536 then xs ++ (item ∷ []) else xs)
  unfolding push
  push-IsQueue q item xs v =
      let r : SpscQueue T = reload_tail q in
      let again : IsRing r xs v.t v.t v.seen_head = reload_tail-IsRing xs v.ring in
      elim (Bool-cases (is_full q)) [
        | inl full ↦ elim (Bool-cases (ltb (length xs) 65536)) [
          | inl room ↦
              let free : is_full r ≡ false = is_full-IsRing xs again ∙ ground arith in
              let near : v.t + length xs < v.t + 65536 = ground arith in
              rw (push_again q item full, free, room)
                (refl, ring-IsQueue _ _ (publish-IsRing xs item again near))
          | inr none_left ↦
              let still : is_full r ≡ true = is_full-IsRing xs again ∙ ground arith in
              rw (push_again q item full, still, none_left) (refl, ring-IsQueue _ _ again)
        ]
        | inr space ↦
            let near : v.t + length xs < v.seen_tail + 65536 =
              ground (arith, is_full-IsRing xs v.ring) in
            let room : ltb (length xs) 65536 ≡ true = ground (arith, near, v.ring.tail_seen) in
            rw (space, room) (refl, ring-IsQueue _ _ (publish-IsRing xs item v.ring near))
      ]

  -- `pop` on a queue on which nothing waits.
  pub pop-IsQueue_empty :
      (q : SpscQueue T) → IsQueue q [] → ((pop q).0 ≡ none) × IsQueue (pop q).1 []
  pop-IsQueue_empty q v =
      let again : IsRing (reload_head q) [] v.t v.seen_tail (v.t + 0) =
        reload_head-IsRing [] v.ring in
      let none_seen : looks_empty q ≡ true =
        looks_empty-IsRing [] v.ring ∙ ground (arith, v.ring.head_seen, v.ring.head_near) in
      let still : looks_empty (reload_head q) ≡ true = looks_empty-IsRing [] again ∙ ground arith in
      rw (pop_again q none_seen, still) (refl, ring-IsQueue _ _ again)

  -- `pop` on a queue on which elements wait takes the one that has waited longest, whatever the cached
  -- head says.
  pub pop-IsQueue :
      (q : SpscQueue T) (x : T) (xs : List T)
      → IsQueue q (x ∷ xs)
      → ((pop q).0 ≡ some x) × IsQueue (pop q).1 xs
  unfolding pop
  pop-IsQueue q x xs v =
      let r : SpscQueue T = reload_head q in
      let again : IsRing r (x ∷ xs) v.t v.seen_tail (v.t + suc (length xs)) =
        reload_head-IsRing (x ∷ xs) v.ring in
      elim (Bool-cases (looks_empty q)) [
        | inl unseen ↦
            let some_left : looks_empty r ≡ false =
              looks_empty-IsRing (x ∷ xs) again ∙ ground arith in
            rw (pop_again q unseen, some_left)
              (
                ap some (front-IsRing x xs again),
                ring-IsQueue _ _ (advance_tail-IsRing x xs again (omega arith)),
              )
        | inr seen ↦
            let near : v.t < v.seen_head =
              ground (arith, looks_empty-IsRing (x ∷ xs) v.ring, v.ring.head_near) in
            rw seen (
              ap some (front-IsRing x xs v.ring),
              ring-IsQueue _ _ (advance_tail-IsRing x xs v.ring near),
            )
      ]

-- A new queue of the capacity that the program asks for waits with nothing.
pub make_queue-IsQueue {ℓ} : {T : Type ℓ} (blank : T) → IsQueue (make_queue 65536 blank) []
make_queue-IsQueue blank = ring-IsQueue _ _ (make_queue-IsRing blank)
