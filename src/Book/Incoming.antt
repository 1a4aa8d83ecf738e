-- ===== src/Book/Incoming.antt =====
-- src/order_book.cpp, `add_order`: the invariant after the sweep of the other side.
use rtes.Prelude.{
  ℕ, ◌<◌, ◌≡◌, refl, Bool, true, false, List, [], ◌∷◌, ◌++◌, none, some, arith, ◌==◌, ap, contains,
  All, ◌∙◌, ◌||◌, contains-append, u64_mod, All-of_contains, inl, inr, Bool-cases, All-contains,
  Distinct-apart,
}
use rtes.Types.Orders.{Side}
use rtes.Book.Lookup.{lookup, insert, erase_key, lookup-insert, lookup-erase_key}
use rtes.Book.Levels.{Memory, FlatLevel}
use rtes.Book.Matching.{Env}
use rtes.Book.Matching.Frame.{Same}
use rtes.Book.Matching.View.{pointers}
use rtes.Book.Matching.Rule.{Ready}
use rtes.Book.Matching.Trace.{Traced, unlist}
use rtes.Book.Insertion.{Sorted, Roomy}
use rtes.Book.{opposite}
use rtes.Book.Invariant.{on_book, SidesAreValid}

-- What `add_order` has found out about an order that it goes on to match, and what its caller
-- promises: the order stands nowhere in the book, and its level has room.
pub record Incoming (e : Env) (a : ℕ) (s : Side) (own other : List FlatLevel) : Type 0 where
  pub on_side : (e.mem a).side ≡ s
  pub positive : 0 < (e.mem a).remaining_quantity
  pub word : (e.mem a).remaining_quantity < u64_mod
  pub off_own : contains a (pointers own) ≡ false
  pub off_other : contains a (pointers other) ≡ false
  pub unlisted : lookup (e.mem a).id e.order_lookup ≡ none
  pub room : Roomy own

-- The order is listed before it is matched.
abbrev pub with_listed : Env → ℕ → Env
with_listed e a = record e { order_lookup = insert (e.mem a).id a e.order_lookup }

pub Sorted-append_right : (d : Bool) (xs ys : List ℕ) → Sorted d (xs ++ ys) → Sorted d ys
Sorted-append_right d [] ys h = h
Sorted-append_right d (x ∷ xs) ys h = Sorted-append_right d xs ys h.1

-- Erasing other identifiers keeps an entry; what is left was there, under an identifier not erased.
lookup-unlist :
    (m : Memory) (ps : List ℕ) (t : List (ℕ × ℕ)) (id : ℕ)
    → All (λ p. ((m p).id == id) ≡ false) ps
    → lookup id (unlist m ps t) ≡ lookup id t
lookup-unlist m [] t id h = refl
lookup-unlist m (p ∷ ps) t id h =
    lookup-unlist m ps (erase_key (m p).id t) id h.1
    ∙ ground (arith, h.0, lookup-erase_key (m p).id id t)

unlist-lookup :
    (m : Memory) (ps : List ℕ) (t : List (ℕ × ℕ)) (id x : ℕ)
    → lookup id (unlist m ps t) ≡ some x
    → (lookup id t ≡ some x) × All (λ p. ((m p).id == id) ≡ false) ps
unlist-lookup m [] t id x h = (h, tt)
unlist-lookup m (p ∷ ps) t id x h =
    let (k, all) = unlist-lookup m ps (erase_key (m p).id t) id x h in
    (
      ground (arith, lookup-erase_key (m p).id id t),
      (ground (arith, lookup-erase_key (m p).id id t), all),
    )

module _ (e : Env) (a : ℕ) (s : Side) (own other : List FlatLevel) (v : SidesAreValid e s own other)
    (i : Incoming e a s own other) where
  pub incoming-Ready : Ready (with_listed e a) a (opposite s) other
  incoming-Ready = record {
    word = i.word;
    valid = v.other_valid;
    distinct = (i.off_other, v.other_distinct);
  }

  -- Another order of the book has another identifier.
  other_id : (x : ℕ) → on_book x own other ≡ true → ((e.mem a).id == (e.mem x).id) ≡ false
  other_id x h = ground (arith, v.listed x h, i.unlisted)

  module _ (out : Env × List FlatLevel) (traced : Traced (with_listed e a) a other out) where
    pub split_at :
        (x : ℕ)
        → contains x (pointers other) ≡ (contains x traced.consumed || contains x (pointers out.1))
    split_at x = ap (contains x) traced.split ∙ contains-append x traced.consumed (pointers out.1)

    pub not_consumed : (x : ℕ) → on_book x own out.1 ≡ true → contains x traced.consumed ≡ false
    not_consumed x h = ground (
      arith,
      split_at x,
      v.disjoint x,
      Distinct-apart x traced.consumed (pointers out.1) (rw traced.split at v.other_distinct),
    )

    consumed_id :
        (x : ℕ)
        → on_book x own other ≡ true
        → contains x traced.consumed ≡ false
        → All (λ p. ((e.mem p).id == (e.mem x).id) ≡ false) traced.consumed
    consumed_id x h c =
        All-of_contains _ traced.consumed
          (λ p hp. ground (arith, split_at p, v.listed p, v.listed x h))

    -- An order that was not consumed keeps its entry.
    pub still_listed :
        (x : ℕ) → on_book x own out.1 ≡ true → lookup (out.0.mem x).id out.0.order_lookup ≡ some x
    still_listed x h =
        let was : on_book x own other ≡ true = ground (arith, split_at x) in
        rw ((traced.kept x).id, traced.listed)
          (lookup-unlist e.mem traced.consumed _ (e.mem x).id (consumed_id x was (not_consumed x h))
            ∙ ground (
              arith,
              lookup-insert (e.mem a).id (e.mem x).id a e.order_lookup,
              other_id x was,
              v.listed x was,
            ))

    -- The incoming order is still listed.
    pub self_listed : lookup (e.mem a).id out.0.order_lookup ≡ some a
    self_listed = rw traced.listed (
        lookup-unlist e.mem traced.consumed _ (e.mem a).id (
          All-of_contains _ traced.consumed
            (λ p hp. ground (arith, split_at p, v.listed p, i.unlisted)))
        ∙ ground (arith, lookup-insert (e.mem a).id (e.mem a).id a e.order_lookup))

    -- What is listed is the incoming order or an order that is left on the book.
    pub still_known :
        (id x : ℕ)
        → lookup id out.0.order_lookup ≡ some x
        → (((e.mem a).id == id) ≡ false)
        → (on_book x own out.1 ≡ true) × ((out.0.mem x).id ≡ id)
    still_known id x h n =
        let (there, all) = unlist-lookup e.mem traced.consumed _ id x (rw traced.listed at h) in
        let was : lookup id e.order_lookup ≡ some x =
          ground (arith, lookup-insert (e.mem a).id id a e.order_lookup, there) in
        let (on, same) = v.known id x was in
        let c : contains x traced.consumed ≡ false =
          elim (Bool-cases (contains x traced.consumed)) [
            | inl yes_c ↦ absurd (ground (arith, All-contains _ x traced.consumed all yes_c))
            | inr no_c ↦ no_c
          ] in
        (ground (arith, split_at x), (traced.kept x).id ∙ same)

    pub own_Same : Same e.mem out.0.mem (pointers own)
    own_Same =
        All-of_contains _ (pointers own)
          (λ x h. traced.outside x (ground (arith, i.off_own)) (v.disjoint x h))
