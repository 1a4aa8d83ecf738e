-- ===== src/Book/Added.antt =====
-- src/order_book.cpp, `add_order`: the invariant after the order was filled, or came to rest.
use rtes.Prelude.{
  ℕ, ◌<◌, ◌≡◌, refl, true, false, List, [], ◌∷◌, some, arith, ◌==◌, contains, All, ◌∙◌, ◌||◌,
  Distinct, u64_mod, All-map, inl, inr, Bool-cases, Distinct-append_right, All-append_right,
  contains-insert, Distinct-insert,
}
use rtes.Types.Orders.{Side, buy, sell, OrderType, market, limit, accepted}
use rtes.Book.Lookup.{lookup, erase_key, lookup-erase_key}
use rtes.Book.Levels.{Memory, FlatLevel}
use rtes.Book.PriceBook.{before}
use rtes.Book.Matching.{Env, modify, set_status, crosses_of}
use rtes.Book.Matching.Alike.{status-Alike, SideIsValid-Alike}
use rtes.Book.Matching.View.{pointers, Rests, SideIsValid, SideIsValid-Same}
use rtes.Book.Matching.Level.{prices}
use rtes.Book.Matching.Rule.{Idle}
use rtes.Book.Matching.Trace.{Traced}
use rtes.Book.Insertion.{Sorted, before_trans, place, place-Sorted, place-SideIsValid, All-place}
use rtes.Book.Insertion.Priority.{Inserted, place-Inserted}
use rtes.Book.{opposite, descending}
use rtes.Book.Invariant.{on_book, Uncrossed, SidesAreValid}
use rtes.Book.Incoming.{
  Incoming, with_listed, Sorted-append_right, split_at, still_listed, self_listed, still_known,
  own_Same,
}

-- A limit order that no longer crosses the best price of the other side clears all of them.
clears :
    (s : Side) (t : OrderType) (e : Env) (a : ℕ) (other : List FlatLevel)
    → (e.mem a).side ≡ s
    → 0 < (e.mem a).remaining_quantity
    → Idle (crosses_of t) e a other
    → Sorted (descending (opposite s)) (prices other)
    → All (λ y. before (descending (opposite s)) (e.mem a).price y ≡ true) (prices other)
clears s t e a [] side positive idle sorted = tt
clears s market e a (l ∷ ls) side positive idle sorted = absurd (ground arith)
clears buy limit e a (l ∷ ls) side positive idle sorted =
    let first : before false (e.mem a).price l.price ≡ true = ground arith in
    (
      first,
      All-map _ _ (prices ls) (λ y. before_trans false (e.mem a).price l.price y first) sorted.0,
    )
clears sell limit e a (l ∷ ls) side positive idle sorted =
    let first : before true (e.mem a).price l.price ≡ true = ground arith in
    (
      first,
      All-map _ _ (prices ls) (λ y. before_trans true (e.mem a).price l.price y first) sorted.0,
    )

module _ (e : Env) (a : ℕ) (s : Side) (own other : List FlatLevel) (v : SidesAreValid e s own other)
    (i : Incoming e a s own other) (out : Env × List FlatLevel)
    (traced : Traced (with_listed e a) a other out)
    (swept : SideIsValid out.0.mem (opposite s) out.1) where
  left-Uncrossed : Uncrossed s (prices own) (prices out.1)
  left-Uncrossed =
      All-map _ _ (prices own) (λ x h. All-append_right _ traced.gone (prices out.1) h)
        (rw traced.best at v.uncrossed)

  left-Sorted : Sorted (descending (opposite s)) (prices out.1)
  left-Sorted = Sorted-append_right _ traced.gone (prices out.1) (rw traced.best at v.other_sorted)

  left-Distinct : Distinct (pointers out.1)
  left-Distinct =
      Distinct-append_right traced.consumed (pointers out.1) (rw traced.split at v.other_distinct)

  left_disjoint : (x : ℕ) → contains x (pointers own) ≡ true → contains x (pointers out.1) ≡ false
  left_disjoint x h = ground (arith, v.disjoint x h, split_at e a s own other v i out traced x)

  pub off_book : on_book a own out.1 ≡ false
  off_book = ground (arith, i.off_own, i.off_other, split_at e a s own other v i out traced a)

  -- A filled order leaves the lookup map again.
  pub filled-SidesAreValid :
      SidesAreValid
        (record (out.0) { order_lookup = erase_key (e.mem a).id out.0.order_lookup })
        s
        own
        out.1
  filled-SidesAreValid = record {
    own_valid =
        SideIsValid-Same e.mem out.0.mem s own (own_Same e a s own other v i out traced)
          v.own_valid;
    other_valid = swept;
    own_sorted = v.own_sorted;
    other_sorted = left-Sorted;
    own_distinct = v.own_distinct;
    other_distinct = left-Distinct;
    disjoint = left_disjoint;
    listed = λ x h. ground (
      arith,
      lookup-erase_key (e.mem a).id (out.0.mem x).id out.0.order_lookup,
      self_listed e a s own other v i out traced,
      still_listed e a s own other v i out traced x h,
      off_book,
    );
    known = λ id x h.
        let there : ((e.mem a).id == id ≡ false) × (lookup id out.0.order_lookup ≡ some x) =
          ground (arith, lookup-erase_key (e.mem a).id id out.0.order_lookup) in
        still_known e a s own other v i out traced id x there.1 there.0;
    uncrossed = left-Uncrossed;
  }

  -- An order with a quantity left comes to rest on its own side, and stays in the lookup map.
  module _ (t : OrderType) (positive : 0 < (out.0.mem a).remaining_quantity)
      (word : (out.0.mem a).remaining_quantity < u64_mod)
      (idle : Idle (crosses_of t) out.0 a out.1) where
    rests : Rests out.0.mem s (out.0.mem a).price a
    rests = record {
      positive = positive;
      word = word;
      at_price = refl;
      on_side = (traced.kept a).side ∙ i.on_side;
    }

    abbrev pub own_after : List FlatLevel
    own_after = place (descending s) out.0.mem (out.0.mem a).price a own

    own_valid_after : SideIsValid out.0.mem s own
    own_valid_after =
        SideIsValid-Same e.mem out.0.mem s own (own_Same e a s own other v i out traced) v.own_valid

    one_more : Inserted a (pointers own) (pointers own_after)
    one_more = place-Inserted (descending s) out.0.mem (out.0.mem a).price a s own own_valid_after

    pub contains_after :
        (x : ℕ) → contains x (pointers own_after) ≡ ((a == x) || contains x (pointers own))
    contains_after x =
        rw (one_more.new_is, one_more.old_is) (contains-insert a x one_more.earlier one_more.later)

    abbrev marked : Memory
    marked = modify out.0.mem a (set_status accepted)

    listed_after :
        (x : ℕ)
        → on_book x own_after out.1 ≡ true
        → lookup (marked x).id out.0.order_lookup ≡ some x
    listed_after x h = rw ((status-Alike out.0.mem a accepted x).id) (elim (Bool-cases (a == x)) [
      | inl same ↦
          let is : x ≡ a = ground arith in
          rw (is, (traced.kept a).id) (self_listed e a s own other v i out traced)
      | inr differs ↦
          still_listed e a s own other v i out traced x (ground (arith, contains_after x))
    ])

    known_after :
        (id x : ℕ)
        → lookup id out.0.order_lookup ≡ some x
        → (on_book x own_after out.1 ≡ true) × ((marked x).id ≡ id)
    known_after id x h = elim (Bool-cases ((e.mem a).id == id)) [
      | inl same ↦
          let of_a : (e.mem a).id ≡ id = ground arith in
          let is : a ≡ x = ground (arith, self_listed e a s own other v i out traced) in
          (
            ground (arith, contains_after x),
            (status-Alike out.0.mem a accepted x).id ∙ (rw (← is) ((traced.kept a).id ∙ of_a)),
          )
      | inr differs ↦
          let (on, same) = still_known e a s own other v i out traced id x h differs in
          (ground (arith, contains_after x), (status-Alike out.0.mem a accepted x).id ∙ same)
    ]

    pub rested-SidesAreValid :
        SidesAreValid
          (record (out.0) { mem = modify out.0.mem a (set_status accepted) })
          s
          own_after
          out.1
    rested-SidesAreValid = record {
      own_valid = SideIsValid-Alike out.0.mem _ (status-Alike out.0.mem a accepted) s own_after (
          place-SideIsValid (descending s) out.0.mem (out.0.mem a).price a s rests own i.room
            own_valid_after);
      other_valid =
          SideIsValid-Alike out.0.mem _ (status-Alike out.0.mem a accepted) (opposite s) out.1
            swept;
      own_sorted = place-Sorted (descending s) out.0.mem (out.0.mem a).price a own v.own_sorted;
      other_sorted = left-Sorted;
      own_distinct = rw one_more.new_is (
          Distinct-insert a one_more.earlier one_more.later (rw one_more.old_is at i.off_own)
            (rw one_more.old_is at v.own_distinct));
      other_distinct = left-Distinct;
      disjoint = λ x h. ground (arith, contains_after x, left_disjoint x, off_book);
      listed = listed_after;
      known = known_after;
      uncrossed =
          All-place (descending s) out.0.mem (out.0.mem a).price a _ own
            (clears s t out.0 a out.1 ((traced.kept a).side ∙ i.on_side) positive idle left-Sorted)
            left-Uncrossed;
    }
