-- ===== src/Book/Cancels.antt =====
-- src/order_book.cpp, `cancel_order`: every branch; it keeps the book valid, takes the order it names
-- off the book and gives its slot back.
use rtes.Prelude.{
  ℕ, ◌≡◌, refl, ◌≢◌, true, false, List, [], ◌∷◌, none, some, arith, ◌==◌, sym, contains,
  contains-append, ◌∙◌, ◌&&◌, not, inl, inr, Bool-cases, Option-cases, contains-erase,
  erase-Distinct, All-contains,
}
use rtes.Types.Orders.{Side, buy, sell, cancelled}
use rtes.Errors.{ok, err, system_shutdown, order_not_found}
use rtes.Pool
use rtes.Book.Lookup.{lookup, erase_key, lookup-erase_key}
use rtes.Book.Levels.{Memory, FlatLevel, live}
use rtes.Book.Matching.{Env, modify, set_status}
use rtes.Book.Matching.Alike.{status-Alike, SideIsValid-Alike}
use rtes.Book.Matching.View.{pointers, SideIsValid, Rests}
use rtes.Book.Removal.{strike, strike_lem, strike-Sorted, All-strike}
use rtes.Book.Removal.Valid.{strike-SideIsValid, pointers-strike}
use rtes.Book.{
  OrderBook, opposite, descending, side_of, cancel_order, remove_from_book, update_bbo_snapshot,
}
use rtes.Book.Invariant.{BookIsValid, SidesAreValid}
use rtes.Book.AddOrder.{Becomes}
use rtes.Book.Accepts.{seen_from, Becomes-BookIsValid}

-- What the cancellation leaves of the state that both sides share.
abbrev pub cancelled_env : Env → ℕ → ℕ → Env
cancelled_env e id p = record e {
  order_lookup = erase_key id e.order_lookup;
  mem = modify e.mem p (set_status cancelled);
  pool = Pool.deallocate e.pool p;
}

module _ (b : OrderBook) (id : ℕ) where
  pub cancel_order_stopped :
      b.shutdown_requested ≡ true → cancel_order b id ≡ (err system_shutdown, b)
  unfolding cancel_order
  cancel_order_stopped h = ground arith

  pub cancel_order_unknown :
      b.shutdown_requested ≡ false
      → lookup id b.env.order_lookup ≡ none
      → cancel_order b id ≡ (err order_not_found, b)
  unfolding cancel_order
  cancel_order_unknown h k = ground arith

  pub cancel_order_lem :
      (p : ℕ)
      → b.shutdown_requested ≡ false
      → lookup id b.env.order_lookup ≡ some p
      → cancel_order b id ≡ (
        ok tt,
        update_bbo_snapshot (record (remove_from_book b p) {
          env = cancelled_env ((remove_from_book b p).env) id p;
        }),
      )
  unfolding cancel_order
  cancel_order_lem p h k = ground arith

  pub cancel_order_found :
      (s : Side) (p : ℕ)
      → b.shutdown_requested ≡ false
      → lookup id b.env.order_lookup ≡ some p
      → (b.env.mem p).side ≡ s
      → Becomes
          (cancel_order b id)
          s
          (cancelled_env b.env id p)
          (strike (descending s) b.env (b.env.mem p).price p (side_of s b))
          (side_of (opposite s) b)
  unfolding remove_from_book update_bbo_snapshot
  cancel_order_found buy p h k side =
      rw (cancel_order_lem p h k, side)
        (record {
          accepted_is = refl;
          env_is = refl;
          own_is = strike_lem true b.env p b.bids;
          other_is = refl;
        })
  cancel_order_found sell p h k side =
      rw (cancel_order_lem p h k, side)
        (record {
          accepted_is = refl;
          env_is = refl;
          own_is = strike_lem false b.env p b.asks;
          other_is = refl;
        })

-- An order of a valid side is an order of that side.
side_of_member :
    (m : Memory) (s : Side) (ls : List FlatLevel) (p : ℕ)
    → SideIsValid m s ls
    → contains p (pointers ls) ≡ true
    → (m p).side ≡ s
side_of_member m s [] p v h = absurd (ground arith)
side_of_member m s (l ∷ ls) p v h = elim (Bool-cases (contains p (live l))) [
  | inl c ↦
      let rests : Rests m s l.price p = All-contains _ p (live l) v.0.resting c in rests.on_side
  | inr c ↦ side_of_member m s ls p v.1 (ground (arith, contains-append p (live l) (pointers ls)))
]

opposite-ne : (s : Side) → opposite s ≢ s
opposite-ne buy = λ h. cc
opposite-ne sell = λ h. cc

module _ (e : Env) (s : Side) (own other : List FlatLevel) (v : SidesAreValid e s own other)
    (id p : ℕ) (listed : lookup id e.order_lookup ≡ some p) (side : (e.mem p).side ≡ s) where
  pub on_own : contains p (pointers own) ≡ true
  on_own = elim (Bool-cases (contains p (pointers other))) [
    | inl c ↦
        absurd
          (opposite-ne s (sym (side_of_member e.mem (opposite s) other p v.other_valid c) ∙ side))
    | inr c ↦ ground (arith, v.known id p listed)
  ]

  abbrev pub own_left : List FlatLevel
  own_left = strike (descending s) e (e.mem p).price p own

  pub own_pointers :
      (x : ℕ) → contains x (pointers own_left) ≡ (not (p == x) && contains x (pointers own))
  own_pointers x =
      rw (pointers-strike (descending s) e (e.mem p).price p s refl own v.own_valid v.own_sorted)
        (contains-erase p x (pointers own) v.own_distinct)

  pub cancelled-SidesAreValid : SidesAreValid (cancelled_env e id p) s own_left other
  cancelled-SidesAreValid =
      let alike = status-Alike e.mem p cancelled in
      let (on, same_id) = v.known id p listed in
      record {
        own_valid =
            SideIsValid-Alike e.mem _ alike s own_left
              (strike-SideIsValid (descending s) e (e.mem p).price p s refl own v.own_valid);
        other_valid = SideIsValid-Alike e.mem _ alike (opposite s) other v.other_valid;
        own_sorted = strike-Sorted (descending s) e (e.mem p).price p s own v.own_sorted;
        other_sorted = v.other_sorted;
        own_distinct =
            rw
              (pointers-strike (descending s) e (e.mem p).price p s refl own v.own_valid
                v.own_sorted)
              (erase-Distinct p (pointers own) v.own_distinct);
        other_distinct = v.other_distinct;
        disjoint = λ x h. ground (arith, own_pointers x, v.disjoint x);
        listed = λ x h. rw ((alike x).id) (
            ground (
              arith,
              own_pointers x,
              v.disjoint p on_own,
              v.listed x,
              lookup-erase_key id (e.mem x).id e.order_lookup,
              listed,
            ));
        known = λ id' x h. rw ((alike x).id) (
            ground (
              arith,
              lookup-erase_key id id' e.order_lookup,
              v.known id' x,
              same_id,
              own_pointers x,
            ));
        uncrossed = All-strike (descending s) e (e.mem p).price p s _ own v.uncrossed;
      }

-- On a valid book every call of `cancel_order`, successful or not, leaves a valid book.
pub cancel_order-BookIsValid :
    (b : OrderBook) (id : ℕ) → BookIsValid b → BookIsValid (cancel_order b id).1
cancel_order-BookIsValid b id v = elim (Bool-cases b.shutdown_requested) [
  | inl stopped ↦ rw (cancel_order_stopped b id stopped) v
  | inr running ↦ elim (Option-cases (lookup id b.env.order_lookup)) [
    | inl unknown ↦ rw (cancel_order_unknown b id running unknown) v
    | inr (p, listed) ↦
        let s = (b.env.mem p).side in
        Becomes-BookIsValid s _ _ _ _ (cancel_order_found b id s p running listed refl)
          (cancelled-SidesAreValid b.env s _ _ (seen_from s b v) id p listed refl)
  ]
]
