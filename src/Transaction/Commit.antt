-- ===== src/Transaction/Commit.antt =====
-- src/transaction.cpp: a commit executes every action in order, or stops at the first that fails and
-- rolls back those before it, the last one first.
use rtes.Prelude.{
  ◌≡◌, inl, inr, refl, ◌∙◌, ap, sym, subst, Bool, true, false, List, [], ◌∷◌, ◌++◌, arith,
}
use mathlib.Core.List.{append_assoc, append-nil}
use rtes.Errors.{ErrorCode, success, Result, ok, err, Result-cases}
use rtes.Transaction.{
  Actions, Transaction, State, committed, rolled_back, is_active, is_rolled_back, reversed,
  undo_all, rolled, rollback, execute_all, commit, on_result,
}

active_open : (s : State) → is_active s ≡ true → is_rolled_back s ≡ false
active_open s h = ground arith

module _ {A W : Type 0} (ops : Actions A W) where
  -- All of `xs` succeed from the world `w` on, leave the actions `ys` and the world `w'`.
  pub data Runs : List A → W → List A → W → Type 0 where
    done : {w : W} → Runs [] w [] w
    step :
        {a : A} {xs ys : List A} {w w' : W}
        → (ops.execute a w).0 ≡ ok tt
        → Runs xs (ops.execute a w).2 ys w'
        → Runs (a ∷ xs) w ((ops.execute a w).1 ∷ ys) w'

  -- The actions `xs` are rolled back from the world `w` on, the last one first, each one whether or not
  -- those before it succeeded, and leave the world `w'`.
  pub data Unwinds : List A → W → W → Type 0 where
    nothing_left : {w : W} → Unwinds [] w w
    last_first :
        {xs : List A} {a : A} {w w' : W}
        → Unwinds xs (ops.rollback a w).2 w'
        → Unwinds (xs ++ (a ∷ [])) w w'

  -- What a commit of the actions `xs` comes to, behind the executed actions `before`.
  pub data Outcome (auto : Bool) (before xs : List A) (w : W)
      : Result (Unit {0}) × Transaction A × W → Type 0 where
    all_done :
        {ys : List A} {w' : W}
        → Runs xs w ys w'
        → Outcome auto before xs w (
          ok tt,
          record {
            actions = [];
            executed_actions = before ++ ys;
            state = committed;
            auto_rollback = false;
          },
          w',
        )
    failed_at :
        {first ys : List A} {a : A} (later : List A) {w' w'' : W} {code : ErrorCode}
        → xs ≡ first ++ (a ∷ later)
        → Runs first w ys w'
        → (ops.execute a w').0 ≡ err code
        → Unwinds (before ++ ys) (ops.execute a w').2 w''
        → Outcome auto before xs w (
          err code,
          record { actions = []; executed_actions = []; state = rolled_back; auto_rollback = auto },
          w'',
        )

  Unwinds-append :
      (xs ys : List A) (w w' w'' : W)
      → Unwinds ys w w'
      → Unwinds xs w' w''
      → Unwinds (xs ++ ys) w w''
  Unwinds-append xs ys w w' w'' nothing_left v = rw (append-nil xs) v
  Unwinds-append xs ys w w' w'' (last_first {xs = zs} {a} u) v =
      rw (sym (append_assoc xs zs (a ∷ []))) (last_first (Unwinds-append xs zs _ w' w'' u v))

  undo_all-append :
      (xs ys : List A) (w : W) (last : ErrorCode)
      → undo_all ops (xs ++ ys) w last
        ≡ undo_all ops ys (undo_all ops xs w last).1 (undo_all ops xs w last).0
  unfolding undo_all
  undo_all-append [] ys w last = refl
  undo_all-append (a ∷ xs) ys w last = undo_all-append xs ys (ops.rollback a w).2 _

  -- The loop over the reversed list unwinds the list.
  undo_all-Unwinds :
      (xs : List A) (w : W) (last : ErrorCode) → Unwinds xs w (undo_all ops (reversed xs) w last).1
  unfolding undo_all
  undo_all-Unwinds [] w last = nothing_left
  undo_all-Unwinds (a ∷ xs) w last =
      let between = (undo_all ops (reversed xs) w last).1 in
      let front : Unwinds (a ∷ []) between (ops.rollback a between).2 =
        last_first {xs = []} nothing_left in
      rw (undo_all-append (reversed xs) (a ∷ []) w last)
        (Unwinds-append (a ∷ []) xs w between _ (undo_all-Unwinds xs w last) front)

  -- One action more in front.
  Outcome-step :
      (auto : Bool) (before xs : List A) (a : A) (w : W) (r : Result (Unit {0}) × Transaction A × W)
      → (ops.execute a w).0 ≡ ok tt
      → Outcome auto (before ++ ((ops.execute a w).1 ∷ [])) xs (ops.execute a w).2 r
      → Outcome auto before (a ∷ xs) w r
  Outcome-step auto before xs a w r e (all_done {ys} {w'} run) =
      rw (append_assoc before ((ops.execute a w).1 ∷ []) ys) (all_done (step e run))
  Outcome-step auto before xs a w r e
        (failed_at {first} {ys} {a = b} later {w'} {w''} {code} q run f u) =
      failed_at later (ap (λ l. a ∷ l) q) (step e run) f
        (rw (append_assoc before ((ops.execute a w).1 ∷ []) ys) at u)

  -- The transaction with one action more executed.
  abbrev executed : Transaction A → A → Transaction A
  executed t a = record t { executed_actions = t.executed_actions ++ (a ∷ []) }

  execute_all-ok :
      (a : A) (xs : List A) (t : Transaction A) (w : W)
      → (ops.execute a w).0 ≡ ok tt
      → execute_all ops (a ∷ xs) t w
        ≡ execute_all ops xs (executed t (ops.execute a w).1) (ops.execute a w).2
  unfolding execute_all
  execute_all-ok a xs t w e =
      ap
        (λ o.
          on_result o (execute_all ops xs (executed t (ops.execute a w).1) (ops.execute a w).2)
            (λ code. (
              err code,
              (rollback ops t (ops.execute a w).2).1,
              (rollback ops t (ops.execute a w).2).2,
            )))
        e

  execute_all-err :
      (a : A) (xs : List A) (t : Transaction A) (w : W) (code : ErrorCode)
      → (ops.execute a w).0 ≡ err code
      → is_rolled_back t.state ≡ false
      → execute_all ops (a ∷ xs) t w ≡ (
        err code,
        rolled ops t,
        (undo_all ops (reversed t.executed_actions) (ops.execute a w).2 success).1,
      )
  unfolding execute_all rollback
  execute_all-err a xs t w code e h =
      ap
        (λ o.
          on_result o (execute_all ops xs (executed t (ops.execute a w).1) (ops.execute a w).2)
            (λ c. (
              err c,
              (rollback ops t (ops.execute a w).2).1,
              (rollback ops t (ops.execute a w).2).2,
            )))
        e
      ∙ rw h refl

  execute_all-Outcome :
      (xs : List A) (t : Transaction A) (w : W)
      → is_active t.state ≡ true
      → Outcome t.auto_rollback t.executed_actions xs w (execute_all ops xs t w)
  unfolding execute_all
  execute_all-Outcome [] t w h =
      let d : Outcome t.auto_rollback t.executed_actions [] w (
        ok tt,
        record {
          actions = [];
          executed_actions = t.executed_actions ++ [];
          state = committed;
          auto_rollback = false;
        },
        w,
      ) =
        all_done done in
      rw (append-nil t.executed_actions) at d
  execute_all-Outcome (a ∷ xs) t w h = elim (Result-cases (ops.execute a w).0) [
    | inl (u, e) ↦ rw (execute_all-ok a xs t w e) (
        Outcome-step t.auto_rollback t.executed_actions xs a w
          (execute_all ops xs (executed t (ops.execute a w).1) (ops.execute a w).2) e
          (execute_all-Outcome xs (executed t (ops.execute a w).1) (ops.execute a w).2 h))
    | inr (code, e) ↦
        let undone = (undo_all ops (reversed t.executed_actions) (ops.execute a w).2 success).1 in
        let back = undo_all-Unwinds t.executed_actions (ops.execute a w).2 success in
        let f : Outcome t.auto_rollback t.executed_actions (a ∷ xs) w (
          err code,
          rolled ops t,
          (undo_all ops (reversed t.executed_actions) (ops.execute a w).2 success).1,
        ) =
          failed_at xs refl done e (
            subst (λ l. Unwinds l (ops.execute a w).2 undone) (sym (append-nil t.executed_actions))
              back) in
        rw (execute_all-err a xs t w code e (active_open t.state h)) f
  ]

  -- A commit of an active transaction executes all its actions in order and ends it as committed; or it
  -- stops at the first action that fails, rolls back every executed one, the last one first and whether
  -- or not other rollbacks fail, hands on the error of that action and ends as rolled back.
  pub commit-Outcome :
      (t : Transaction A) (w : W)
      → is_active t.state ≡ true
      → Outcome t.auto_rollback t.executed_actions t.actions w (commit ops t w)
  unfolding commit
  commit-Outcome t w h = rw h (execute_all-Outcome t.actions t w h)
