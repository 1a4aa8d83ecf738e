-- ===== src/Transaction.antt =====
-- src/transaction.cpp and include/rtes/transaction.hpp: actions that are executed together, or rolled
-- back. What an action does is an interface over the state `W` of the world; an action may change
-- itself. Names and logs are left out.
pub mod Commit
pub mod Ended
use rtes.Prelude.{
  ℕ, zero, suc, ◌+◌, Bool, true, false, List, [], ◌∷◌, ◌++◌, Option, none, some, ◌&&◌, not,
  if◌then◌else◌, add64, length,
}
use rtes.Errors.{ErrorCode, success, system_corrupted_state, Result, ok, err}

-- `TransactionAction`
pub record Actions (A W : Type 0) : Type 0 where
  pub execute : A → W → Result (Unit {0}) × A × W
  pub rollback : A → W → Result (Unit {0}) × A × W

pub data State : Type 0 where
  active committed rolled_back : State

abbrev pub is_active : State → Bool
is_active active = true
is_active _ = false

abbrev pub is_rolled_back : State → Bool
is_rolled_back rolled_back = true
is_rolled_back _ = false

pub record Transaction (A : Type 0) : Type 0 where
  pub actions : List A
  pub executed_actions : List A
  pub state : State
  pub auto_rollback : Bool

abbrev pub new_transaction : {A : Type 0} → Transaction A
new_transaction = record {
  actions = [];
  executed_actions = [];
  state = active;
  auto_rollback = true;
}

-- `add_action`
unfoldable pub add_action : {A : Type 0} → Transaction A → A → Transaction A
add_action t action =
    if is_active t.state then record t { actions = t.actions ++ (action ∷ []) } else t

-- From `rbegin` to `rend`.
abbrev pub reversed : {A : Type 0} → List A → List A
reversed [] = []
reversed (a ∷ later) = reversed later ++ (a ∷ [])

-- `if (last_error)`: an error code of value 0 counts as none.
abbrev pub result_of : ErrorCode → Result (Unit {0})
result_of success = ok tt
result_of code = err code

abbrev pub last_of : ErrorCode → Result (Unit {0}) → ErrorCode
last_of last (ok _) = last
last_of last (err code) = code

-- `if (result.has_error())`
abbrev pub on_result : {Q : Type 0} → Result (Unit {0}) → Q → (ErrorCode → Q) → Q
on_result (ok _) fine failed = fine
on_result (err code) fine failed = failed code

module _ {A W : Type 0} (ops : Actions A W) where
  -- The loop of `rollback`, with the last error so far.
  unfoldable pub undo_all : List A → W → ErrorCode → ErrorCode × W
  undo_all [] w last = (last, w)
  undo_all (a ∷ later) w last = let r = ops.rollback a w in undo_all later r.2 (last_of last r.0)

  abbrev pub rolled : Transaction A → Transaction A
  rolled t = record t { actions = []; executed_actions = []; state = rolled_back }

  -- `rollback`
  unfoldable pub rollback : Transaction A → W → Result (Unit {0}) × Transaction A × W
  rollback t w =
      let undone = undo_all (reversed t.executed_actions) w success in
      if is_rolled_back t.state then (ok tt, t, w) else (result_of undone.0, rolled t, undone.1)

  -- The loop of `commit` over the actions that are left, and what follows it.
  unfoldable pub execute_all : List A → Transaction A → W → Result (Unit {0}) × Transaction A × W
  execute_all [] t w =
      (ok tt, record t { actions = []; state = committed; auto_rollback = false }, w)
  execute_all (a ∷ later) t w =
      let r = ops.execute a w in
      let rest =
        execute_all later (record t { executed_actions = t.executed_actions ++ (r.1 ∷ []) }) r.2 in
      let undone = rollback t r.2 in on_result r.0 rest (λ code. (err code, undone.1, undone.2))

  -- `commit`
  unfoldable pub commit : Transaction A → W → Result (Unit {0}) × Transaction A × W
  commit t w =
      if is_active t.state then execute_all t.actions t w else (err system_corrupted_state, t, w)

  -- `~Transaction`
  unfoldable pub destroy : Transaction A → W → W
  destroy t w = if is_active t.state && t.auto_rollback then (rollback t w).2 else w

-- `TransactionScope`; its transaction is never null.
pub record TransactionScope (A : Type 0) : Type 0 where
  pub transaction : Transaction A
  pub committed : Bool

module _ {A W : Type 0} (ops : Actions A W) where
  -- `TransactionScope::commit`
  unfoldable pub commit_scope : TransactionScope A → W → Result (Unit {0}) × TransactionScope A × W
  commit_scope s w =
      let r = commit ops s.transaction w in
      elim (r.0) [
        | ok _ ↦ (ok tt, record { transaction = r.1; committed = true }, r.2)
        | err code ↦ (err code, record s { transaction = r.1 }, r.2)
      ]

  -- `~TransactionScope`, then the destructor of its transaction
  unfoldable pub leave_scope : TransactionScope A → W → W
  leave_scope s w =
      let undone = rollback ops s.transaction w in
      if s.committed then destroy ops s.transaction w else destroy ops undone.1 undone.2

-- `TransactionManager`; a pointer that has expired is `none`.
pub record TransactionManager (A : Type 0) : Type 0 where
  pub active_transactions : List (Option (Transaction A))
  pub total_transactions : ℕ
  pub failed_transactions : ℕ

-- `begin_transaction`
unfoldable pub begin_transaction :
    {A : Type 0} → TransactionManager A → Transaction A × TransactionManager A
begin_transaction m =
    (new_transaction, record m { total_transactions = add64 m.total_transactions 1 })

-- `active_transaction_count`
unfoldable pub active_transaction_count : {A : Type 0} → List (Option (Transaction A)) → ℕ
active_transaction_count [] = 0
active_transaction_count (none ∷ ts) = active_transaction_count ts
active_transaction_count (some t ∷ ts) = suc (active_transaction_count ts)

module _ {A W : Type 0} (ops : Actions A W) where
  -- The loop of `rollback_all_active_transactions`: the last error, the number of failures, the
  -- transactions as it leaves them.
  unfoldable pub rollback_each :
      List (Option (Transaction A)) → W → ErrorCode → ErrorCode × ℕ × List (Transaction A) × W
  rollback_each [] w last = (last, 0, [], w)
  rollback_each (none ∷ ts) w last = rollback_each ts w last
  rollback_each (some t ∷ ts) w last =
      let r = rollback ops t w in
      let skipped = rollback_each ts w last in
      let fine = rollback_each ts r.2 last in
      if not (is_active t.state)
      then (skipped.0, skipped.1, t ∷ skipped.2, skipped.3)
      else elim (r.0) [
        | ok _ ↦ (fine.0, fine.1, r.1 ∷ fine.2, fine.3)
        | err code ↦
            let failed = rollback_each ts r.2 code in
            (failed.0, suc failed.1, r.1 ∷ failed.2, failed.3)
      ]

  -- `rollback_all_active_transactions`
  unfoldable pub rollback_all_active_transactions :
      TransactionManager A → W → Result (Unit {0}) × TransactionManager A × W
  rollback_all_active_transactions m w =
      let r = rollback_each m.active_transactions w success in
      (
        result_of r.0,
        record m {
          active_transactions = [];
          failed_transactions = add64 m.failed_transactions r.1;
        },
        r.3,
      )
