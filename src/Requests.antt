-- ===== src/Requests.antt =====
-- src/matching_engine.cpp and include/rtes/matching_engine.hpp: what a matching engine takes from the
-- risk manager's thread, `OrderRequest` and its queue, and the two calls that fill the queue.
use rtes.Prelude.{ℕ, Bool, true, false, Option, none, some, if◌then◌else◌, add64}
use rtes.Types.FixedString.{FixedString}
use rtes.Queue.{SpscQueue, push}

pub data OrderRequest : Type 0 where
  new_order : ℕ → OrderRequest
  cancel : ℕ → FixedString → OrderRequest

pub record Engine : Type 0 where
  pub input_queue : SpscQueue OrderRequest
  pub queue_full_count : ℕ

-- The push of both calls, which counts a full queue.
abbrev pub enqueue_request : Engine → OrderRequest → Bool × Engine
enqueue_request e request =
    let pushed = push e.input_queue request in
    if pushed.0
    then (true, record e { input_queue = pushed.1 })
    else (false, record e { input_queue = pushed.1; queue_full_count = add64 e.queue_full_count 1 })

-- `submit_order`: `none` is the null pointer.
unfoldable pub submit_order : Engine → Option ℕ → Bool × Engine
submit_order e none = (false, e)
submit_order e (some order) = enqueue_request e (new_order order)

-- `cancel_order`
unfoldable pub cancel_order : Engine → ℕ → FixedString → Bool × Engine
cancel_order e order_id client_id = enqueue_request e (cancel order_id client_id)
