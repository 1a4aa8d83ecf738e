-- ===== src/Recovery.antt =====
-- src/error_handling.cpp: the recovery strategies. The connection factory and the file system are
-- functions over the state `W` of the world; times are nanoseconds of the steady clock. Sleeping between
-- two attempts and logs are left out; the counter of failures, a signed `int` in the code, is a number
-- without a bound.
pub mod Breaker
pub mod Trips
pub mod Attempts
pub mod Strategies
use rtes.Prelude.{
  ℕ, zero, suc, ◌+◌, ◌-◌, Bool, true, false, Option, none, some, List, [], ◌∷◌, ◌++◌, ltb, leb,
  if◌then◌else◌, drop, length,
}
use rtes.Errors.{
  ErrorCode, network_connection_failed, network_timeout, network_disconnected, file_not_found,
  file_permission_denied, file_disk_full, memory_allocation_failed, memory_pool_exhausted, Result,
  ok, err,
}

pub data CircuitState : Type 0 where
  closed open_circuit half_open : CircuitState

-- `NetworkErrorRecovery`
pub record NetworkErrorRecovery : Type 0 where
  pub max_retries : ℕ
  pub circuit_state : CircuitState
  pub failure_count : ℕ
  pub last_failure_time : ℕ

-- `FAILURE_THRESHOLD` and `CIRCUIT_TIMEOUT`
abbrev pub failure_threshold : ℕ
failure_threshold = 5

abbrev pub circuit_timeout : ℕ
circuit_timeout = 30000000000

-- The end of `attempt_recovery` where no attempt has succeeded.
unfoldable pub count_failure : NetworkErrorRecovery → ℕ → NetworkErrorRecovery
count_failure r now =
    let counted = suc r.failure_count in
    record r {
      failure_count = counted;
      last_failure_time = now;
      circuit_state = if leb failure_threshold counted then open_circuit else r.circuit_state;
    }

-- The breaker is open, and its time is not over.
unfoldable pub refuses : NetworkErrorRecovery → ℕ → Bool
refuses r now = elim (r.circuit_state) [
  | open_circuit ↦ ltb (now - r.last_failure_time) circuit_timeout
  | _ ↦ false
]

-- An open breaker that tries again is half open.
unfoldable pub half_opened : NetworkErrorRecovery → NetworkErrorRecovery
half_opened r = record r {
  circuit_state = elim (r.circuit_state) [ open_circuit ↦ half_open | s ↦ s ];
}

module _ {W : Type 0} where
  -- The loop over the attempts: `none` is a factory that was not set.
  unfoldable pub attempts : ℕ → Option (W → Bool × W) → W → Bool × W
  attempts zero factory w = (false, w)
  attempts (suc n) none w = attempts n none w
  attempts (suc n) (some connect) w =
      let r = connect w in
      let rest = attempts n (some connect) r.1 in if r.0 then (true, r.1) else rest

  unfoldable pub try_connections :
      Option (W → Bool × W)
      → ℕ
      → NetworkErrorRecovery
      → W
      → Result (Unit {0}) × NetworkErrorRecovery × W
  try_connections factory now r w =
      let tried = attempts r.max_retries factory w in
      if tried.0
      then (ok tt, record r { failure_count = 0; circuit_state = closed }, tried.1)
      else (err network_connection_failed, count_failure r now, tried.1)

  -- `NetworkErrorRecovery::attempt_recovery` at the time `now`
  unfoldable pub attempt_recovery :
      Option (W → Bool × W)
      → ℕ
      → NetworkErrorRecovery
      → W
      → Result (Unit {0}) × NetworkErrorRecovery × W
  attempt_recovery factory now r w =
      if refuses r now
      then (err network_connection_failed, r, w)
      else try_connections factory now (half_opened r) w

-- `FileErrorRecovery`: a path is named by a number.
pub record FileErrorRecovery : Type 0 where
  pub fallback_paths : List ℕ
  pub current_fallback_index : ℕ

-- The first loop of `attempt_recovery`, over the paths from the index `i` on. `is_directory` is the test
-- of both `exists` and `is_directory`; an exception counts as `false`.
unfoldable pub find_directory : (ℕ → Bool) → ℕ → List ℕ → Option ℕ
find_directory is_directory i [] = none
find_directory is_directory i (path ∷ paths) =
    let rest = find_directory is_directory (suc i) paths in
    if is_directory path then some i else rest

-- The second loop: `creates` is whether `create_directories` returns without an exception.
unfoldable pub create_directory : (ℕ → Bool) → List ℕ → Bool
create_directory creates [] = false
create_directory creates (path ∷ paths) =
    let rest = create_directory creates paths in if creates path then true else rest

-- What `attempt_recovery` makes of the index that the first loop has found.
unfoldable pub settle_file :
    (ℕ → Bool) → FileErrorRecovery → Option ℕ → Result (Unit {0}) × FileErrorRecovery
settle_file creates r (some i) = (ok tt, record r { current_fallback_index = i })
settle_file creates r none =
    (if create_directory creates r.fallback_paths then ok tt else err file_not_found, r)

-- `FileErrorRecovery::attempt_recovery`
unfoldable pub recover_file :
    (ℕ → Bool) → (ℕ → Bool) → FileErrorRecovery → Result (Unit {0}) × FileErrorRecovery
recover_file is_directory creates r = settle_file creates r (
    find_directory is_directory r.current_fallback_index
      (drop r.current_fallback_index r.fallback_paths))

-- `add_fallback_path`
unfoldable pub add_fallback_path : FileErrorRecovery → ℕ → FileErrorRecovery
add_fallback_path r path = record r { fallback_paths = r.fallback_paths ++ (path ∷ []) }

-- `MemoryErrorRecovery::attempt_recovery`, with the emergency mode as its state
unfoldable pub recover_memory : Bool → Result (Unit {0}) × Bool
recover_memory emergency = if emergency then (err memory_allocation_failed, true) else (ok tt, true)

-- The three functions `can_recover`
unfoldable pub can_recover_network : ErrorCode → Bool
can_recover_network network_connection_failed = true
can_recover_network network_timeout = true
can_recover_network network_disconnected = true
can_recover_network _ = false

unfoldable pub can_recover_file : ErrorCode → Bool
can_recover_file file_not_found = true
can_recover_file file_permission_denied = true
can_recover_file file_disk_full = true
can_recover_file _ = false

unfoldable pub can_recover_memory : ErrorCode → Bool
can_recover_memory memory_allocation_failed = true
can_recover_memory memory_pool_exhausted = true
can_recover_memory _ = false
