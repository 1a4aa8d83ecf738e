-- ===== src/Limiter.antt =====
-- src/network_security.cpp: `RateLimiter`, the token buckets of the clients, and `ClientAuthenticator`,
-- their sessions. A string that is a key is named by a number; times are nanoseconds of the steady clock,
-- 0 the default time point. Random tokens are given; locks, logs and OpenSSL are left out.
pub mod Burst
pub mod Sessions
pub mod Timeouts
pub mod Monitor
pub mod Blocked
use rtes.Prelude.{
  ℕ, ◌+◌, ◌-◌, ◌*◌, ◌/◌, ◌%◌, min, Bool, true, false, Option, none, some, List, [], ◌∷◌, ltb, leb,
  ◌==◌, ◌||◌, if◌then◌else◌, add32, add64, u32_mod, u64_mod,
}
use rtes.Book.Lookup.{lookup, insert, erase_key}

pub record TokenBucket : Type 0 where
  pub tokens : ℕ
  pub last_refill : ℕ

-- `RateLimiter`; the interval is in milliseconds, and positive.
pub record RateLimiter : Type 0 where
  pub max_tokens : ℕ
  pub refill_interval : ℕ
  pub buckets : List (ℕ × TokenBucket)

-- `duration_cast<milliseconds>(now - last)`
abbrev pub elapsed_ms : ℕ → ℕ → ℕ
elapsed_ms now last = (now - last) / 1000000

-- `refill_bucket`
unfoldable pub refill_bucket : RateLimiter → ℕ → TokenBucket → TokenBucket
refill_bucket r now bucket =
    let elapsed = elapsed_ms now bucket.last_refill in
    if bucket.last_refill == 0
    then record { tokens = r.max_tokens; last_refill = now }
    else if leb r.refill_interval elapsed
    then record {
      tokens = min r.max_tokens (add32 bucket.tokens ((elapsed / r.refill_interval) % u32_mod));
      last_refill = now;
    }
    else bucket

-- `buckets_[client_id]`: a new bucket is empty.
unfoldable pub bucket_of : Option TokenBucket → TokenBucket
bucket_of (some bucket) = bucket
bucket_of none = record { tokens = 0; last_refill = 0 }

abbrev pub store : RateLimiter → ℕ → TokenBucket → RateLimiter
store r client bucket = record r { buckets = insert client bucket r.buckets }

-- `try_consume`
unfoldable pub try_consume : RateLimiter → ℕ → ℕ → ℕ → Bool × RateLimiter
try_consume r now client tokens =
    let bucket = refill_bucket r now (bucket_of (lookup client r.buckets)) in
    if leb tokens bucket.tokens
    then (true, store r client (record bucket { tokens = bucket.tokens - tokens }))
    else (false, store r client bucket)

-- `reset_client`
unfoldable pub reset_client : RateLimiter → ℕ → RateLimiter
reset_client r client = record r { buckets = erase_key client r.buckets }

pub record Session : Type 0 where
  pub client_id : ℕ
  pub created : ℕ
  pub last_access : ℕ

-- `ClientAuthenticator`
pub record ClientAuthenticator : Type 0 where
  pub session_timeout : ℕ
  pub active_sessions : List (ℕ × Session)
  pub api_keys : List (ℕ × ℕ)

-- `create_session` with the token that was drawn
unfoldable pub create_session : ClientAuthenticator → ℕ → ℕ → ℕ → ClientAuthenticator
create_session a now token client = record a {
  active_sessions =
      insert token (record { client_id = client; created = now; last_access = now })
        a.active_sessions;
}

abbrev pub expired : ClientAuthenticator → ℕ → Session → Bool
expired a now s = ltb a.session_timeout (now - s.created)

unfoldable pub check_session :
    ClientAuthenticator → ℕ → ℕ → Option Session → Bool × ClientAuthenticator
check_session a now token none = (false, a)
check_session a now token (some s) =
    if expired a now s
    then (false, record a { active_sessions = erase_key token a.active_sessions })
    else (
      true,
      record a {
        active_sessions = insert token (record s { last_access = now }) a.active_sessions;
      },
    )

-- `validate_session`
unfoldable pub validate_session : ClientAuthenticator → ℕ → ℕ → Bool × ClientAuthenticator
validate_session a now token = check_session a now token (lookup token a.active_sessions)

-- `invalidate_session`
unfoldable pub invalidate_session : ClientAuthenticator → ℕ → ClientAuthenticator
invalidate_session a token = record a { active_sessions = erase_key token a.active_sessions }

unfoldable pub unexpired : ClientAuthenticator → ℕ → List (ℕ × Session) → List (ℕ × Session)
unexpired a now [] = []
unexpired a now ((token, s) ∷ rest) =
    let later = unexpired a now rest in if expired a now s then later else (token, s) ∷ later

-- `cleanup_expired_sessions`
unfoldable pub cleanup_expired_sessions : ClientAuthenticator → ℕ → ClientAuthenticator
cleanup_expired_sessions a now = record a { active_sessions = unexpired a now a.active_sessions }

-- `validate_api_key`: `none` is the error.
unfoldable pub validate_api_key : ClientAuthenticator → ℕ → Option ℕ
validate_api_key a key = lookup key a.api_keys
