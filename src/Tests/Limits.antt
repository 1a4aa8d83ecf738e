-- ===== src/Tests/Limits.antt =====
-- The theorems on the rate limiter and the sessions, applied to two clients.
use rtes.Prelude.{◌-◌, ◌≤◌, ◌≡◌, some, List, [], ◌∷◌, arith, leb, ◌&&◌, not, none, refl}
use rtes.Book.Lookup.{lookup, lookup_single}
use rtes.Limiter.{RateLimiter, ClientAuthenticator, create_session, validate_session}
use rtes.Limiter.Burst.{Request, granted, granted-le}
use rtes.Limiter.Sessions.{Call, creates, validates, cleans, calls}
use rtes.Limiter.Timeouts.{invalidated, validate_session-calls}

abbrev limiter : RateLimiter
limiter = record {
  max_tokens = 10;
  refill_interval = 1000;
  buckets = (1, record { tokens = 3; last_refill = 5 }) ∷ [];
}

abbrev two_requests : List Request
two_requests =
    record { now = 6; client = 1; tokens = 2 } ∷ (record { now = 7; client = 1; tokens = 2 } ∷ [])

bucket_1 : lookup 1 limiter.buckets ≡ some (record { tokens = 3; last_refill = 5 })
bucket_1 = lookup_single 1 1 (record { tokens = 3; last_refill = 5 })

granted-le_example : granted 1 two_requests limiter ≤ 3
granted-le_example =
    granted-le 1 two_requests limiter (record { tokens = 3; last_refill = 5 }) (omega arith)
      (omega arith, (omega arith, tt)) bucket_1

abbrev authenticator : ClientAuthenticator
authenticator = record { session_timeout = 100; active_sessions = []; api_keys = [] }

no_session : lookup 77 authenticator.active_sessions ≡ none
unfolding lookup
no_session = refl

-- The validation at 120 comes after the timeout.
abbrev session_calls : List Call
session_calls = validates 20 77 ∷ creates 30 78 2 ∷ cleans 40 ∷ validates 120 77 ∷ []

validate_session-calls_example :
    (validate_session (calls session_calls (create_session authenticator 10 77 1)) 130 77).0
    ≡ (leb (130 - 10) 100 && not (invalidated 77 session_calls))
validate_session-calls_example =
    validate_session-calls authenticator 10 77 1 session_calls 130 no_session
      (tt, ((λ e. absurd (ground arith)), (tt, (tt, tt))))
      (omega arith, (omega arith, (omega arith, (omega arith, omega arith))))
