-- ===== src/Limiter/Burst.antt =====
-- src/network_security.cpp: between two refills a client gets no more tokens than its bucket holds,
-- whatever the other clients do, and a bucket never holds more than the limit.
use rtes.Prelude.{
  ℕ, ◌+◌, ◌-◌, min, ◌≤◌, ◌<◌, ◌≡◌, ◌≢◌, ◌⊎◌, inl, inr, refl, sym, ◌∙◌, true, false, some, List, [],
  ◌∷◌, arith, leb, ◌==◌, ◌&&◌, if◌then◌else◌, Bool-cases, All, Option-cases,
}
use rtes.Book.Lookup.{lookup, lookup-insert}
use rtes.Limiter.{
  TokenBucket, RateLimiter, elapsed_ms, refill_bucket, bucket_of, store, try_consume,
}

-- A call of `try_consume`: the time, the client, the tokens.
pub record Request : Type 0 where
  pub now : ℕ
  pub client : ℕ
  pub tokens : ℕ

-- The tokens that `client` is granted by the calls, one after another.
unfoldable pub granted : ℕ → List Request → RateLimiter → ℕ
granted client [] r = 0
granted client (q ∷ qs) r =
    let answer = try_consume r q.now q.client q.tokens in
    let later = granted client qs answer.1 in
    if (q.client == client) && answer.0 then q.tokens + later else later

-- No refill falls due before the time `now`.
abbrev pub BeforeRefill : RateLimiter → TokenBucket → ℕ → Type 0
BeforeRefill r bucket now = elapsed_ms now bucket.last_refill < r.refill_interval

full_bucket :
    (r : RateLimiter) (now : ℕ) (bucket : TokenBucket)
    → bucket.last_refill ≢ 0
    → BeforeRefill r bucket now
    → refill_bucket r now bucket ≡ bucket
unfolding refill_bucket
full_bucket r now bucket h k =
    let started : (bucket.last_refill == 0) ≡ false = ground arith in
    let early : leb r.refill_interval (elapsed_ms now bucket.last_refill) ≡ false = ground arith in
    rw (started, early) refl

try_granted :
    (r : RateLimiter) (q : Request) (bucket : TokenBucket)
    → bucket.last_refill ≢ 0
    → BeforeRefill r bucket q.now
    → lookup q.client r.buckets ≡ some bucket
    → ((try_consume r q.now q.client q.tokens
          ≡ (true, store r q.client (record bucket { tokens = bucket.tokens - q.tokens })))
        × (q.tokens ≤ bucket.tokens))
      ⊎ (try_consume r q.now q.client q.tokens ≡ (false, store r q.client bucket))
unfolding try_consume bucket_of
try_granted r q bucket h k e = elim (Bool-cases (leb q.tokens bucket.tokens)) [
  | inl f ↦ inl (rw (e, full_bucket r q.now bucket h k, f) refl, ground arith)
  | inr f ↦ inr (rw (e, full_bucket r q.now bucket h k, f) refl)
]

-- A call of another client.
try_other :
    (r : RateLimiter) (q : Request) (client : ℕ)
    → (q.client == client) ≡ false
    → (lookup client (try_consume r q.now q.client q.tokens).1.buckets ≡ lookup client r.buckets)
      × ((try_consume r q.now q.client q.tokens).1.refill_interval ≡ r.refill_interval)
unfolding try_consume
try_other r q client h =
    let bucket : TokenBucket = refill_bucket r q.now (bucket_of (lookup q.client r.buckets)) in
    elim (Bool-cases (leb q.tokens bucket.tokens)) [
      | inl f ↦ rw f (lookup-insert q.client client _ r.buckets ∙ rw h refl, refl)
      | inr f ↦ rw f (lookup-insert q.client client _ r.buckets ∙ rw h refl, refl)
    ]

within :
    (client last interval : ℕ) (qs : List Request) (r : RateLimiter) (left : ℕ)
    → last ≢ 0
    → r.refill_interval ≡ interval
    → All (λ (q : Request). elapsed_ms q.now last < interval) qs
    → lookup client r.buckets ≡ some (record { tokens = left; last_refill = last })
    → granted client qs r ≤ left
unfolding granted
within client last interval [] r left h i k e = omega arith
within client last interval (q ∷ qs) r left h i k e = elim (Bool-cases (q.client == client)) [
  | inr other ↦
      let t = try_other r q client other in
      rw other (
        within client last interval qs (try_consume r q.now q.client q.tokens).1 left h (t.1 ∙ i)
          k.1 (t.0 ∙ e))
  | inl same ↦
      let bucket : TokenBucket = record { tokens = left; last_refill = last } in
      let c : q.client ≡ client = ground arith in
      let early : BeforeRefill r bucket q.now = rw i (k.0) in
      elim (try_granted r q bucket h early (rw c e)) [
        | inl (answer, enough) ↦
            let after : RateLimiter =
              store r q.client (record bucket { tokens = left - q.tokens }) in
            let kept : lookup client after.buckets
                ≡ some (record { tokens = left - q.tokens; last_refill = last }) =
              lookup-insert q.client client _ r.buckets ∙ rw same refl in
            let rest : granted client qs after ≤ left - q.tokens =
              within client last interval qs after (left - q.tokens) h i k.1 kept in
            rw (same, answer) (omega (arith, rest, enough))
        | inr answer ↦
            let after : RateLimiter = store r q.client bucket in
            let kept : lookup client after.buckets ≡ some bucket =
              lookup-insert q.client client _ r.buckets ∙ rw same refl in
            rw (same, answer) (within client last interval qs after left h i k.1 kept)
      ]
]

-- Until the next refill of its bucket falls due, the calls of a client are granted no more tokens in
-- all than the bucket holds, whatever the calls of other clients between them.
pub granted-le :
    (client : ℕ) (qs : List Request) (r : RateLimiter) (bucket : TokenBucket)
    → bucket.last_refill ≢ 0
    → All (λ (q : Request). BeforeRefill r bucket q.now) qs
    → lookup client r.buckets ≡ some bucket
    → granted client qs r ≤ bucket.tokens
granted-le client qs r bucket h k e =
    within client bucket.last_refill r.refill_interval qs r bucket.tokens h refl k e

-- No bucket holds more than the limit.
abbrev pub Limited : RateLimiter → Type 0
Limited r =
    (client : ℕ) (bucket : TokenBucket)
    → lookup client r.buckets ≡ some bucket
    → bucket.tokens ≤ r.max_tokens

min_left : (a b : ℕ) → min a b ≤ a
min_left a b = omega arith

refill-le :
    (r : RateLimiter) (now : ℕ) (bucket : TokenBucket)
    → bucket.tokens ≤ r.max_tokens
    → (refill_bucket r now bucket).tokens ≤ r.max_tokens
unfolding refill_bucket
refill-le r now bucket h = elim (Bool-cases (bucket.last_refill == 0)) [
  | inl e ↦ rw e (omega arith)
  | inr e ↦ elim (Bool-cases (leb r.refill_interval (elapsed_ms now bucket.last_refill))) [
    | inl f ↦ rw (e, f) (min_left r.max_tokens _)
    | inr f ↦ rw (e, f) h
  ]
]

bucket-le :
    (r : RateLimiter) (client : ℕ)
    → Limited r
    → (bucket_of (lookup client r.buckets)).tokens ≤ r.max_tokens
unfolding bucket_of
bucket-le r client v = elim (Option-cases (lookup client r.buckets)) [
  | inl e ↦ rw e (omega arith)
  | inr (bucket, e) ↦ rw e (v client bucket e)
]

store-Limited :
    (r : RateLimiter) (client : ℕ) (bucket : TokenBucket)
    → bucket.tokens ≤ r.max_tokens
    → Limited r
    → Limited (store r client bucket)
store-Limited r client bucket h v other b e = elim (Bool-cases (client == other)) [
  | inl same ↦
      let found : some bucket ≡ some b =
        sym (lookup-insert client other bucket r.buckets ∙ rw same refl) ∙ e in
      let q : bucket ≡ b = cc in rw (sym q) h
  | inr differs ↦
      v other b (sym (lookup-insert client other bucket r.buckets ∙ rw differs refl) ∙ e)
]

-- A call keeps every bucket within the limit of tokens.
pub try_consume-Limited :
    (r : RateLimiter) (now client tokens : ℕ)
    → Limited r
    → Limited (try_consume r now client tokens).1
unfolding try_consume
try_consume-Limited r now client tokens v =
    let bucket : TokenBucket = refill_bucket r now (bucket_of (lookup client r.buckets)) in
    let h : bucket.tokens ≤ r.max_tokens =
      refill-le r now (bucket_of (lookup client r.buckets)) (bucket-le r client v) in
    elim (Bool-cases (leb tokens bucket.tokens)) [
      | inl f ↦ rw f (
          store-Limited r client (record bucket { tokens = bucket.tokens - tokens })
            (omega (arith, h)) v)
      | inr f ↦ rw f (store-Limited r client bucket h v)
    ]
