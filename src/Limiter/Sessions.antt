-- ===== src/Limiter/Sessions.antt =====
-- src/network_security.cpp: which calls leave a session that is not over in its table.
use rtes.Prelude.{
  ℕ, ◌+◌, ◌≤◌, ◌≡◌, ◌≢◌, inl, inr, refl, sym, ◌∙◌, ap, true, false, none, some, List, [], ◌∷◌,
  arith, ◌==◌, if◌then◌else◌, Bool-cases, All, Option-cases, ==_refl,
}
use rtes.Book.Lookup.{lookup, insert, erase_key, lookup-insert, lookup-erase_key}
use rtes.Limiter.{
  Session, ClientAuthenticator, create_session, expired, check_session, validate_session,
  invalidate_session, unexpired, cleanup_expired_sessions,
}

-- A call on the sessions, at its time.
pub data Call : Type 0 where
  creates : (now token client : ℕ) → Call
  validates : (now token : ℕ) → Call
  invalidates : (token : ℕ) → Call
  cleans : (now : ℕ) → Call

unfoldable pub call : Call → ClientAuthenticator → ClientAuthenticator
call (creates now token client) a = create_session a now token client
call (validates now token) a = (validate_session a now token).1
call (invalidates token) a = invalidate_session a token
call (cleans now) a = cleanup_expired_sessions a now

unfoldable pub calls : List Call → ClientAuthenticator → ClientAuthenticator
calls [] a = a
calls (c ∷ cs) a = calls cs (call c a)

-- The call neither draws the token again nor invalidates it, and comes before the time `until`.
abbrev pub Spares : ℕ → ℕ → Call → Type 0
Spares token until (creates now other client) = other ≢ token
Spares token until (validates now other) = now ≤ until
Spares token until (invalidates other) = other ≢ token
Spares token until (cleans now) = now ≤ until

-- There is a session of the token, created at the time `t`.
abbrev pub Live : ℕ → ℕ → ℕ → ClientAuthenticator → Type 0
Live token t timeout a =
    (a.session_timeout ≡ timeout)
    × (s : Session) × (lookup token a.active_sessions ≡ some s)
    × (s.created ≡ t)

lookup-unexpired :
    (a : ClientAuthenticator) (now token : ℕ) (m : List (ℕ × Session)) (s : Session)
    → lookup token m ≡ some s
    → expired a now s ≡ false
    → lookup token (unexpired a now m) ≡ some s
unfolding lookup unexpired
lookup-unexpired a now token [] s h k = absurd (ground arith)
lookup-unexpired a now token ((key, r) ∷ m) s h k = elim (Bool-cases (key == token)) [
  | inl e ↦
      let same : some r ≡ some s = rw e at h in
      let q : r ≡ s = cc in let fresh : expired a now r ≡ false = rw q k in rw (fresh, e) same
  | inr e ↦
      let rest : lookup token (unexpired a now m) ≡ some s =
        lookup-unexpired a now token m s (rw e at h) k in
      elim (Bool-cases (expired a now r)) [ inl f ↦ rw f rest | inr f ↦ rw (f, e) rest ]
]

pub validate_none :
    (a : ClientAuthenticator) (now token : ℕ)
    → lookup token a.active_sessions ≡ none
    → validate_session a now token ≡ (false, a)
unfolding validate_session check_session
validate_none a now token e = rw e refl

pub validate_some :
    (a : ClientAuthenticator) (now token : ℕ) (s : Session)
    → lookup token a.active_sessions ≡ some s
    → validate_session a now token ≡ (
        if expired a now s
        then (false, record a { active_sessions = erase_key token a.active_sessions })
        else (
          true,
          record a {
            active_sessions = insert token (record s { last_access = now }) a.active_sessions;
          },
        ))
unfolding validate_session check_session
validate_some a now token s e = rw e refl

validate-Live :
    (token t timeout now other : ℕ) (a : ClientAuthenticator)
    → now ≤ t + timeout
    → Live token t timeout a
    → Live token t timeout (validate_session a now other).1
validate-Live token t timeout now other a h (to, s, e, c) =
    elim (Option-cases (lookup other a.active_sessions)) [
      | inl n ↦ rw (validate_none a now other n) (to, s, e, c)
      | inr (r, f) ↦ elim (Bool-cases (other == token)) [
        | inl same ↦
            let o : other ≡ token = ground arith in
            let found : some r ≡ some s = sym f ∙ (rw o e) in
            let q : r ≡ s = cc in
            let created : r.created ≡ t = ap (λ (x : Session). x.created) q ∙ c in
            let fresh : expired a now r ≡ false = ground arith in
            rw (validate_some a now other r f, fresh)
              (
                to,
                record r { last_access = now },
                lookup-insert other token _ a.active_sessions ∙ rw same refl,
                created,
              )
        | inr differs ↦ elim (Bool-cases (expired a now r)) [
          | inl x ↦
              rw (validate_some a now other r f, x)
                (to, s, lookup-erase_key other token a.active_sessions ∙ rw differs e, c)
          | inr x ↦
              rw (validate_some a now other r f, x)
                (to, s, lookup-insert other token _ a.active_sessions ∙ rw differs e, c)
        ]
      ]
    ]

pub call-Live :
    (token t timeout : ℕ) (c : Call) (a : ClientAuthenticator)
    → Spares token (t + timeout) c
    → Live token t timeout a
    → Live token t timeout (call c a)
unfolding call create_session invalidate_session cleanup_expired_sessions
call-Live token t timeout (creates now other client) a h (to, s, e, c) =
    let differs : (other == token) ≡ false = ground arith in
    (to, s, lookup-insert other token _ a.active_sessions ∙ rw differs e, c)
call-Live token t timeout (invalidates other) a h (to, s, e, c) =
    let differs : (other == token) ≡ false = ground arith in
    (to, s, lookup-erase_key other token a.active_sessions ∙ rw differs e, c)
call-Live token t timeout (cleans now) a h (to, s, e, c) =
    (to, s, lookup-unexpired a now token a.active_sessions s e (ground arith), c)
call-Live token t timeout (validates now other) a h v =
    validate-Live token t timeout now other a h v

calls-Live :
    (token t timeout : ℕ) (cs : List Call) (a : ClientAuthenticator)
    → All (Spares token (t + timeout)) cs
    → Live token t timeout a
    → Live token t timeout (calls cs a)
unfolding calls
calls-Live token t timeout [] a h v = v
calls-Live token t timeout (c ∷ cs) a h v =
    calls-Live token t timeout cs (call c a) h.1 (call-Live token t timeout c a h.0 v)

pub create-Live :
    (a : ClientAuthenticator) (t token client : ℕ)
    → Live token t a.session_timeout (create_session a t token client)
unfolding create_session
create-Live a t token client =
    let s : Session = record { client_id = client; created = t; last_access = t } in
    (refl, s, lookup-insert token token s a.active_sessions ∙ rw (==_refl token) refl, refl)
