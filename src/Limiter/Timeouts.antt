-- ===== src/Limiter/Timeouts.antt =====
-- src/network_security.cpp: how long a session is valid, whatever calls come between.
use rtes.Prelude.{
  ℕ, ◌+◌, ◌-◌, ◌≤◌, ◌≡◌, ◌≢◌, inl, inr, refl, sym, subst, ==_ne, ◌∙◌, ap, Bool, true, false, none,
  some, List, [], ◌∷◌, arith, leb, ◌==◌, ◌&&◌, ◌||◌, not, Bool-cases, All, Option-cases,
}
use rtes.Book.Lookup.{lookup, insert, erase_key, lookup-insert, lookup-erase_key}
use rtes.Limiter.{
  Session, ClientAuthenticator, create_session, expired, validate_session, invalidate_session,
  unexpired, cleanup_expired_sessions,
}
use rtes.Limiter.Sessions.{
  Call, creates, validates, invalidates, cleans, call, calls, Live, Spares, validate_none,
  validate_some, call-Live, create-Live,
}

-- When a call is made; an invalidation reads no clock.
abbrev pub time_of : ℕ → Call → ℕ
time_of last (creates now other client) = now
time_of last (validates now other) = now
time_of last (invalidates other) = last
time_of last (cleans now) = now

-- The clock does not go back from `last` on, nor past `now`.
abbrev pub Steady : ℕ → ℕ → List Call → Type 0
Steady last now [] = last ≤ now
Steady last now (c ∷ cs) = (last ≤ time_of last c) × Steady (time_of last c) now cs

-- The call does not draw the token again.
abbrev pub Draws : ℕ → Call → Type 0
Draws token (creates now other client) = other ≢ token
Draws token c = Unit {0}

abbrev pub ends : ℕ → Call → Bool
ends token (invalidates other) = other == token
ends token c = false

-- Whether one of the calls invalidates the token
abbrev pub invalidated : ℕ → List Call → Bool
invalidated token [] = false
invalidated token (c ∷ cs) = ends token c || invalidated token cs

-- Every entry of the token was created at the time `t`.
abbrev Aged : ℕ → ℕ → ℕ × Session → Type 0
Aged token t e = e.0 ≡ token → e.1.created ≡ t

-- The sessions at the time `last`, where `gone` tells whether the token was invalidated.
record Status (token t timeout last : ℕ) (gone : Bool) (a : ClientAuthenticator) : Type 0 where
  timed : a.session_timeout ≡ timeout
  aged : All (Aged token t) a.active_sessions
  absent : gone ≡ true → lookup token a.active_sessions ≡ none
  present : gone ≡ false → last ≤ t + timeout → Live token t timeout a

All-insert :
    (P : ℕ × Session → Type 0) (id : ℕ) (s : Session) (m : List (ℕ × Session))
    → P (id, s)
    → All P m
    → All P (insert id s m)
unfolding insert
All-insert P id s [] p h = (p, tt)
All-insert P id s ((key, old) ∷ m) p h = elim (Bool-cases (key == id)) [
  | inl e ↦ rw e (p, h.1)
  | inr e ↦ rw e (h.0, All-insert P id s m p h.1)
]

All-erase_key :
    (P : ℕ × Session → Type 0) (id : ℕ) (m : List (ℕ × Session)) → All P m → All P (erase_key id m)
unfolding erase_key
All-erase_key P id [] h = tt
All-erase_key P id ((key, old) ∷ m) h = elim (Bool-cases (key == id)) [
  | inl e ↦ rw e (All-erase_key P id m h.1)
  | inr e ↦ rw e (h.0, All-erase_key P id m h.1)
]

All-unexpired :
    (P : ℕ × Session → Type 0) (a : ClientAuthenticator) (now : ℕ) (m : List (ℕ × Session))
    → All P m
    → All P (unexpired a now m)
unfolding unexpired
All-unexpired P a now [] h = tt
All-unexpired P a now ((key, s) ∷ m) h = elim (Bool-cases (expired a now s)) [
  | inl e ↦ rw e (All-unexpired P a now m h.1)
  | inr e ↦ rw e (h.0, All-unexpired P a now m h.1)
]

lookup-Aged :
    (token t : ℕ) (m : List (ℕ × Session)) (s : Session)
    → All (Aged token t) m
    → lookup token m ≡ some s
    → s.created ≡ t
unfolding lookup
lookup-Aged token t [] s h e = absurd (ground arith)
lookup-Aged token t ((key, r) ∷ m) s h e = elim (Bool-cases (key == token)) [
  | inl same ↦
      let found : some r ≡ some s = rw same at e in
      let q : r ≡ s = cc in let k : key ≡ token = ground arith in rw (sym q) (h.0 k)
  | inr differs ↦ lookup-Aged token t m s h.1 (rw differs at e)
]

lookup-Aged-none :
    (token t : ℕ) (m : List (ℕ × Session)) → lookup token m ≡ none → All (Aged token t) m
unfolding lookup
lookup-Aged-none token t [] e = tt
lookup-Aged-none token t ((key, r) ∷ m) e = elim (Bool-cases (key == token)) [
  | inl same ↦ let bad : some r ≡ none = rw same at e in absurd (ground arith)
  | inr differs ↦ (λ k. absurd (ground arith), lookup-Aged-none token t m (rw differs at e))
]

lookup-unexpired-none :
    (a : ClientAuthenticator) (now token : ℕ) (m : List (ℕ × Session))
    → lookup token m ≡ none
    → lookup token (unexpired a now m) ≡ none
unfolding lookup unexpired
lookup-unexpired-none a now token [] e = refl
lookup-unexpired-none a now token ((key, r) ∷ m) e = elim (Bool-cases (key == token)) [
  | inl same ↦ let bad : some r ≡ none = rw same at e in absurd (ground arith)
  | inr differs ↦
      let rest = lookup-unexpired-none a now token m (rw differs at e) in
      elim (Bool-cases (expired a now r)) [ inl f ↦ rw f rest | inr f ↦ rw (f, differs) rest ]
]

-- What holds after a validation holds with the table as it was, with the session erased, and with it
-- accessed again.
validate-by :
    (P : ClientAuthenticator → Type 0) (a : ClientAuthenticator) (now other : ℕ)
    → P a
    → ((s : Session)
        → lookup other a.active_sessions ≡ some s
        → P (record a { active_sessions = erase_key other a.active_sessions })
          × P (record a {
            active_sessions = insert other (record s { last_access = now }) a.active_sessions;
          }))
    → P (validate_session a now other).1
validate-by P a now other h k = elim (Option-cases (lookup other a.active_sessions)) [
  | inl n ↦ subst (λ (r : Bool × ClientAuthenticator). P r.1) (sym (validate_none a now other n)) h
  | inr (s, f) ↦
      subst (λ (r : Bool × ClientAuthenticator). P r.1) (sym (validate_some a now other s f))
        (elim (Bool-cases (expired a now s)) [ inl x ↦ rw x (k s f).0 | inr x ↦ rw x (k s f).1 ])
]

-- A call keeps the ages.
call-Aged :
    (token t : ℕ) (c : Call) (a : ClientAuthenticator)
    → Draws token c
    → All (Aged token t) a.active_sessions
    → All (Aged token t) (call c a).active_sessions
unfolding call create_session invalidate_session cleanup_expired_sessions
call-Aged token t (creates now other client) a d h =
    All-insert (Aged token t) other _ a.active_sessions (λ e. absurd (d e)) h
call-Aged token t (invalidates other) a d h = All-erase_key (Aged token t) other a.active_sessions h
call-Aged token t (cleans now) a d h = All-unexpired (Aged token t) a now a.active_sessions h
call-Aged token t (validates now other) a d h =
    validate-by (λ b. All (Aged token t) b.active_sessions) a now other h
      (λ s f. (
        All-erase_key (Aged token t) other a.active_sessions h,
        All-insert (Aged token t) other _ a.active_sessions
            (λ e. lookup-Aged token t a.active_sessions s h (rw e at f)) h,
      ))

-- A token that is not there stays away, and goes with its invalidation.
call-absent :
    (token : ℕ) (c : Call) (a : ClientAuthenticator)
    → Draws token c
    → lookup token a.active_sessions ≡ none
    → lookup token (call c a).active_sessions ≡ none
unfolding call create_session invalidate_session cleanup_expired_sessions
call-absent token (creates now other client) a d e =
    let differs : (other == token) ≡ false = ground arith in
    lookup-insert other token _ a.active_sessions ∙ rw differs e
call-absent token (invalidates other) a d e =
    lookup-erase_key other token a.active_sessions ∙ ground (arith, e)
call-absent token (cleans now) a d e = lookup-unexpired-none a now token a.active_sessions e
call-absent token (validates now other) a d e =
    validate-by (λ b. lookup token b.active_sessions ≡ none) a now other e
      (λ s f.
        let differs : (other == token) ≡ false = ==_ne other token (λ o.
          let bad : some s ≡ none = sym f ∙ ap (λ k. lookup k a.active_sessions) o ∙ e in
          absurd (ground arith)) in
        (
          lookup-erase_key other token a.active_sessions ∙ rw differs e,
          lookup-insert other token _ a.active_sessions ∙ rw differs e,
        ))

-- What does not end the session comes in time to spare it.
call-Spares :
    (token until last : ℕ) (c : Call)
    → Draws token c
    → ends token c ≡ false
    → time_of last c ≤ until
    → Spares token until c
call-Spares token until last (creates now other client) d e h = d
call-Spares token until last (invalidates other) d e h = ground arith
call-Spares token until last (validates now other) d e h = h
call-Spares token until last (cleans now) d e h = h

call-ends :
    (token : ℕ) (c : Call) (a : ClientAuthenticator)
    → ends token c ≡ true
    → lookup token (call c a).active_sessions ≡ none
unfolding call invalidate_session
call-ends token (creates now other client) a e = absurd (ground arith)
call-ends token (validates now other) a e = absurd (ground arith)
call-ends token (cleans now) a e = absurd (ground arith)
call-ends token (invalidates other) a e = lookup-erase_key other token a.active_sessions ∙ rw e refl

call_timed : (c : Call) (a : ClientAuthenticator) → (call c a).session_timeout ≡ a.session_timeout
unfolding call create_session invalidate_session cleanup_expired_sessions
call_timed (creates now other client) a = refl
call_timed (invalidates other) a = refl
call_timed (cleans now) a = refl
call_timed (validates now other) a =
    validate-by (λ b. b.session_timeout ≡ a.session_timeout) a now other refl (λ s f. (refl, refl))

call-Status :
    (token t timeout last : ℕ) (gone : Bool) (c : Call) (a : ClientAuthenticator)
    → Draws token c
    → last ≤ time_of last c
    → Status token t timeout last gone a
    → Status token t timeout (time_of last c) (gone || ends token c) (call c a)
call-Status token t timeout last gone c a d h v = record {
  timed = call_timed c a ∙ v.timed;
  aged = call-Aged token t c a d v.aged;
  absent = λ g. elim (Bool-cases gone) [
    | inl e ↦ call-absent token c a d (v.absent e)
    | inr e ↦ call-ends token c a (rw e at g)
  ];
  present = λ g k. elim (Bool-cases gone) [
    | inl e ↦ absurd (ground arith)
    | inr e ↦
        call-Live token t timeout c a (call-Spares token (t + timeout) last c d (rw e at g) k)
          (v.present e (omega arith))
  ];
}

invalidated-step :
    (token : ℕ) (gone : Bool) (c : Call) (cs : List Call)
    → ((gone || ends token c) || invalidated token cs) ≡ (gone || invalidated token (c ∷ cs))
invalidated-step token true c cs = refl
invalidated-step token false c cs = refl

answer-Status :
    (token t timeout last now : ℕ) (gone : Bool) (a : ClientAuthenticator)
    → last ≤ now
    → Status token t timeout last gone a
    → (validate_session a now token).0 ≡ (leb (now - t) timeout && not gone)
answer-Status token t timeout last now true a h v =
    rw (validate_none a now token (v.absent refl)) (ground arith)
answer-Status token t timeout last now false a h v =
    elim (Option-cases (lookup token a.active_sessions)) [
      | inl n ↦
          let late : leb last (t + timeout) ≡ false = elim (Bool-cases (leb last (t + timeout))) [
            | inl near ↦
                let (_, s, e, _) = v.present refl (ground arith) in
                let bad : some s ≡ none = sym e ∙ n in absurd (ground arith)
            | inr far ↦ far
          ] in
          rw (validate_none a now token n) (ground arith)
      | inr (s, e) ↦
          let created : s.created ≡ t = lookup-Aged token t a.active_sessions s v.aged e in
          let timed = v.timed in
          elim (Bool-cases (expired a now s)) [
            | inl x ↦ rw (validate_some a now token s e, x) (ground arith)
            | inr x ↦ rw (validate_some a now token s e, x) (ground arith)
          ]
    ]

-- The answer after the calls, and when the clock has not gone back.
calls-Status :
    (token t timeout last now : ℕ) (gone : Bool) (cs : List Call) (a : ClientAuthenticator)
    → All (Draws token) cs
    → Steady last now cs
    → Status token t timeout last gone a
    → (validate_session (calls cs a) now token).0
      ≡ (leb (now - t) timeout && not (gone || invalidated token cs))
unfolding calls
calls-Status token t timeout last now gone [] a d h v =
    answer-Status token t timeout last now gone a h v ∙ ground arith
calls-Status token t timeout last now gone (c ∷ cs) a d h v =
    calls-Status token t timeout (time_of last c) now (gone || ends token c) cs (call c a) d.1 h.1
      (call-Status token t timeout last gone c a d.0 h.0 v)
    ∙ ap (λ b. leb (now - t) timeout && not b) (invalidated-step token gone c cs)

create-Status :
    (a : ClientAuthenticator) (t token client : ℕ)
    → lookup token a.active_sessions ≡ none
    → Status token t a.session_timeout t false (create_session a t token client)
unfolding create_session
create-Status a t token client n = record {
  timed = refl;
  aged =
      All-insert (Aged token t) token _ a.active_sessions (λ e. refl)
        (lookup-Aged-none token t a.active_sessions n);
  absent = λ g. absurd (ground arith);
  present = λ g h. create-Live a t token client;
}

-- A session that was created at the time `t` is valid exactly where its timeout is not over and no call
-- has invalidated it, whatever the calls between are, validations and clean-ups after the timeout
-- included, if the clock does not go back and the token was new and is not drawn again.
pub validate_session-calls :
    (a : ClientAuthenticator) (t token client : ℕ) (cs : List Call) (now : ℕ)
    → lookup token a.active_sessions ≡ none
    → All (Draws token) cs
    → Steady t now cs
    → (validate_session (calls cs (create_session a t token client)) now token).0
      ≡ (leb (now - t) a.session_timeout && not (invalidated token cs))
validate_session-calls a t token client cs now n d h =
    calls-Status token t a.session_timeout t now false cs (create_session a t token client) d h
      (create-Status a t token client n)
