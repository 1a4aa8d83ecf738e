-- ===== src/Exchange/Cycle.antt =====
-- src/exchange.cpp: the states of the exchange over its calls, and what get_health says.
use rtes.Prelude.{
  ◌≡◌, inl, inr, refl, ◌∙◌, ap, Bool, true, false, ◌&&◌, List, [], ◌∷◌, ◌++◌, some, arith,
  Bool-cases, All, All-map,
}
use rtes.Validation.Configs.{Config}
use rtes.Exchange.{
  ExchangeState, created, starting, running, stopping, stopped, is_running, EngineEntry, Exchange,
  new_exchange, start_running, stop_running, each_engine, rounds_of, start, stop, ExchangeHealth,
  report_engines, get_health,
}
use rtes.Exchange.Sound.{
  IsUp, SoundIn, IsSound, Call, starts, stops, call, last_of, calls, calls-IsSound,
  new_exchange-IsSound,
}

-- The health as a whole: RUNNING, and a pool that is not nearly full.
abbrev pub IsReported : Exchange → Type 0
IsReported e =
    (pool_healthy : Bool)
    → (get_health e pool_healthy).overall_healthy ≡ (is_running e.state && pool_healthy)

report_engines-IsUp :
    (h : ExchangeHealth) (xs : List EngineEntry)
    → IsUp xs
    → (report_engines h xs).overall_healthy ≡ h.overall_healthy
unfolding report_engines
report_engines-IsUp h [] k = refl
report_engines-IsUp h (x ∷ xs) k = report_engines-IsUp _ xs k.1 ∙ rw (k.0) refl

report_engines-unhealthy :
    (h : ExchangeHealth) (xs : List EngineEntry)
    → h.overall_healthy ≡ false
    → (report_engines h xs).overall_healthy ≡ false
unfolding report_engines
report_engines-unhealthy h [] k = k
report_engines-unhealthy h (x ∷ xs) k =
    report_engines-unhealthy _ xs
      (elim (Bool-cases x.running) [ inl e ↦ rw (e, k) refl | inr e ↦ rw e refl ])

reported :
    (e : Exchange)
    → ((h : ExchangeHealth)
        → h.overall_healthy ≡ is_running e.state
        → (report_engines h e.engines).overall_healthy ≡ is_running e.state)
    → IsReported e
unfolding get_health
reported e k true = k _ refl ∙ ground arith
reported e k false = ground arith

IsReported-in :
    (s : ExchangeState) (xs : List EngineEntry) (risk : Bool)
    → SoundIn s xs risk
    → IsReported (record { state = s; engines = xs; risk_running = risk })
IsReported-in created xs risk h = reported _ (λ r. report_engines-unhealthy r xs)
IsReported-in starting xs risk h = reported _ (λ r. report_engines-unhealthy r xs)
IsReported-in running xs risk h = reported _ (λ r k. report_engines-IsUp r xs h.1 ∙ k)
IsReported-in stopping xs risk h = reported _ (λ r. report_engines-unhealthy r xs)
IsReported-in stopped xs risk h = reported _ (λ r. report_engines-unhealthy r xs)

-- CREATED → RUNNING → STOPPED: a start in another state throws, a stop in another state returns.
abbrev pub next : Call → ExchangeState → ExchangeState
next starts created = running
next starts s = s
next stops running = stopped
next stops starting = stopped
next stops s = s

abbrev pub nexts : List Call → ExchangeState → ExchangeState
nexts [] s = s
nexts (c ∷ cs) s = nexts cs (next c s)

last_of-append :
    (e : Exchange) (xs ys : List Exchange) → last_of e (xs ++ ys) ≡ last_of (last_of e xs) ys
last_of-append e [] ys = refl
last_of-append e (x ∷ xs) ys = last_of-append x xs ys

call_in-next :
    (c : Call) (s : ExchangeState) (xs : List EngineEntry) (risk : Bool)
    → let e : Exchange = record { state = s; engines = xs; risk_running = risk } in
      (last_of e (call c e)).state ≡ next c s
unfolding call start stop
call_in-next starts created xs risk =
    let e1 : Exchange = record { state = starting; engines = xs; risk_running = risk } in
    ap (λ (x : Exchange). x.state)
      (last_of-append e1 (rounds_of e1 (each_engine start_running xs)) _)
call_in-next starts starting xs risk = refl
call_in-next starts running xs risk = refl
call_in-next starts stopping xs risk = refl
call_in-next starts stopped xs risk = refl
call_in-next stops created xs risk = refl
call_in-next stops starting xs risk =
    let e2 : Exchange = record {
      state = stopping;
      engines = xs;
      risk_running = stop_running risk;
    } in
    ap (λ (x : Exchange). x.state)
      (last_of-append e2 (rounds_of e2 (each_engine stop_running xs)) _)
call_in-next stops running xs risk =
    let e2 : Exchange = record {
      state = stopping;
      engines = xs;
      risk_running = stop_running risk;
    } in
    ap (λ (x : Exchange). x.state)
      (last_of-append e2 (rounds_of e2 (each_engine stop_running xs)) _)
call_in-next stops stopping xs risk = refl
call_in-next stops stopped xs risk = refl

calls-nexts : (cs : List Call) (e : Exchange) → (last_of e (calls cs e)).state ≡ nexts cs e.state
unfolding calls
calls-nexts [] e = refl
calls-nexts (c ∷ cs) e =
    let now = last_of e (call c e) in
    ap (λ (x : Exchange). x.state) (last_of-append e (call c e) (calls cs now))
    ∙ calls-nexts cs now
    ∙ ap (nexts cs) (call_in-next c e.state e.engines e.risk_running)

new_exchange-created :
    {D : Type 0}
    → (config : Config D) (e : Exchange) → new_exchange (some config) ≡ some e
    → e.state ≡ created
unfolding new_exchange
new_exchange-created config e h = ground arith

-- Whatever calls of start and stop follow the construction, in every exchange that another thread can
-- see: every engine runs while the risk manager runs, all of them run in the state RUNNING and none in
-- CREATED and STOPPED; and get_health calls the exchange healthy exactly in the state RUNNING with a
-- healthy pool. The calls end in the state that CREATED reaches when a first start leads to RUNNING and
-- a stop leads from RUNNING to STOPPED.
pub calls-Sound :
    {D : Type 0}
    → (config : Config D) (e : Exchange) (cs : List Call) → new_exchange (some config) ≡ some e
    → All (λ x. IsSound x × IsReported x) (calls cs e)
      × ((last_of e (calls cs e)).state ≡ nexts cs created)
calls-Sound config e cs h = (
  All-map IsSound (λ x. IsSound x × IsReported x) (calls cs e)
      (λ x s. (s, IsReported-in x.state x.engines x.risk_running s))
      (calls-IsSound cs e (new_exchange-IsSound config e h)),
  calls-nexts cs e ∙ ap (nexts cs) (new_exchange-created config e h),
)
