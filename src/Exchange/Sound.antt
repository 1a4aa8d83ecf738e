-- ===== src/Exchange/Sound.antt =====
-- src/exchange.cpp: at every write of start and stop, the engines run while the risk manager runs.
use rtes.Prelude.{
  ◌≡◌, inl, inr, refl, subst, Bool, true, false, List, [], ◌∷◌, ◌++◌, none, some, arith, Bool-cases,
  All, All-append,
}
use rtes.Types.FixedString.{FixedString, of_c_string, eq}
use rtes.Validation.Configs.{SymbolConfig, Config}
use rtes.Exchange.{
  ExchangeState, created, starting, running, stopping, stopped, EngineEntry, Exchange, put_engine,
  initialize_matching_engines, new_exchange, start_running, stop_running, each_engine, every_engine,
  rounds_of, start, stop,
}

-- Every engine runs; every engine stands.
abbrev pub IsUp : List EngineEntry → Type 0
IsUp xs = All (λ x. x.running ≡ true) xs

abbrev pub IsDown : List EngineEntry → Type 0
IsDown xs = All (λ x. x.running ≡ false) xs

-- While the risk manager runs, every engine runs; before the start and after the stop nothing runs.
abbrev pub SoundIn : ExchangeState → List EngineEntry → Bool → Type 0
SoundIn created xs risk = (risk ≡ false) × IsDown xs
SoundIn starting xs risk = risk ≡ true → IsUp xs
SoundIn running xs risk = (risk ≡ true) × IsUp xs
SoundIn stopping xs risk = risk ≡ true → IsUp xs
SoundIn stopped xs risk = (risk ≡ false) × IsDown xs

abbrev pub IsSound : Exchange → Type 0
IsSound e = SoundIn e.state e.engines e.risk_running

start_running-true : (b : Bool) → start_running b ≡ true
start_running-true true = refl
start_running-true false = refl

stop_running-false : (b : Bool) → stop_running b ≡ false
stop_running-false true = refl
stop_running-false false = refl

every_engine-IsUp : (xs : List EngineEntry) → IsUp (every_engine start_running xs)
unfolding every_engine
every_engine-IsUp [] = tt
every_engine-IsUp (x ∷ xs) = (start_running-true x.running, every_engine-IsUp xs)

every_engine-IsDown : (xs : List EngineEntry) → IsDown (every_engine stop_running xs)
unfolding every_engine
every_engine-IsDown [] = tt
every_engine-IsDown (x ∷ xs) = (stop_running-false x.running, every_engine-IsDown xs)

put_engine-IsDown :
    (symbol : FixedString) (xs : List EngineEntry) → IsDown xs → IsDown (put_engine symbol xs)
unfolding put_engine
put_engine-IsDown symbol [] h = (refl, tt)
put_engine-IsDown symbol (x ∷ xs) h = elim (Bool-cases (eq 8 x.symbol symbol)) [
  | inl e ↦ rw e (refl, h.1)
  | inr e ↦ rw e (h.0, put_engine-IsDown symbol xs h.1)
]

initialize-IsDown :
    {D : Type 0}
    → (cs : List (SymbolConfig D)) (xs : List EngineEntry) → IsDown xs
    → IsDown (initialize_matching_engines cs xs)
unfolding initialize_matching_engines
initialize-IsDown [] xs h = h
initialize-IsDown (c ∷ cs) xs h =
    initialize-IsDown cs _ (put_engine-IsDown (of_c_string 8 (some c.symbol)) xs h)

-- What holds with any engines holds in every round of a loop.
rounds_of-All :
    (P : Exchange → Type 0) (e : Exchange) (rounds : List (List EngineEntry))
    → ((xs : List EngineEntry) → P (record e { engines = xs }))
    → All P (rounds_of e rounds)
rounds_of-All P e [] h = tt
rounds_of-All P e (xs ∷ rounds) h = (h xs, rounds_of-All P e rounds h)

-- A call; a start that throws changes nothing.
pub data Call : Type 0 where
  starts stops : Call

unfoldable pub call : Call → Exchange → List Exchange
call starts e = elim (start e) [ none ↦ [] | some es ↦ es ]
call stops e = stop e

abbrev pub last_of : Exchange → List Exchange → Exchange
last_of e [] = e
last_of e (x ∷ xs) = last_of x xs

-- All the exchanges that another thread can see during a list of calls.
unfoldable pub calls : List Call → Exchange → List Exchange
calls [] e = []
calls (c ∷ cs) e = let es = call c e in es ++ calls cs (last_of e es)

starts_in-IsSound :
    (s : ExchangeState) (xs : List EngineEntry) (risk : Bool)
    → SoundIn s xs risk
    → All IsSound (call starts (record { state = s; engines = xs; risk_running = risk }))
unfolding call start
starts_in-IsSound created xs risk h =
    let e1 : Exchange = record { state = starting; engines = xs; risk_running = risk } in
    let up : IsUp (every_engine start_running xs) = every_engine-IsUp xs in
    (
      λ r. absurd (ground arith),
      All-append IsSound (rounds_of e1 (each_engine start_running xs)) _
          (rounds_of-All IsSound e1 (each_engine start_running xs) (λ ys r. absurd (ground arith)))
          (λ r. up, ((start_running-true risk, up), tt)),
    )
starts_in-IsSound starting xs risk h = tt
starts_in-IsSound running xs risk h = tt
starts_in-IsSound stopping xs risk h = tt
starts_in-IsSound stopped xs risk h = tt

stopping-IsSound :
    (xs : List EngineEntry) (risk : Bool)
    → (risk ≡ true → IsUp xs)
    → All IsSound (stop (record { state = starting; engines = xs; risk_running = risk }))
unfolding stop
stopping-IsSound xs risk h =
    let e2 : Exchange = record {
      state = stopping;
      engines = xs;
      risk_running = stop_running risk;
    } in
    let down : stop_running risk ≡ false = stop_running-false risk in
    let quiet : (ys : List EngineEntry) → IsSound (record e2 { engines = ys }) =
      λ ys r. absurd (ground arith) in
    (
      h,
      (
        quiet xs,
        All-append IsSound (rounds_of e2 (each_engine stop_running xs)) _
            (rounds_of-All IsSound e2 (each_engine stop_running xs) quiet)
            ((down, every_engine-IsDown xs), tt),
      ),
    )

stops_in-IsSound :
    (s : ExchangeState) (xs : List EngineEntry) (risk : Bool)
    → SoundIn s xs risk
    → All IsSound (call stops (record { state = s; engines = xs; risk_running = risk }))
unfolding call stop
stops_in-IsSound created xs risk h = tt
stops_in-IsSound starting xs risk h = stopping-IsSound xs risk h
stops_in-IsSound running xs risk h = stopping-IsSound xs risk (λ r. h.1)
stops_in-IsSound stopping xs risk h = tt
stops_in-IsSound stopped xs risk h = tt

call-IsSound : (c : Call) (e : Exchange) → IsSound e → All IsSound (call c e)
call-IsSound starts e h = starts_in-IsSound e.state e.engines e.risk_running h
call-IsSound stops e h = stops_in-IsSound e.state e.engines e.risk_running h

last-All :
    (P : Exchange → Type 0) (e : Exchange) (es : List Exchange) → P e → All P es → P (last_of e es)
last-All P e [] p h = p
last-All P e (x ∷ xs) p h = last-All P x xs h.0 h.1

pub calls-IsSound : (cs : List Call) (e : Exchange) → IsSound e → All IsSound (calls cs e)
unfolding calls
calls-IsSound [] e h = tt
calls-IsSound (c ∷ cs) e h =
    let now : All IsSound (call c e) = call-IsSound c e h in
    All-append IsSound (call c e) _ now (calls-IsSound cs _ (last-All IsSound e (call c e) h now))

pub new_exchange-IsSound :
    {D : Type 0}
    → (config : Config D) (e : Exchange) → new_exchange (some config) ≡ some e
    → IsSound e
unfolding new_exchange
new_exchange-IsSound config e h =
    let x : Exchange = record {
      state = created;
      engines = initialize_matching_engines config.symbols [];
      risk_running = false;
    } in
    let same : some x ≡ some e = h in
    let q : x ≡ e = cc in
    let sound : IsSound x = (refl, initialize-IsDown config.symbols [] tt) in subst IsSound q sound
