-- ===== src/Tests/Access.antt =====
-- The theorems on the logs, the middleware and the publisher, applied to a text, a request and a short
-- queue of events.
use rtes.Prelude.{ℕ, ◌≡◌, refl, true, List, [], ◌∷◌, Option, none, some, arith, All, length, ◌+◌}
use rtes.Auth.{sanitize_log_input, Handler}
use rtes.Auth.Logs.{IsLogByte, unescape, without_controls, unescape-sanitize_log_input}
use rtes.Worker.{MarketDataEvent, bbo_update}
use rtes.Publisher.{LocalStats, worker_round}
use rtes.Publisher.Rounds.{NumberedFrom, worker_round-NumberedFrom}

-- A line feed, a control character, a quote and a letter
abbrev text : List ℕ
text = 10 ∷ 7 ∷ 34 ∷ 97 ∷ []

unescape-sanitize_log_input_example :
    All IsLogByte (sanitize_log_input text)
    × (unescape (sanitize_log_input text) ≡ without_controls text)
unescape-sanitize_log_input_example = unescape-sanitize_log_input text

-- "dev_trader_alice000000000000000000000"
abbrev token : List ℕ
token =
    100 ∷ 101 ∷ 118 ∷ 95 ∷ 116 ∷ 114 ∷ 97 ∷ 100 ∷ 101 ∷ 114 ∷ 95 ∷ 97 ∷ 108 ∷ 105 ∷ 99 ∷ 101 ∷ 48
    ∷ 48 ∷ 48 ∷ 48 ∷ 48 ∷ 48 ∷ 48 ∷ 48 ∷ 48 ∷ 48 ∷ 48 ∷ 48 ∷ 48 ∷ 48 ∷ 48 ∷ 48 ∷ 48 ∷ 48 ∷ 48 ∷ 48
    ∷ 48 ∷ []

-- The world is the number of handled requests.
abbrev handler : Handler ℕ
handler ctx resource handled = (some true, handled + 1)

-- The queue is the list of what waits.
abbrev pop_event : List MarketDataEvent → Option MarketDataEvent × List MarketDataEvent
pop_event [] = (none, [])
pop_event (e ∷ es) = (some e, es)

abbrev two_events : List MarketDataEvent
two_events = bbo_update [] 1 2 3 4 ∷ bbo_update [] 5 6 7 8 ∷ []

abbrev stats : LocalStats
stats = record { messages_sent = 0; next_sequence = 1; readings = 0 }

worker_round-NumberedFrom_example :
    let r = worker_round (λ n. n) pop_event length two_events stats in
    NumberedFrom pop_event (λ n. n) 1 two_events r.0
    × (length r.0 ≡ 2)
    × (r.1 ≡ [])
    × (r.2.next_sequence ≡ 3)
worker_round-NumberedFrom_example =
    worker_round-NumberedFrom pop_event (λ n. n) length two_events stats two_events []
      (refl, (refl, refl)) (omega arith) (λ h. refl) (omega arith)
