-- ===== src/Tests/Checks.antt =====
-- The theorems on input validation and on the exchange, applied to a text, a message and a
-- configuration.
use rtes.Prelude.{ℕ, ◌≡◌, refl, List, [], ◌∷◌, ltb, All, false}
use rtes.Validation.{sanitize_network_input}
use rtes.Validation.Clean.{Clean, sanitize_network_input-Clean}
use rtes.Validation.Messages.{NewOrderMessage}
use rtes.Validation.Configs.{
  Doubles, Config, validate_full_config, validate_config_values, validate_config_schema,
  validate_config_dependencies, validate_exchange_config, validate_risk_config,
  validate_performance_config, validate_port_range, validate_symbols, seen, same_text,
}
use rtes.Validation.Configs.Accepted.{Usable, validate_full_config-Usable}
use rtes.Exchange.{Exchange, created, new_exchange, initialize_matching_engines}
use rtes.Exchange.Sound.{IsSound, starts, stops, Call, last_of, calls}
use rtes.Exchange.Cycle.{IsReported, nexts, calls-Sound}

-- " a;  b" and "aapl"
abbrev text : List ℕ
text = 32 ∷ 97 ∷ 59 ∷ 32 ∷ 32 ∷ 98 ∷ []

abbrev aapl : List ℕ
aapl = 97 ∷ 97 ∷ 112 ∷ 108 ∷ []

sanitize_network_input-Clean_example : Clean (sanitize_network_input text)
sanitize_network_input-Clean_example = sanitize_network_input-Clean text

abbrev bid : NewOrderMessage
bid = record { order_id = 9; symbol = aapl; side = 1; quantity = 3; price = 101; order_type = 2 }

abbrev upper_bid : NewOrderMessage
upper_bid = record bid { symbol = 65 ∷ 65 ∷ 80 ∷ 76 ∷ [] }

-- Numbers stand in for floating-point numbers.
abbrev whole : Doubles ℕ
whole = record { is_positive = λ d. ltb 0 d; is_percentage = λ d. ltb d 101 }

abbrev config : Config ℕ
config = record {
  exchange = record {
    name = 82 ∷ [];
    tcp_port = 8888;
    udp_multicast_group = 50 ∷ 46 ∷ [];
    udp_port = 9999;
    metrics_port = 8080;
  };
  symbols =
      record { symbol = aapl; tick_size = 1; lot_size = 1; price_collar_pct = 10 }
      ∷ (record { symbol = 98 ∷ []; tick_size = 1; lot_size = 1; price_collar_pct = 10 } ∷ []);
  risk = record { max_order_size = 1000; max_notional_per_client = 5; max_orders_per_second = 100 };
  performance = record { order_pool_size = 1000; queue_capacity = 1000 };
}

validate_full_config-Usable_example : Usable whole config
unfolding validate_full_config validate_config_values validate_config_schema
    validate_config_dependencies validate_exchange_config validate_risk_config
    validate_performance_config validate_port_range validate_symbols seen same_text
validate_full_config-Usable_example = validate_full_config-Usable whole config refl

abbrev fresh : Exchange
fresh = record {
  state = created;
  engines = initialize_matching_engines config.symbols [];
  risk_running = false;
}

-- A stop too early, a start, a start that throws, two stops
abbrev five_calls : List Call
five_calls = stops ∷ starts ∷ starts ∷ stops ∷ stops ∷ []

calls-Sound_example :
    All (λ x. IsSound x × IsReported x) (calls five_calls fresh)
    × ((last_of fresh (calls five_calls fresh)).state ≡ nexts five_calls created)
unfolding new_exchange
calls-Sound_example = calls-Sound config fresh five_calls refl
