-- ===== src/Validation/Configs.antt =====
-- src/input_validation.cpp, `ConfigurationValidator`, with the configuration of include/rtes/config.hpp.
-- Floating-point numbers are a type that is given with the two tests that the code makes of them.
pub mod Accepted
use rtes.Prelude.{
  ℕ, ◌+◌, Bool, true, false, List, [], ◌∷◌, ltb, leb, ◌==◌, ◌&&◌, ◌||◌, not, if◌then◌else◌, length,
  contains,
}
use rtes.Validation.Messages.{
  ValidationError, Checked, passed, refused, missing_required_field, invalid_configuration,
  invalid_field_range, invalid_field_format, invalid_field_value,
}

-- What the code asks of a `double`: whether it is above 0, and whether it lies from 0 to 100.
pub record Doubles (D : Type 0) : Type 0 where
  pub is_positive : D → Bool
  pub is_percentage : D → Bool

pub record SymbolConfig (D : Type 0) : Type 0 where
  pub symbol : List ℕ
  pub tick_size : D
  pub lot_size : ℕ
  pub price_collar_pct : D

pub record ExchangeConfig : Type 0 where
  pub name : List ℕ
  pub tcp_port : ℕ
  pub udp_multicast_group : List ℕ
  pub udp_port : ℕ
  pub metrics_port : ℕ

pub record RiskConfig (D : Type 0) : Type 0 where
  pub max_order_size : ℕ
  pub max_notional_per_client : D
  pub max_orders_per_second : ℕ

pub record PerformanceConfig : Type 0 where
  pub order_pool_size : ℕ
  pub queue_capacity : ℕ

-- `Config`, without the parts that are not checked.
pub record Config (D : Type 0) : Type 0 where
  pub exchange : ExchangeConfig
  pub symbols : List (SymbolConfig D)
  pub risk : RiskConfig D
  pub performance : PerformanceConfig

-- Equality of strings
unfoldable pub same_text : List ℕ → List ℕ → Bool
same_text [] [] = true
same_text [] (d ∷ t) = false
same_text (c ∷ s) [] = false
same_text (c ∷ s) (d ∷ t) = (c == d) && same_text s t

unfoldable pub seen : List ℕ → List (List ℕ) → Bool
seen s [] = false
seen s (t ∷ ts) = same_text s t || seen s ts

-- `return a` if it has an error, else what follows
abbrev pub then_check : Checked (Unit {0}) → Checked (Unit {0}) → Checked (Unit {0})
then_check (passed u) next = next
then_check other next = other

-- `validate_port_range` of a word of 16 bits
unfoldable pub validate_port_range : ℕ → Bool
validate_port_range port = leb 1024 port && leb port 65535

-- `validate_exchange_config`; 46 is the dot.
unfoldable pub validate_exchange_config : ExchangeConfig → Checked (Unit {0})
validate_exchange_config c =
    if not (validate_port_range c.tcp_port)
      || not (validate_port_range c.udp_port)
      || not (validate_port_range c.metrics_port)
    then refused invalid_field_range
    else if (length c.udp_multicast_group == 0) || not (contains 46 c.udp_multicast_group)
    then refused invalid_field_format
    else passed tt

-- `validate_performance_config`
unfoldable pub validate_performance_config : PerformanceConfig → Checked (Unit {0})
validate_performance_config c =
    if (c.order_pool_size == 0) || ltb 10000000 c.order_pool_size
    then refused invalid_field_range
    else if (c.queue_capacity == 0) || ltb 1000000 c.queue_capacity
    then refused invalid_field_range
    else passed tt

module _ {D : Type 0} where
  -- `validate_config_schema`
  unfoldable pub validate_config_schema : Config D → Checked (Unit {0})
  validate_config_schema c =
      if length c.exchange.name == 0
      then refused missing_required_field
      else if length c.symbols == 0
      then refused missing_required_field
      else passed tt

  -- `validate_config_dependencies`, without its warning
  unfoldable pub validate_config_dependencies : Config D → Checked (Unit {0})
  validate_config_dependencies c =
      if (c.exchange.tcp_port == c.exchange.udp_port)
        || (c.exchange.tcp_port == c.exchange.metrics_port)
        || (c.exchange.udp_port == c.exchange.metrics_port)
      then refused invalid_configuration
      else passed tt

module _ {D : Type 0} (doubles : Doubles D) where
  -- `validate_risk_config`
  unfoldable pub validate_risk_config : RiskConfig D → Checked (Unit {0})
  validate_risk_config c =
      if (c.max_order_size == 0) || ltb 10000000 c.max_order_size
      then refused invalid_field_range
      else if not (doubles.is_positive c.max_notional_per_client)
      then refused invalid_field_value
      else if (c.max_orders_per_second == 0) || ltb 100000 c.max_orders_per_second
      then refused invalid_field_range
      else passed tt

  -- The loop of `validate_symbol_configs`, with the symbols seen.
  unfoldable pub validate_symbols : List (List ℕ) → List (SymbolConfig D) → Checked (Unit {0})
  validate_symbols names [] = passed tt
  validate_symbols names (c ∷ cs) =
      let rest = validate_symbols (c.symbol ∷ names) cs in
      if (length c.symbol == 0) || ltb 8 (length c.symbol)
      then refused invalid_field_format
      else if seen c.symbol names
      then refused invalid_configuration
      else if not (doubles.is_positive c.tick_size) || (c.lot_size == 0)
      then refused invalid_field_value
      else if not (doubles.is_percentage c.price_collar_pct)
      then refused invalid_field_range
      else rest

  -- `validate_config_values`
  unfoldable pub validate_config_values : Config D → Checked (Unit {0})
  validate_config_values c = then_check (validate_exchange_config c.exchange) (
      then_check (validate_risk_config c.risk)
        (then_check (validate_performance_config c.performance) (validate_symbols [] c.symbols)))

  -- `validate_full_config`
  unfoldable pub validate_full_config : Config D → Checked (Unit {0})
  validate_full_config c =
      then_check (validate_config_schema c)
        (then_check (validate_config_values c) (validate_config_dependencies c))
