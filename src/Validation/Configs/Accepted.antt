-- ===== src/Validation/Configs/Accepted.antt =====
-- src/input_validation.cpp: what holds of a configuration that has passed.
use rtes.Prelude.{
  ℕ, ◌≤◌, ◌≡◌, ◌≢◌, refl, Bool, true, false, List, [], ◌∷◌, arith, ltb, ◌==◌, ◌||◌, not,
  if◌then◌else◌, length, All,
}
use rtes.Validation.Messages.{ValidationError, Checked, passed, refused, thrown}
use rtes.Validation.Configs.{
  Doubles, SymbolConfig, Config, seen, then_check, validate_port_range, validate_exchange_config,
  validate_performance_config, validate_config_schema, validate_config_dependencies,
  validate_risk_config, validate_symbols, validate_config_values, validate_full_config,
}

then_check-passed :
    (a b : Checked (Unit {0})) → then_check a b ≡ passed tt → (a ≡ passed tt) × (b ≡ passed tt)
then_check-passed (passed u) b h = (refl, h)
then_check-passed (refused e) b h = absurd (ground arith)
then_check-passed thrown b h = absurd (ground arith)

guard :
    (test : Bool) (e : ValidationError) (rest : Checked (Unit {0}))
    → (if test then refused e else rest) ≡ passed tt
    → (test ≡ false) × (rest ≡ passed tt)
guard true e rest h = absurd (ground arith)
guard false e rest h = (refl, h)

module _ {D : Type 0} (doubles : Doubles D) where
  -- A symbol with a name of 1 to 8 bytes, a positive tick and lot, and a collar in percent
  abbrev pub GoodSymbol : SymbolConfig D → Type 0
  GoodSymbol c =
      (1 ≤ length c.symbol)
      × (length c.symbol ≤ 8)
      × (doubles.is_positive c.tick_size ≡ true)
      × (1 ≤ c.lot_size)
      × (doubles.is_percentage c.price_collar_pct ≡ true)

  -- No name is one of `names`, or comes twice.
  abbrev pub Unseen : List (List ℕ) → List (SymbolConfig D) → Type 0
  Unseen names [] = Unit {0}
  Unseen names (c ∷ cs) = (seen c.symbol names ≡ false) × Unseen (c.symbol ∷ names) cs

  validate_symbols-Good :
      (names : List (List ℕ)) (cs : List (SymbolConfig D))
      → validate_symbols doubles names cs ≡ passed tt
      → All GoodSymbol cs × Unseen names cs
  unfolding validate_symbols
  validate_symbols-Good names [] h = (tt, tt)
  validate_symbols-Good names (c ∷ cs) h =
      let a = guard ((length c.symbol == 0) || ltb 8 (length c.symbol)) _ _ h in
      let b = guard (seen c.symbol names) _ _ a.1 in
      let d = guard (not (doubles.is_positive c.tick_size) || (c.lot_size == 0)) _ _ b.1 in
      let e = guard (not (doubles.is_percentage c.price_collar_pct)) _ _ d.1 in
      let rest = validate_symbols-Good (c.symbol ∷ names) cs e.1 in
      (
        (
          (
            ground (arith, a.0),
            ground (arith, a.0),
            ground (arith, d.0),
            ground (arith, d.0),
            ground (arith, e.0),
          ),
          rest.0,
        ),
        (b.0, rest.1),
      )

  pub record Usable (c : Config D) : Type 0 where
    pub named : 1 ≤ length c.exchange.name
    pub some_symbol : 1 ≤ length c.symbols
    pub good_symbols : All GoodSymbol c.symbols
    pub distinct_symbols : Unseen [] c.symbols
    pub user_ports :
        (1024 ≤ c.exchange.tcp_port)
        × (1024 ≤ c.exchange.udp_port)
        × (1024 ≤ c.exchange.metrics_port)
    pub distinct_ports :
        (c.exchange.tcp_port ≢ c.exchange.udp_port)
        × (c.exchange.tcp_port ≢ c.exchange.metrics_port)
        × (c.exchange.udp_port ≢ c.exchange.metrics_port)
    pub pool_size : (1 ≤ c.performance.order_pool_size) × (c.performance.order_pool_size ≤ 10000000)
    pub queue_size : (1 ≤ c.performance.queue_capacity) × (c.performance.queue_capacity ≤ 1000000)
    pub order_size : (1 ≤ c.risk.max_order_size) × (c.risk.max_order_size ≤ 10000000)
    pub order_rate : (1 ≤ c.risk.max_orders_per_second) × (c.risk.max_orders_per_second ≤ 100000)

  -- A configuration that passes has a name and symbols, all of them with good values and none twice;
  -- three distinct ports from 1024 on; a pool of 1 to 10000000 orders, queues of 1 to 1000000 elements,
  -- orders of 1 to 10000000 and a rate of 1 to 100000: the bounds of the code, wider than those that
  -- docs/INPUT_VALIDATION.md names.
  pub validate_full_config-Usable :
      (c : Config D) → validate_full_config doubles c ≡ passed tt → Usable c
  unfolding validate_full_config validate_config_values validate_config_schema
      validate_config_dependencies validate_exchange_config validate_risk_config
      validate_performance_config validate_port_range
  validate_full_config-Usable c h =
      let whole = then_check-passed (validate_config_schema c) _ h in
      let parts = then_check-passed (validate_config_values doubles c) _ whole.1 in
      let schema = guard (length c.exchange.name == 0) _ _ whole.0 in
      let some_symbols = guard (length c.symbols == 0) _ _ schema.1 in
      let p1 = then_check-passed (validate_exchange_config c.exchange) _ parts.0 in
      let p2 = then_check-passed (validate_risk_config doubles c.risk) _ p1.1 in
      let p3 = then_check-passed (validate_performance_config c.performance) _ p2.1 in
      let ports =
        guard
          (not (validate_port_range c.exchange.tcp_port)
            || not (validate_port_range c.exchange.udp_port)
            || not (validate_port_range c.exchange.metrics_port))
          _ _ p1.0 in
      let size =
        guard ((c.risk.max_order_size == 0) || ltb 10000000 c.risk.max_order_size) _ _ p2.0 in
      let notional = guard (not (doubles.is_positive c.risk.max_notional_per_client)) _ _ size.1 in
      let rate =
        guard ((c.risk.max_orders_per_second == 0) || ltb 100000 c.risk.max_orders_per_second) _ _
          notional.1 in
      let pool =
        guard ((c.performance.order_pool_size == 0) || ltb 10000000 c.performance.order_pool_size) _
          _ p3.0 in
      let queue =
        guard ((c.performance.queue_capacity == 0) || ltb 1000000 c.performance.queue_capacity) _ _
          pool.1 in
      let apart =
        guard
          ((c.exchange.tcp_port == c.exchange.udp_port)
            || (c.exchange.tcp_port == c.exchange.metrics_port)
            || (c.exchange.udp_port == c.exchange.metrics_port))
          _ _ parts.1 in
      let symbols = validate_symbols-Good [] c.symbols p3.1 in
      record {
        named = ground (arith, schema.0);
        some_symbol = ground (arith, some_symbols.0);
        good_symbols = symbols.0;
        distinct_symbols = symbols.1;
        user_ports = ground (arith, ports.0);
        distinct_ports = ground (arith, apart.0);
        pool_size = ground (arith, pool.0);
        queue_size = ground (arith, queue.0);
        order_size = ground (arith, size.0);
        order_rate = ground (arith, rate.0);
      }
