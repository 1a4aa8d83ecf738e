-- ===== src/Validation/Messages/Orders.antt =====
-- src/input_validation.cpp: what the checks on messages let through.
use rtes.Prelude.{◌≤◌, ◌≡◌, ◌≢◌, ◌⊎◌, All, true, length}
use rtes.Validation.{sanitize_symbol}
use rtes.Validation.Symbols.{is_symbol_char}
use rtes.Validation.Messages.{NewOrderMessage}

-- A new order that every later stage may rely on.
pub record WellFormed (m : NewOrderMessage) : Type 0 where
  pub named : m.order_id ≢ 0
  pub symbol_present : 1 ≤ length (sanitize_symbol m.symbol)
  pub symbol_fits : length (sanitize_symbol m.symbol) ≤ 7
  pub side_known : (m.side ≡ 1) ⊎ (m.side ≡ 2)
  pub some_quantity : 1 ≤ m.quantity
  pub quantity_fits : m.quantity ≤ 1000000
  pub type_known : (m.order_type ≡ 1) ⊎ (m.order_type ≡ 2)
  pub priced : m.order_type ≡ 2 → m.price ≢ 0

-- The message as it is after the cleaning.
abbrev pub cleaned : NewOrderMessage → NewOrderMessage
cleaned m = record m { symbol = sanitize_symbol m.symbol }

-- What a later stage may rely on: the symbol has one to seven characters, digits or capital letters.
pub record Trusted (m : NewOrderMessage) : Type 0 where
  pub named : m.order_id ≢ 0
  pub symbol_length : (1 ≤ length m.symbol) × (length m.symbol ≤ 7)
  pub symbol_chars : All (λ c. is_symbol_char c ≡ true) m.symbol
  pub side_known : (m.side ≡ 1) ⊎ (m.side ≡ 2)
  pub quantity_fits : (1 ≤ m.quantity) × (m.quantity ≤ 1000000)
  pub type_known : (m.order_type ≡ 1) ⊎ (m.order_type ≡ 2)
  pub priced : m.order_type ≡ 2 → m.price ≢ 0
