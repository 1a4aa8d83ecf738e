-- ===== src/Validation/Messages.antt =====
-- src/input_validation.cpp, `MessageValidator`: the checks on messages. A bounded string is given by the
-- bytes of its C string; `thrown` is the exception of an assignment that does not fit.
pub mod Orders
pub mod Sizes
use rtes.Prelude.{
  ℕ, ◌+◌, ◌-◌, Bool, true, false, Option, none, some, List, [], ◌∷◌, ltb, leb, ◌==◌, ◌&&◌, ◌||◌,
  not, if◌then◌else◌, contains, length,
}
use rtes.Protocol.{MessageHeader, header_size}
use rtes.Gateway.Wire.{new_order_size, cancel_order_size, ack_size}
use rtes.Validation.{sanitize_symbol, sanitize_network_input}

pub data ValidationError : Type 0 where
  invalid_message_type invalid_message_size invalid_field_value invalid_field_format :
      ValidationError
  invalid_field_range missing_required_field invalid_configuration schema_violation :
      ValidationError

pub data Checked (A : Type 0) : Type 0 where
  passed : A → Checked A
  refused : ValidationError → Checked A
  thrown : Checked A

-- `sizeof(TradeMessage)` and `sizeof(HeartbeatMessage)`
abbrev pub trade_size : ℕ
trade_size = 92

abbrev pub heartbeat_size : ℕ
heartbeat_size = 36

-- `VALID_MESSAGE_TYPES`
unfoldable pub is_valid_message_type : ℕ → Bool
is_valid_message_type type = contains type (1 ∷ 2 ∷ 101 ∷ 102 ∷ 200 ∷ [])

-- The switches over the message type: the size of the message, or the default.
unfoldable pub expected_size : ℕ → Option ℕ
expected_size type =
    if type == 1
    then some new_order_size
    else if type == 2
    then some cancel_order_size
    else if type == 101
    then some ack_size
    else if type == 102
    then some trade_size
    else if type == 200
    then some heartbeat_size
    else none

unfoldable pub has_size : ℕ → Option ℕ → Bool
has_size size none = false
has_size size (some expected) = size == expected

-- `is_valid_message_size`
unfoldable pub is_valid_message_size : ℕ → ℕ → Bool
is_valid_message_size size type =
    if ltb size header_size || ltb 8192 size then false else has_size size (expected_size type)

-- `validate_message_header`
unfoldable pub validate_message_header : MessageHeader → Checked (Unit {0})
validate_message_header h =
    if not (is_valid_message_type h.type)
    then refused invalid_message_type
    else if not (is_valid_message_size h.length h.type)
    then refused invalid_message_size
    else if h.sequence == 0
    then refused invalid_field_value
    else passed tt

unfoldable pub payload_of_size : ℕ → Option ℕ → Checked (Unit {0})
payload_of_size len none = refused invalid_message_type
payload_of_size len (some size) =
    if not (len == (size - header_size)) then refused invalid_message_size else passed tt

-- `validate_message_payload`; `has_payload` is whether the pointer is not null.
unfoldable pub validate_message_payload : Bool → ℕ → ℕ → Checked (Unit {0})
validate_message_payload has_payload len type =
    if not has_payload && ltb 0 len
    then refused invalid_field_value
    else payload_of_size len (expected_size type)

-- The fields of `NewOrderMessage` that are looked at.
pub record NewOrderMessage : Type 0 where
  pub order_id : ℕ
  pub symbol : List ℕ
  pub side : ℕ
  pub quantity : ℕ
  pub price : ℕ
  pub order_type : ℕ

-- The checks of `sanitize_message_fields` behind the symbol.
unfoldable pub check_fields : NewOrderMessage → Checked NewOrderMessage
check_fields m =
    if not (m.side == 1) && not (m.side == 2)
    then refused invalid_field_value
    else if (m.quantity == 0) || ltb 1000000 m.quantity
    then refused invalid_field_range
    else if (m.order_type == 2) && (m.price == 0)
    then refused invalid_field_value
    else if not (m.order_type == 1) && not (m.order_type == 2)
    then refused invalid_field_value
    else passed m

-- `sanitize_message_fields(NewOrderMessage&)`
unfoldable pub sanitize_new_order : NewOrderMessage → Checked NewOrderMessage
sanitize_new_order m =
    let symbol_str = sanitize_symbol m.symbol in
    if m.order_id == 0
    then refused invalid_field_value
    else if (length symbol_str == 0) || ltb 7 (length symbol_str)
    then refused invalid_field_format
    else check_fields (record m { symbol = symbol_str })

-- `sanitize_message_fields(CancelOrderMessage&)`, of an identifier and a symbol
unfoldable pub sanitize_cancel : ℕ → List ℕ → Checked (List ℕ)
sanitize_cancel order_id symbol =
    let symbol_str = sanitize_symbol symbol in
    if order_id == 0
    then refused invalid_field_value
    else if length symbol_str == 0
    then refused invalid_field_format
    else if leb 8 (length symbol_str)
    then thrown
    else passed symbol_str

-- `sanitize_message_fields(OrderAckMessage&)`, of an identifier, a status and a reason
unfoldable pub sanitize_ack : ℕ → ℕ → List ℕ → Checked (List ℕ)
sanitize_ack order_id status reason =
    let reason_str = sanitize_network_input reason in
    if order_id == 0
    then refused invalid_field_value
    else if (status == 0) || ltb 2 status
    then refused invalid_field_value
    else if leb 32 (length reason_str)
    then thrown
    else passed reason_str
