-- ===== src/Validation/Messages/Sizes.antt =====
-- src/input_validation.cpp: the check on a header and the check on its payload agree.
use rtes.Prelude.{
  ℕ, ◌-◌, ◌≡◌, inl, inr, refl, true, Option, none, some, arith, ltb, ◌==◌, ◌||◌, Bool-cases,
}
use rtes.Protocol.{MessageHeader, header_size}
use rtes.Validation.Messages.{
  passed, expected_size, has_size, is_valid_message_type, is_valid_message_size,
  validate_message_header, payload_of_size, validate_message_payload,
}

has_size_payload :
    (len : ℕ) (o : Option ℕ)
    → has_size len o ≡ true
    → payload_of_size (len - header_size) o ≡ passed tt
unfolding has_size payload_of_size
has_size_payload len none h = absurd (ground arith)
has_size_payload len (some size) h =
    let e : ((len - header_size) == (size - header_size)) ≡ true = ground arith in rw e refl

-- The message type and the length of a header that passes fit each other: the payload of that length
-- passes, too.
pub validate_message_header-payload :
    (h : MessageHeader)
    → validate_message_header h ≡ passed tt
    → validate_message_payload true (h.length - header_size) h.type ≡ passed tt
unfolding validate_message_header validate_message_payload is_valid_message_size
validate_message_header-payload h e = elim (Bool-cases (is_valid_message_type h.type)) [
  | inr t ↦ absurd (ground arith)
  | inl t ↦ elim (Bool-cases (ltb h.length header_size || ltb 8192 h.length)) [
    | inl s ↦ absurd (ground arith)
    | inr s ↦ elim (Bool-cases (has_size h.length (expected_size h.type))) [
      | inr k ↦ absurd (ground arith)
      | inl k ↦ has_size_payload h.length (expected_size h.type) k
    ]
  ]
]
