-- ===== src/Validation.antt =====
-- src/input_validation.cpp: the cleaning of text that comes from outside, byte by byte, in the "C"
-- locale and with a signed `char`. Messages and Configs check whole messages and configurations. The
-- rules on strings with floating-point numbers, the chain of rules and logs are left out.
pub mod Messages
pub mod Configs
pub mod Text
pub mod Clean
pub mod Symbols
use rtes.Prelude.{
  ℕ, zero, suc, ◌+◌, ◌-◌, Bool, true, false, List, [], ◌∷◌, ltb, leb, ◌==◌, ◌&&◌, ◌||◌, not,
  if◌then◌else◌, contains, length,
}

-- `DANGEROUS_CHARS`
abbrev pub dangerous_chars : List ℕ
dangerous_chars = 59 ∷ 124 ∷ 38 ∷ 36 ∷ 96 ∷ 40 ∷ 41 ∷ 123 ∷ 125 ∷ 91 ∷ 93 ∷ 60 ∷ 62 ∷ 34 ∷ 39 ∷ []

-- `CONTROL_CHARS`
unfoldable pub is_control : ℕ → Bool
is_control c = leb c 8 || (c == 11) || (c == 12) || (leb 14 c && leb c 31) || (c == 127)

unfoldable pub is_dangerous : ℕ → Bool
is_dangerous c = contains c dangerous_chars

-- The test of `remove_control_chars`: a byte from 128 on is negative as a `char`, so below 0x20.
unfoldable pub is_kept : ℕ → Bool
is_kept c = not (is_control c) && ((leb 32 c && ltb c 128) || (c == 9) || (c == 10) || (c == 13))

unfoldable pub remove_control_chars : List ℕ → List ℕ
remove_control_chars [] = []
remove_control_chars (c ∷ s) =
    let rest = remove_control_chars s in if is_kept c then c ∷ rest else rest

-- `escape_special_chars`: a backslash in front of each dangerous character
unfoldable pub escape_special_chars : List ℕ → List ℕ
escape_special_chars [] = []
escape_special_chars (c ∷ s) =
    let rest = escape_special_chars s in if is_dangerous c then 92 ∷ c ∷ rest else c ∷ rest

-- `std::isspace`
unfoldable pub is_space : ℕ → Bool
is_space c = (c == 32) || (leb 9 c && leb c 13)

-- The loop of `normalize_whitespace`, with `prev_space`.
unfoldable pub collapse : Bool → List ℕ → List ℕ
collapse prev_space [] = []
collapse prev_space (c ∷ s) =
    let spaced = collapse true s in
    let other = collapse false s in
    if is_space c then (if prev_space then spaced else 32 ∷ spaced) else c ∷ other

unfoldable pub trim_front : List ℕ → List ℕ
trim_front [] = []
trim_front (c ∷ s) = if c == 32 then s else c ∷ s

unfoldable pub trim_back : List ℕ → List ℕ
trim_back [] = []
trim_back (c ∷ []) = if c == 32 then [] else c ∷ []
trim_back (c ∷ (d ∷ s)) = c ∷ trim_back (d ∷ s)

unfoldable pub normalize_whitespace : List ℕ → List ℕ
normalize_whitespace s = trim_back (trim_front (collapse false s))

unfoldable pub sanitize_network_input : List ℕ → List ℕ
sanitize_network_input input =
    if (length input == 0) || ltb 8192 (length input)
    then []
    else normalize_whitespace (escape_special_chars (remove_control_chars input))

-- `std::isalnum` and `std::toupper`
unfoldable pub is_alnum : ℕ → Bool
is_alnum c = (leb 48 c && leb c 57) || (leb 65 c && leb c 90) || (leb 97 c && leb c 122)

unfoldable pub to_upper : ℕ → ℕ
to_upper c = if leb 97 c && leb c 122 then c - 32 else c

-- The loop of `sanitize_symbol`, with the room that the result still has.
unfoldable pub take_symbol : ℕ → List ℕ → List ℕ
take_symbol zero s = []
take_symbol (suc room) [] = []
take_symbol (suc room) (c ∷ s) =
    let taken = take_symbol room s in
    let skipped = take_symbol (suc room) s in if is_alnum c then to_upper c ∷ taken else skipped

-- `sanitize_symbol`
unfoldable pub sanitize_symbol : List ℕ → List ℕ
sanitize_symbol s = take_symbol 8 s

-- The loop of `sanitize_client_id`.
unfoldable pub take_client_id : ℕ → List ℕ → List ℕ
take_client_id zero s = []
take_client_id (suc room) [] = []
take_client_id (suc room) (c ∷ s) =
    let taken = take_client_id room s in
    let skipped = take_client_id (suc room) s in
    if is_alnum c || (c == 95) || (c == 45) then c ∷ taken else skipped

-- `sanitize_client_id`
unfoldable pub sanitize_client_id : List ℕ → List ℕ
sanitize_client_id s = take_client_id 32 s
