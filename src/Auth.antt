-- ===== src/Auth.antt =====
-- src/security_utils.cpp and src/auth_middleware.cpp: the text that goes to the logs, who a token stands
-- for, what a role may do, and the middleware that puts these before a handler. Texts are lists of
-- bytes. Logging, the checks on file paths and the patterns on symbols are left out.
pub mod Logs
pub mod Tokens
pub mod Requests
use rtes.Prelude.{
  ℕ, zero, suc, ◌+◌, ◌-◌, Bool, true, false, ◌&&◌, ◌||◌, not, List, [], ◌∷◌, ◌++◌, Option, none,
  some, ltb, leb, ◌==◌, if◌then◌else◌, length, take, drop,
}
use rtes.Validation.Configs.{same_text, seen}

-- `CONTROL_CHARS`: all below the space but tab, line feed and carriage return, and the delete character
unfoldable pub is_control : ℕ → Bool
is_control c = leb c 8 || ((c == 11) || ((c == 12) || ((leb 14 c && leb c 31) || (c == 127))))

-- The `switch` of `sanitize_log_input`
unfoldable pub escape : ℕ → List ℕ
escape c =
    if c == 10
    then 92 ∷ 110 ∷ []
    else if c == 13
    then 92 ∷ 114 ∷ []
    else if c == 9
    then 92 ∷ 116 ∷ []
    else if c == 92
    then 92 ∷ 92 ∷ []
    else if c == 34
    then 92 ∷ 34 ∷ []
    else c ∷ []

-- `sanitize_log_input`
unfoldable pub sanitize_log_input : List ℕ → List ℕ
sanitize_log_input [] = []
sanitize_log_input (c ∷ input) =
    let rest = sanitize_log_input input in if is_control c then rest else escape c ++ rest

-- `is_safe_string`
unfoldable pub is_safe_string : List ℕ → Bool
is_safe_string [] = true
is_safe_string (c ∷ input) = not (is_control c) && is_safe_string input

-- `UserRole`
pub data UserRole : Type 0 where
  admin trader viewer system : UserRole

pub record AuthContext : Type 0 where
  pub user_id : List ℕ
  pub role : UserRole
  pub permissions : List (List ℕ)
  pub authenticated : Bool

-- `starts_with`
unfoldable pub starts_with : List ℕ → List ℕ → Bool
starts_with text [] = true
starts_with [] (d ∷ prefix) = false
starts_with (c ∷ text) (d ∷ prefix) = (c == d) && starts_with text prefix

-- "dev_admin_" and "dev_trader_"
abbrev pub dev_admin : List ℕ
dev_admin = 100 ∷ 101 ∷ 118 ∷ 95 ∷ 97 ∷ 100 ∷ 109 ∷ 105 ∷ 110 ∷ 95 ∷ []

abbrev pub dev_trader : List ℕ
dev_trader = 100 ∷ 101 ∷ 118 ∷ 95 ∷ 116 ∷ 114 ∷ 97 ∷ 100 ∷ 101 ∷ 114 ∷ 95 ∷ []

-- "development", "all", "place_order", "cancel_order", "view_positions"
abbrev pub development : List ℕ
development = 100 ∷ 101 ∷ 118 ∷ 101 ∷ 108 ∷ 111 ∷ 112 ∷ 109 ∷ 101 ∷ 110 ∷ 116 ∷ []

abbrev pub all_permissions : List ℕ
all_permissions = 97 ∷ 108 ∷ 108 ∷ []

abbrev pub place_order : List ℕ
place_order = 112 ∷ 108 ∷ 97 ∷ 99 ∷ 101 ∷ 95 ∷ 111 ∷ 114 ∷ 100 ∷ 101 ∷ 114 ∷ []

abbrev pub cancel_order : List ℕ
cancel_order = 99 ∷ 97 ∷ 110 ∷ 99 ∷ 101 ∷ 108 ∷ 95 ∷ 111 ∷ 114 ∷ 100 ∷ 101 ∷ 114 ∷ []

abbrev pub view_positions : List ℕ
view_positions =
    118 ∷ 105 ∷ 101 ∷ 119 ∷ 95 ∷ 112 ∷ 111 ∷ 115 ∷ 105 ∷ 116 ∷ 105 ∷ 111 ∷ 110 ∷ 115 ∷ []

-- "shutdown", "config_reload", "user_management"
abbrev pub shutdown : List ℕ
shutdown = 115 ∷ 104 ∷ 117 ∷ 116 ∷ 100 ∷ 111 ∷ 119 ∷ 110 ∷ []

abbrev pub config_reload : List ℕ
config_reload = 99 ∷ 111 ∷ 110 ∷ 102 ∷ 105 ∷ 103 ∷ 95 ∷ 114 ∷ 101 ∷ 108 ∷ 111 ∷ 97 ∷ 100 ∷ []

abbrev pub user_management : List ℕ
user_management =
    117 ∷ 115 ∷ 101 ∷ 114 ∷ 95 ∷ 109 ∷ 97 ∷ 110 ∷ 97 ∷ 103 ∷ 101 ∷ 109 ∷ 101 ∷ 110 ∷ 116 ∷ []

-- `AuthContext ctx;`: the role has no initial value, and `unset` stands for what it happens to be.
abbrev pub new_context : UserRole → AuthContext
new_context unset = record { user_id = []; role = unset; permissions = []; authenticated = false }

-- The value of RTES_AUTH_MODE is `mode`, where it is set.
abbrev pub is_development : Option (List ℕ) → Bool
is_development none = false
is_development (some mode) = same_text mode development

abbrev pub good_length : List ℕ → Bool
good_length token = leb 32 (length token) && leb (length token) 512

-- The two kinds of token of `authenticate_user`
unfoldable pub context_of_token : UserRole → List ℕ → AuthContext
context_of_token unset token =
    if starts_with token dev_admin
    then record {
      user_id = take 16 (drop 10 token);
      role = admin;
      permissions = all_permissions ∷ [];
      authenticated = true;
    }
    else if starts_with token dev_trader
    then record {
      user_id = take 16 (drop 11 token);
      role = trader;
      permissions = place_order ∷ cancel_order ∷ view_positions ∷ [];
      authenticated = true;
    }
    else new_context unset

-- `authenticate_user`
unfoldable pub authenticate_user : Option (List ℕ) → UserRole → List ℕ → AuthContext
authenticate_user mode unset token =
    if not (good_length token)
    then new_context unset
    else if not (is_safe_string token)
    then new_context unset
    else if not (is_development mode)
    then new_context unset
    else context_of_token unset token

abbrev pub is_admin : UserRole → Bool
is_admin admin = true
is_admin _ = false

abbrev pub is_trader : UserRole → Bool
is_trader trader = true
is_trader _ = false

abbrev pub is_viewer : UserRole → Bool
is_viewer viewer = true
is_viewer _ = false

-- `check_permission`
unfoldable pub check_permission : AuthContext → List ℕ → Bool
check_permission ctx permission =
    ctx.authenticated && (is_admin ctx.role || seen permission ctx.permissions)

-- `is_authorized_for_operation`
unfoldable pub is_authorized_for_operation : AuthContext → List ℕ → Bool
is_authorized_for_operation ctx operation =
    if not ctx.authenticated
    then false
    else if seen operation (shutdown ∷ config_reload ∷ user_management ∷ [])
    then is_admin ctx.role
    else if seen operation (place_order ∷ cancel_order ∷ view_positions ∷ [])
    then is_admin ctx.role || is_trader ctx.role
    else not (is_viewer ctx.role)

-- `rate_limit_window_`, in milliseconds
abbrev pub rate_limit_window : ℕ
rate_limit_window = 1000

-- `rate_limits_`: when each user was let through last
unfoldable pub last_time : List ℕ → List (List ℕ × ℕ) → Option ℕ
last_time user [] = none
last_time user ((key, time) ∷ limits) =
    if same_text key user then some time else last_time user limits

unfoldable pub set_time : List ℕ → ℕ → List (List ℕ × ℕ) → List (List ℕ × ℕ)
set_time user now [] = (user, now) ∷ []
set_time user now ((key, time) ∷ limits) =
    let later = set_time user now limits in
    if same_text key user then (key, now) ∷ limits else (key, time) ∷ later

-- `check_rate_limit` at the time `now`
unfoldable pub check_rate_limit : ℕ → List ℕ → List (List ℕ × ℕ) → Bool × List (List ℕ × ℕ)
check_rate_limit now user limits = elim (last_time user limits) [
  | none ↦ (true, set_time user now limits)
  | some time ↦
      if ltb (now - time) rate_limit_window
      then (false, limits)
      else (true, set_time user now limits)
]

-- What a handler does to the world, with its answer; `none` is an exception.
abbrev pub Handler : Type 0 → Type 0
Handler W = AuthContext → List ℕ → W → Option Bool × W

abbrev pub answer_of : Option Bool → Bool
answer_of none = false
answer_of (some b) = b

-- `authenticate_and_authorize`, with the limits and the world that it leaves
unfoldable pub authenticate_and_authorize :
    {W : Type 0}
    → Option (List ℕ)
    → UserRole
    → ℕ
    → List ℕ
    → List ℕ
    → List ℕ
    → Handler W
    → List (List ℕ × ℕ)
    → W
    → Bool × List (List ℕ × ℕ) × W
authenticate_and_authorize mode unset now token operation resource handler limits w =
    let ctx = authenticate_user mode unset token in
    let limited = check_rate_limit now ctx.user_id limits in
    let handled = handler ctx resource w in
    if not (is_safe_string token)
    then (false, limits, w)
    else if not ctx.authenticated
    then (false, limits, w)
    else if not limited.0
    then (false, limited.1, w)
    else if not (is_authorized_for_operation ctx operation)
    then (false, limited.1, w)
    else (answer_of handled.0, limited.1, handled.1)

-- `validate_session`
unfoldable pub validate_session : Option (List ℕ) → UserRole → List ℕ → AuthContext
validate_session mode unset token =
    if not (is_safe_string token) then new_context unset else authenticate_user mode unset token

-- `AuthGuard`
unfoldable pub auth_guard : Option (List ℕ) → UserRole → List ℕ → List ℕ → AuthContext × Bool
auth_guard mode unset token operation =
    let ctx = validate_session mode unset token in
    (ctx, if ctx.authenticated then is_authorized_for_operation ctx operation else false)
