-- ===== src/Auth/Requests.antt =====
-- src/auth_middleware.cpp and src/security_utils.cpp: which requests reach a handler.
use rtes.Prelude.{ℕ, ◌+◌, ◌≤◌, ◌≡◌, ◌⊎◌, true, false, List, [], ◌∷◌, Option, none, some, length}
use rtes.Validation.Configs.{seen}
use rtes.Auth.{
  UserRole, admin, trader, is_safe_string, shutdown, config_reload, user_management, is_development,
  last_time, set_time, Handler, answer_of, authenticate_and_authorize,
}
use rtes.Auth.Tokens.{Known, context_of}

-- A trader may do all but the three operations of administrators.
abbrev pub MayDo : UserRole → List ℕ → Type 0
MayDo admin operation = Unit
MayDo trader operation = seen operation (shutdown ∷ config_reload ∷ user_management ∷ []) ≡ false
MayDo _ operation = ⊥

-- The user has not been let through yet, or 1000 milliseconds ago or longer.
abbrev pub Waited : ℕ → List ℕ → List (List ℕ × ℕ) → Type 0
Waited now user limits =
    (last_time user limits ≡ none)
    ⊎ ((time : ℕ) × (last_time user limits ≡ some time) × (time + 1000 ≤ now))

abbrev pub Admits :
    Option (List ℕ) → ℕ → List ℕ → List ℕ → List (List ℕ × ℕ) → List ℕ → UserRole → Type 0
Admits mode now token operation limits user role =
    (32 ≤ length token)
    × (length token ≤ 512)
    × (is_safe_string token ≡ true)
    × (is_development mode ≡ true)
    × Known token user role
    × Waited now user limits
    × MayDo role operation

module _ {W : Type 0} (handler : Handler W) where
  abbrev pub Outcome :
      Option (List ℕ) → UserRole → ℕ → List ℕ → List ℕ → List ℕ → List (List ℕ × ℕ) → W → Type 0
  Outcome mode unset now token operation resource limits w =
      let r = authenticate_and_authorize mode unset now token operation resource handler limits w in
      ((user : List ℕ) × (role : UserRole) × Admits mode now token operation limits user role
        × (r ≡ (
          answer_of (handler (context_of user role) resource w).0,
          set_time user now limits,
          (handler (context_of user role) resource w).1,
        )))
      ⊎ (((user : List ℕ) (role : UserRole) → ¬ Admits mode now token operation limits user role)
          × (r.0 ≡ false)
          × (r.2 ≡ w))
