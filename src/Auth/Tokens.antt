-- ===== src/Auth/Tokens.antt =====
-- src/security_utils.cpp: which tokens authenticate a user.
use rtes.Prelude.{
  ℕ, ◌≤◌, ◌≡◌, ◌⊎◌, inl, inr, refl, true, List, [], ◌∷◌, ◌++◌, Option, Bool-cases, arith, length,
  take, drop,
}
use rtes.Auth.{
  UserRole, admin, trader, AuthContext, is_safe_string, starts_with, dev_admin, dev_trader,
  all_permissions, place_order, cancel_order, view_positions, is_development, good_length,
  context_of_token, authenticate_user,
}

-- The token is one of the two accepted prefixes and a rest, which names the user.
abbrev pub Known : List ℕ → List ℕ → UserRole → Type 0
Known token user role =
    ((rest : List ℕ) × (token ≡ dev_admin ++ rest) × (user ≡ take 16 rest) × (role ≡ admin))
    ⊎ ((rest : List ℕ) × (token ≡ dev_trader ++ rest) × (user ≡ take 16 rest) × (role ≡ trader))

abbrev pub permissions_of : UserRole → List (List ℕ)
permissions_of trader = place_order ∷ cancel_order ∷ view_positions ∷ []
permissions_of _ = all_permissions ∷ []

abbrev pub context_of : List ℕ → UserRole → AuthContext
context_of user role = record {
  user_id = user;
  role = role;
  permissions = permissions_of role;
  authenticated = true;
}

append-starts_with :
    (text p : List ℕ) → starts_with text p ≡ true → text ≡ p ++ drop (length p) text
unfolding starts_with
append-starts_with text [] h = refl
append-starts_with [] (d ∷ p) h = absurd (ground arith)
append-starts_with (c ∷ text) (d ∷ p) h = ground (arith, append-starts_with text p)

module _ (mode : Option (List ℕ)) (unset : UserRole) where
  token-Known :
      (token user : List ℕ) (role : UserRole)
      → Known token user role
      → context_of_token unset token ≡ context_of user role
  unfolding context_of_token starts_with
  token-Known token user role (inl (rest, e, u, r)) = rw (e, u, r) refl
  token-Known token user role (inr (rest, e, u, r)) = rw (e, u, r) refl

  Known-token :
      (token : List ℕ)
      → (context_of_token unset token).authenticated ≡ true
      → (user : List ℕ) × (role : UserRole) × Known token user role
  unfolding context_of_token
  Known-token token h = elim (Bool-cases (starts_with token dev_admin)) [
    | inl e ↦ (
      take 16 (drop 10 token),
      admin,
      inl (drop 10 token, append-starts_with token dev_admin e, refl, refl),
    )
    | inr f ↦ elim (Bool-cases (starts_with token dev_trader)) [
      | inl e ↦ (
        take 16 (drop 11 token),
        trader,
        inr (drop 11 token, append-starts_with token dev_trader e, refl, refl),
      )
      | inr g ↦ absurd (ground arith)
    ]
  ]

  pub authenticate-Known :
      (token user : List ℕ) (role : UserRole)
      → 32 ≤ length token
      → length token ≤ 512
      → is_safe_string token ≡ true
      → is_development mode ≡ true
      → Known token user role
      → authenticate_user mode unset token ≡ context_of user role
  unfolding authenticate_user
  authenticate-Known token user role a b s d k =
      let long : good_length token ≡ true = ground arith in
      rw (long, s, d) (token-Known token user role k)

  pub Known-authenticate :
      (token : List ℕ)
      → (authenticate_user mode unset token).authenticated ≡ true
      → (32 ≤ length token)
        × (length token ≤ 512)
        × (is_safe_string token ≡ true)
        × (is_development mode ≡ true)
        × (user : List ℕ) × (role : UserRole) × Known token user role
  unfolding authenticate_user
  Known-authenticate token h =
      let long : good_length token ≡ true = ground arith in
      let safe : is_safe_string token ≡ true = ground arith in
      let dev : is_development mode ≡ true = ground arith in
      let known : (context_of_token unset token).authenticated ≡ true = ground arith in
      let (user, role, k) = Known-token token known in
      (ground arith, ground arith, safe, dev, user, role, k)
