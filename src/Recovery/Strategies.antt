-- ===== src/Recovery/Strategies.antt =====
-- src/error_handling.cpp: which strategy takes which error, and what the file strategy finds.
use rtes.Prelude.{
  ℕ, zero, suc, ◌+◌, ◌<◌, ◌≡◌, ◌⊎◌, inl, inr, refl, Bool, true, false, ◌&&◌, none, some, List, [],
  ◌∷◌, arith, if◌then◌else◌, Bool-cases, get_elem?, drop, ap,
}
use rtes.Errors.{ErrorCode, file_not_found, ok, err}
use rtes.Recovery.{
  FileErrorRecovery, find_directory, create_directory, recover_file, settle_file,
  can_recover_network, can_recover_file, can_recover_memory,
}

-- No error code is taken by two strategies.
pub can_recover-disjoint :
    (code : ErrorCode)
    → ((can_recover_network code && can_recover_file code) ≡ false)
      × ((can_recover_network code && can_recover_memory code) ≡ false)
      × ((can_recover_file code && can_recover_memory code) ≡ false)
unfolding can_recover_network can_recover_file can_recover_memory
can_recover-disjoint code = ground arith

module _ (is_directory : ℕ → Bool) where
  -- The path at the offset `k` is a directory, and none before it is.
  abbrev pub FirstDirectory : List ℕ → ℕ → Type 0
  FirstDirectory paths k =
      (path : ℕ) × (get_elem? paths k ≡ some path)
      × (is_directory path ≡ true)
      × ((j p : ℕ) → j < k → get_elem? paths j ≡ some p → is_directory p ≡ false)

  abbrev pub NoDirectory : List ℕ → Type 0
  NoDirectory paths = (j p : ℕ) → get_elem? paths j ≡ some p → is_directory p ≡ false

  no_at :
      (path : ℕ) (paths : List ℕ)
      → ((p : ℕ) → path ≡ p → is_directory p ≡ false)
      → NoDirectory paths
      → NoDirectory (path ∷ paths)
  no_at path paths first absent zero p h = first p (ground arith)
  no_at path paths first absent (suc j) p h = absent j p h

  no_earlier :
      (path : ℕ) (paths : List ℕ)
      → ((p : ℕ) → path ≡ p → is_directory p ≡ false)
      → (j k : ℕ) → ((j p : ℕ) → j < k → get_elem? paths j ≡ some p → is_directory p ≡ false)
      → (p : ℕ) → j < suc k
      → get_elem? (path ∷ paths) j ≡ some p
      → is_directory p ≡ false
  no_earlier path paths first zero k absent p l h = first p (ground arith)
  no_earlier path paths first (suc j) k absent p l h = absent j p (omega arith) h

  find_directory-First :
      (start : ℕ) (paths : List ℕ)
      → ((k : ℕ) × FirstDirectory paths k
          × (find_directory is_directory start paths ≡ some (start + k)))
        ⊎ (NoDirectory paths × (find_directory is_directory start paths ≡ none))
  unfolding find_directory
  find_directory-First start [] = inr (λ j p h. absurd (ground arith), refl)
  find_directory-First start (path ∷ paths) = elim (Bool-cases (is_directory path)) [
    | inl e ↦
        let same : start ≡ start + 0 = omega arith in
        inl (0, (path, refl, e, λ j p l. absurd (omega arith)), rw e (ap some same))
    | inr e ↦
        let first : (p : ℕ) → path ≡ p → is_directory p ≡ false = λ p q. rw q at e in
        elim (find_directory-First (suc start) paths) [
          | inl (k, (found, at_k, is, none_before), q) ↦
              let shift : suc start + k ≡ start + suc k = omega arith in
              inl (
                suc k,
                (found, at_k, is, λ j. no_earlier path paths first j k none_before),
                rw (e, q) (ap some shift),
              )
          | inr (absent, q) ↦ inr (λ j. no_at path paths first absent j, rw (e, q) refl)
        ]
  ]

  -- The file strategy takes the first fallback path from the current index on that is a directory, and
  -- makes it the current one; where there is none it keeps the index, and succeeds exactly where one of
  -- the directories can be created.
  pub recover_file-First :
      (creates : ℕ → Bool) (r : FileErrorRecovery)
      → ((k : ℕ) × FirstDirectory (drop r.current_fallback_index r.fallback_paths) k
          × (recover_file is_directory creates r
              ≡ (ok tt, record r { current_fallback_index = r.current_fallback_index + k })))
        ⊎ (NoDirectory (drop r.current_fallback_index r.fallback_paths)
            × (recover_file is_directory creates r ≡ (
              if create_directory creates r.fallback_paths then ok tt else err file_not_found,
              r,
            )))
  unfolding recover_file settle_file
  recover_file-First creates r =
      elim (find_directory-First r.current_fallback_index
        (drop r.current_fallback_index r.fallback_paths)) [
          | inl (k, f, q) ↦ inl (k, f, ap (settle_file creates r) q)
          | inr (absent, q) ↦ inr (absent, ap (settle_file creates r) q)
        ]
