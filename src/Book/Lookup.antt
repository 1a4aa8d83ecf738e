-- ===== src/Book/Lookup.antt =====
-- `order_lookup_` of src/order_book.cpp: a hash map from order identifiers to order pointers, as a
-- list of entries with one entry for a key.
use rtes.Prelude.{ℕ, ◌≡◌, refl, List, [], ◌∷◌, Option, none, some, arith, ◌==◌, if◌then◌else◌}

module _ {ℓ} {V : Type ℓ} where
  -- `m.find(id)`
  unfoldable pub lookup : ℕ → List (ℕ × V) → Option V
  lookup id [] = none
  lookup id ((key, value) ∷ entries) = if key == id then some value else lookup id entries

  -- `m[id] = value`
  unfoldable pub insert : ℕ → V → List (ℕ × V) → List (ℕ × V)
  insert id value [] = (id, value) ∷ []
  insert id value ((key, old) ∷ entries) =
      let later = insert id value entries in
      if key == id then (id, value) ∷ entries else (key, old) ∷ later

  -- `m.erase(id)`
  unfoldable pub erase_key : ℕ → List (ℕ × V) → List (ℕ × V)
  erase_key id [] = []
  erase_key id ((key, old) ∷ entries) =
      let later = erase_key id entries in if key == id then later else (key, old) ∷ later

  pub lookup-insert :
      (id other : ℕ) (value : V) (entries : List (ℕ × V))
      → lookup other (insert id value entries)
        ≡ (if id == other then some value else lookup other entries)
  unfolding insert lookup
  lookup-insert id other value [] = refl
  lookup-insert id other value (entry ∷ entries) =
      ground (arith, lookup-insert id other value entries)

  pub lookup-erase_key :
      (id other : ℕ) (entries : List (ℕ × V))
      → lookup other (erase_key id entries) ≡ (if id == other then none else lookup other entries)
  unfolding erase_key lookup
  lookup-erase_key id other [] = ground arith
  lookup-erase_key id other (entry ∷ entries) = ground (arith, lookup-erase_key id other entries)

  -- A map of one entry.
  pub lookup_single :
      (id key : ℕ) (value : V)
      → lookup id ((key, value) ∷ []) ≡ (if key == id then some value else none)
  unfolding lookup
  lookup_single id key value = refl
