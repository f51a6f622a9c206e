-- ===== src/Paper/Sorting.antt =====
-- `sorted` with a key, as a stable insertion sort, and what it keeps.
use the_pass.Prelude.{Bool, true, false, List, [], ◌∷◌, All, if◌then◌else◌}

module _ {ℓ} {A : Type ℓ} where
  -- The element goes before those that it is not greater than.
  abbrev pub insert_by : (A → A → Bool) → A → List A → List A
  insert_by le a [] = a ∷ []
  insert_by le a (b ∷ r) = if le a b then a ∷ b ∷ r else b ∷ insert_by le a r

  unfoldable pub sort_by : (A → A → Bool) → List A → List A
  sort_by le [] = []
  sort_by le (a ∷ r) = insert_by le a (sort_by le r)

module _ {ℓ κ} {A : Type ℓ} (P : A → Type κ) (le : A → A → Bool) where
  All-insert_by : (a : A) (xs : List A) → All P (insert_by le a xs) → P a × All P xs
  All-insert_by a [] h = h
  All-insert_by a (b ∷ r) h = go (le a b) (All-insert_by a r) h
    where
      go :
          (t : Bool)
          → (All P (insert_by le a r) → P a × All P r)
          → All P (if t then a ∷ b ∷ r else b ∷ insert_by le a r)
          → P a × All P (b ∷ r)
      go true f p = p
      go false f p = let q = f p.1 in (q.0, (p.0, q.1))

  -- What holds of all elements of the sorted list holds of all that were sorted.
  pub All-sort_by : (xs : List A) → All P (sort_by le xs) → All P xs
  unfolding sort_by
  All-sort_by [] h = h
  All-sort_by (a ∷ r) h = let q = All-insert_by a (sort_by le r) h in (q.0, All-sort_by r q.1)
