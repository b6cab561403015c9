-- ===== src/Slist.antt =====
-- dt101/slist.c: the merge sort of lists. The lists are values here, so the sort in place is a
-- function; `le a b` is `cmp_func(a, b) <= 0`.
pub mod Sorted
pub mod Cells
use asm.Prelude.{ℕ, zero, suc, Bool, true, false, List, [], ◌∷◌, length}

module _ {ℓ} {A : Type ℓ} (le : A → A → Bool) where
  -- the loop of slist_merge
  pub slist_merge : List A → List A → List A
  slist_merge [] right = right
  slist_merge (x ∷ left) [] = x ∷ left
  slist_merge (x ∷ left) (y ∷ right) = elim (le x y) [
    | true ↦ x ∷ slist_merge left (y ∷ right)
    | false ↦ y ∷ slist_merge (x ∷ left) right
  ]

-- the loop of slist_sort that deals the list out, to the left and to the right in turn
pub deal {ℓ} : {A : Type ℓ} → List A → List A × List A
deal [] = ([], [])
deal (x ∷ []) = (x ∷ [], [])
deal (x ∷ y ∷ list) = let (left, right) = deal list in (x ∷ left, y ∷ right)

module _ {ℓ} {A : Type ℓ} (le : A → A → Bool) where
  -- slist_sort, on fuel; the length of the list is enough, since both halves are shorter
  pub sort_fuel : ℕ → List A → List A
  sort_fuel fuel [] = []
  sort_fuel fuel (x ∷ []) = x ∷ []
  sort_fuel zero (x ∷ y ∷ list) = x ∷ y ∷ list
  sort_fuel (suc fuel) (x ∷ y ∷ list) =
      let halves = deal (x ∷ y ∷ list) in
      slist_merge le (sort_fuel fuel halves.0) (sort_fuel fuel halves.1)

  unfoldable pub slist_sort : List A → List A
  unfolding slist_merge deal sort_fuel
  slist_sort list = sort_fuel (length list) list
