-- ===== src/Slist/Sorted.antt =====
-- What `slist_sort` returns: a rearrangement of its list, in order.
use mathlib.Core.List.{Perm, perm_middle}
use mathlib.Core.List.Perm
use asm.Prelude.{
  ℕ, zero, suc, ◌+◌, ◌≤◌, ◌≡◌, Bool, true, false, List, [], ◌∷◌, ◌++◌, append-nil, arith, length,
  Bool-cases, inl, inr,
}
use asm.Slist.{slist_merge, deal, sort_fuel, slist_sort}

abbrev pub All {ℓ κ} : {A : Type ℓ} → (A → Type κ) → List A → Type κ
All P [] = Unit
All P (x ∷ xs) = P x × All P xs

module _ {ℓ} {A : Type ℓ} (le : A → A → Bool) where
  merge-perm : (l r : List A) → Perm (slist_merge le l r) (l ++ r)
  unfolding slist_merge
  merge-perm [] r = Perm.rfl
  merge-perm (x ∷ l) [] = rw (append-nil l) Perm.rfl
  merge-perm (x ∷ l) (y ∷ r) = elim (Bool-cases (le x y)) [
    | inl t ↦ rw (t, slist_merge) (Perm.cons x (merge-perm l (y ∷ r)))
    | inr f ↦
        rw (f, slist_merge)
          (Perm.trans (Perm.cons y (merge-perm (x ∷ l) r)) (Perm.symm (perm_middle (x ∷ l) r)))
  ]

deal-perm {ℓ} : {A : Type ℓ} (l : List A) → Perm ((deal l).0 ++ (deal l).1) l
unfolding deal
deal-perm [] = Perm.rfl
deal-perm (x ∷ []) = Perm.rfl
deal-perm (x ∷ y ∷ l) =
    Perm.cons x (Perm.trans (perm_middle (deal l).0 (deal l).1) (Perm.cons y (deal-perm l)))

module _ {ℓ} {A : Type ℓ} (le : A → A → Bool) where
  sort_fuel-perm : (n : ℕ) (l : List A) → Perm (sort_fuel le n l) l
  unfolding sort_fuel
  sort_fuel-perm zero [] = Perm.rfl
  sort_fuel-perm (suc n) [] = Perm.rfl
  sort_fuel-perm zero (x ∷ []) = Perm.rfl
  sort_fuel-perm (suc n) (x ∷ []) = Perm.rfl
  sort_fuel-perm zero (x ∷ y ∷ l) = Perm.rfl
  sort_fuel-perm (suc n) (x ∷ y ∷ l) =
      let halves = deal (x ∷ y ∷ l) in
      Perm.trans (merge-perm le (sort_fuel le n halves.0) (sort_fuel le n halves.1)) (
        Perm.trans (Perm.append (sort_fuel-perm n halves.0) (sort_fuel-perm n halves.1))
          (deal-perm (x ∷ y ∷ l)))

  -- `slist_sort` neither loses nor invents an element, whatever the comparison.
  pub slist_sort-perm : (l : List A) → Perm (slist_sort le l) l
  unfolding slist_sort
  slist_sort-perm l = sort_fuel-perm (length l) l

-- Every element is related to all behind it.
abbrev pub IsSorted {ℓ κ} : {A : Type ℓ} → (A → A → Type κ) → List A → Type κ
IsSorted R [] = Unit
IsSorted R (x ∷ xs) = All (R x) xs × IsSorted R xs

module _ {ℓ κ} {A : Type ℓ} (le : A → A → Bool) (P : A → Type κ) where
  All-merge : (l r : List A) → All P l → All P r → All P (slist_merge le l r)
  unfolding slist_merge
  All-merge [] r hl hr = hr
  All-merge (x ∷ l) [] hl hr = hl
  All-merge (x ∷ l) (y ∷ r) hl hr = elim (Bool-cases (le x y)) [
    | inl t ↦ rw (t, slist_merge) (hl.0, All-merge l (y ∷ r) hl.1 hr)
    | inr f ↦ rw (f, slist_merge) (hr.0, All-merge (x ∷ l) r hl hr.1)
  ]

All-map {ℓ κ} :
    {A : Type ℓ} {P Q : A → Type κ} (l : List A) → ((a : A) → P a → Q a) → All P l → All Q l
All-map [] f h = h
All-map (x ∷ l) f h = (f x h.0, All-map l f h.1)

length-deal {ℓ} :
    {A : Type ℓ} (l : List A)
    → (length (deal l).0 + length (deal l).1 ≡ length l)
      × (length (deal l).1 ≤ length (deal l).0)
      × (length (deal l).0 ≤ length (deal l).1 + 1)
unfolding deal
length-deal [] = omega arith
length-deal (x ∷ []) = omega arith
length-deal (x ∷ y ∷ l) = omega (arith, length-deal l)

-- An order that the comparison decides: it holds one way where the comparison says so, and the other
-- way where it does not.
module _ {ℓ κ} {A : Type ℓ} (le : A → A → Bool) (R : A → A → Type κ)
    (yes_le : (a b : A) → le a b ≡ true → R a b) (no_le : (a b : A) → le a b ≡ false → R b a)
    (trans : (a b c : A) → R a b → R b c → R a c) where
  merge-IsSorted : (l r : List A) → IsSorted R l → IsSorted R r → IsSorted R (slist_merge le l r)
  unfolding slist_merge
  merge-IsSorted [] r sl sr = sr
  merge-IsSorted (x ∷ l) [] sl sr = sl
  merge-IsSorted (x ∷ l) (y ∷ r) sl sr = elim (Bool-cases (le x y)) [
    | inl t ↦
        let here = yes_le x y t in
        rw (t, slist_merge)
          (
            All-merge le (R x) l (y ∷ r) sl.0 (here, All-map r (λ z. trans x y z here) sr.0),
            merge-IsSorted l (y ∷ r) sl.1 sr,
          )
    | inr f ↦
        let here = no_le x y f in
        rw (f, slist_merge)
          (
            All-merge le (R y) (x ∷ l) r (here, All-map l (λ z. trans y x z here) sl.0) sr.0,
            merge-IsSorted (x ∷ l) r sl sr.1,
          )
  ]

  sort_fuel-IsSorted : (n : ℕ) (l : List A) → length l ≤ suc n → IsSorted R (sort_fuel le n l)
  unfolding sort_fuel
  sort_fuel-IsSorted zero [] h = tt
  sort_fuel-IsSorted (suc n) [] h = tt
  sort_fuel-IsSorted zero (x ∷ []) h = (tt, tt)
  sort_fuel-IsSorted (suc n) (x ∷ []) h = (tt, tt)
  sort_fuel-IsSorted zero (x ∷ y ∷ l) h = absurd (omega arith)
  sort_fuel-IsSorted (suc n) (x ∷ y ∷ l) h =
      let halves = deal (x ∷ y ∷ l) in
      merge-IsSorted (sort_fuel le n halves.0) (sort_fuel le n halves.1)
        (sort_fuel-IsSorted n halves.0 (omega (arith, length-deal (x ∷ y ∷ l))))
        (sort_fuel-IsSorted n halves.1 (omega (arith, length-deal (x ∷ y ∷ l))))

  -- `slist_sort` returns its list in the order that the comparison decides.
  pub slist_sort-IsSorted : (l : List A) → IsSorted R (slist_sort le l)
  unfolding slist_sort
  slist_sort-IsSorted l = sort_fuel-IsSorted (length l) l (omega arith)
