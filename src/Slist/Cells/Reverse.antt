-- ===== src/Slist/Cells/Reverse.antt =====
-- dt101/slist.c: slist_reverse leaves the cells in the opposite order.
use asm.Prelude.{
  ℕ, zero, suc, ◌≤◌, ◌≡◌, refl, true, List, [], ◌∷◌, ◌==◌, and_left, and_right, arith, ==_ne,
  Bool-cases, inl, inr, length,
}
use asm.Slist.Cells.{Memory, set_next, reverse_from, slist_reverse}
use asm.Slist.Cells.Links.{
  Links, absent, distinct, apart, Links-set_next, next-set_next, apart-cons, apart-nil,
}

-- the elements of the first list, reversed, before the second
abbrev pub reversed_onto : List ℕ → List ℕ → List ℕ
reversed_onto [] l = l
reversed_onto (a ∷ cells) l = reversed_onto cells (a ∷ l)

Links-reverse_from :
    (fuel : ℕ) (m : Memory) (list prev : ℕ) (cells before : List ℕ)
    → length cells ≤ fuel
    → Links m list cells
    → Links m prev before
    → distinct cells ≡ true
    → apart cells before ≡ true
    → Links
        (reverse_from fuel list prev m).1
        (reverse_from fuel list prev m).0
        (reversed_onto cells before)
unfolding reverse_from
Links-reverse_from zero m list prev [] before f l k d x = k
Links-reverse_from (suc fuel) m list prev [] before f l k d x = rw l k
Links-reverse_from zero m list prev (a ∷ cells) before f l k d x = absurd (omega (arith, f))
Links-reverse_from (suc fuel) m list prev (a ∷ cells) before f (e, (n, l)) k d x =
    rw (e, ==_ne a 0 n)
      (Links-reverse_from fuel (set_next a prev m) (m.next a) a cells (a ∷ before)
        (omega (arith, f))
        (Links-set_next m a prev (m.next a) cells (and_left (absent a cells) (distinct cells) d) l)
        (
          refl,
          (
            n,
            rw (next-set_next m a prev) (
                Links-set_next m a prev prev before
                  (and_left (absent a before) (apart cells before) x) k),
          ),
        )
        (and_right (absent a cells) (distinct cells) d)
        (apart-cons a cells before (and_left (absent a cells) (distinct cells) d)
          (and_right (absent a before) (apart cells before) x)))

data_of-reverse_from :
    (fuel list prev : ℕ) (m : Memory) → (reverse_from fuel list prev m).1.data_of ≡ m.data_of
unfolding reverse_from
data_of-reverse_from zero list prev m = refl
data_of-reverse_from (suc fuel) list prev m = elim (Bool-cases (list == 0)) [
  | inl t ↦ rw t refl
  | inr f ↦ rw f (data_of-reverse_from fuel (m.next list) list (set_next list prev m))
]

-- A list of distinct cells is relinked in place: afterwards the pointer that is returned leads through
-- the same cells in the opposite order and ends there, and no cell's data has changed. As much fuel as
-- there are cells is enough.
pub Links-slist_reverse :
    (fuel : ℕ) (m : Memory) (list : ℕ) (cells : List ℕ)
    → length cells ≤ fuel
    → Links m list cells
    → distinct cells ≡ true
    → Links (slist_reverse fuel list m).1 (slist_reverse fuel list m).0 (reversed_onto cells [])
      × ((slist_reverse fuel list m).1.data_of ≡ m.data_of)
unfolding slist_reverse
Links-slist_reverse fuel m list cells f l d = (
  Links-reverse_from fuel m list 0 cells [] f l refl d (apart-nil cells),
  data_of-reverse_from fuel list 0 m,
)
