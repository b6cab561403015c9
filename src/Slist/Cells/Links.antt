-- ===== src/Slist/Cells/Links.antt =====
-- The cells of a list, in their order, and what does not change them.
use asm.Prelude.{
  ℕ, ◌≡◌, ◌≢◌, refl, Bool, true, false, not, ◌&&◌, List, [], ◌∷◌, ◌==◌, all, and_left, and_right,
  arith,
}
use asm.Slist.Cells.{Memory, set_next}

-- The list that starts at the pointer has these cells.
abbrev pub Links : Memory → ℕ → List ℕ → Type 0
Links m p [] = p ≡ 0
Links m p (a ∷ cells) = (p ≡ a) × ((a ≢ 0) × Links m (m.next a) cells)

abbrev pub absent : ℕ → List ℕ → Bool
absent a cells = all (λ b. not (b == a)) cells

abbrev pub distinct : List ℕ → Bool
distinct [] = true
distinct (a ∷ cells) = absent a cells && distinct cells

-- no cell of the first list is one of the second
abbrev pub apart : List ℕ → List ℕ → Bool
apart [] l = true
apart (a ∷ cells) l = absent a l && apart cells l

pub other_cell : (a b : ℕ) → not (b == a) ≡ true → (b == a) ≡ false
other_cell a b h = ground (arith, h)

-- A cell that is not in the list may be linked anew.
pub Links-set_next :
    (m : Memory) (a q p : ℕ) (cells : List ℕ)
    → absent a cells ≡ true
    → Links m p cells
    → Links (set_next a q m) p cells
Links-set_next m a q p [] h l = l
Links-set_next m a q p (b ∷ cells) h (e, (n, l)) = (
  e,
  (
    n,
    rw (other_cell a b (and_left (not (b == a)) (absent a cells) h))
        (Links-set_next m a q (m.next b) cells (and_right (not (b == a)) (absent a cells) h) l),
  ),
)

pub next-set_next : (m : Memory) (a q : ℕ) → (set_next a q m).next a ≡ q
next-set_next m a q = ground arith

pub apart-cons :
    (a : ℕ) (cells l : List ℕ)
    → absent a cells ≡ true
    → apart cells l ≡ true
    → apart cells (a ∷ l) ≡ true
apart-cons a [] l h k = refl
apart-cons a (b ∷ cells) l h k = ground (arith, h, k, apart-cons a cells l)

pub apart-nil : (cells : List ℕ) → apart cells [] ≡ true
apart-nil [] = refl
apart-nil (a ∷ cells) = apart-nil cells
