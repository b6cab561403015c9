-- ===== src/Prelude/Table.antt =====
-- Facts over a small range, by checking every value.
use asm.Prelude.{ℕ, zero, suc, ◌<◌, ◌≡◌, refl, Bool, true, ◌&&◌, arith}

unfoldable pub each_below : ℕ → (ℕ → Bool) → Bool
each_below zero holds = true
each_below (suc last) holds = each_below last holds && holds last

pub each_below-at :
    (bound : ℕ) (holds : ℕ → Bool) (i : ℕ)
    → each_below bound holds ≡ true
    → i < bound
    → holds i ≡ true
unfolding each_below
each_below-at zero holds i checked small = absurd (omega (arith, small))
each_below-at (suc last) holds i checked small = ground (arith, each_below-at last holds i, small)

pub each_below-of_each :
    (bound : ℕ) (holds : ℕ → Bool)
    → ((i : ℕ) → i < bound → holds i ≡ true)
    → each_below bound holds ≡ true
unfolding each_below
each_below-of_each zero holds each = refl
each_below-of_each (suc last) holds each = ground (
  arith,
  each last (omega arith),
  each_below-of_each last holds (λ i small. each i (omega arith)),
)
