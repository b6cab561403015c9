-- ===== src/Eval/Number.antt =====
-- The 64-bit integers and the doubles of expressions.
use asm.Prelude.{ℕ, ◌+◌, ◌*◌, ◌/◌, ◌%◌, ◌^◌, Bool, true, false, not, ◌&&◌, ◌==◌, if◌then◌else◌}
use asm.Prelude.Int.{
  ℤ, pos, negsuc, pos_part, neg_part, ◌+ℤ◌, ◌-ℤ◌, int64, wrap, sub_ℕ, eqb_ℤ, ltb_ℤ, leb_ℤ,
}

-- What a double is to the source: operations on its 64-bit pattern, which the hardware carries out.
-- `undefined` is what the machine leaves of an operation on integers that C does not define: a
-- remainder by zero, a shift by a negative number or by 64 and more.
pub record Machine : Type 0 where
  pub of_int : ℤ → ℕ
  pub to_int : ℕ → ℤ
  pub neg : ℕ → ℕ
  pub add : ℕ → ℕ → ℕ
  pub sub : ℕ → ℕ → ℕ
  pub mul : ℕ → ℕ → ℕ
  pub div : ℕ → ℕ → ℕ
  pub less : ℕ → ℕ → Bool
  pub less_eq : ℕ → ℕ → Bool
  pub equal : ℕ → ℕ → Bool
  pub undefined : ℤ → ℤ → ℤ

infixl 70 ◌*ℤ◌
unfoldable pub ◌*ℤ◌ : ℤ → ℤ → ℤ
a *ℤ b =
    sub_ℕ (pos_part a * pos_part b + neg_part a * neg_part b)
      (pos_part a * neg_part b + neg_part a * pos_part b)

-- A sum, difference or product in 64 bits wraps around.
unfoldable pub add64 : ℤ → ℤ → ℤ
unfolding int64 ◌+ℤ◌
add64 a b = int64 (a +ℤ b)

unfoldable pub sub64 : ℤ → ℤ → ℤ
unfolding int64 ◌-ℤ◌
sub64 a b = int64 (a -ℤ b)

unfoldable pub mul64 : ℤ → ℤ → ℤ
unfolding int64 ◌*ℤ◌
mul64 a b = int64 (a *ℤ b)

unfoldable pub neg64 : ℤ → ℤ
unfolding int64 ◌-ℤ◌
neg64 a = int64 (pos 0 -ℤ a)

-- ~a
abbrev pub complement : ℤ → ℤ
complement (pos n) = negsuc n
complement (negsuc n) = pos n

-- The sign of a remainder is that of its left side.
abbrev signed_rem : ℤ → ℕ → ℤ
signed_rem (pos n) d = pos (n % d)
signed_rem (negsuc n) d = sub_ℕ 0 ((n + 1) % d)

unfoldable pub rem64 : Machine → ℤ → ℤ → ℤ
rem64 m a b = let d = pos_part b + neg_part b in if d == 0 then m.undefined a b else signed_rem a d

abbrev pub pattern64 : ℤ → ℕ
pattern64 a = wrap 18446744073709551616 a

-- An operator on the bits of two patterns.
unfoldable pub bitwise64 : (ℕ → ℕ → ℕ) → ℤ → ℤ → ℤ
unfolding int64
bitwise64 op a b = int64 (pos (op (pattern64 a) (pattern64 b)))

abbrev shift_in_range : ℤ → Bool
shift_in_range b = leb_ℤ (pos 0) b && ltb_ℤ b (pos 64)

unfoldable pub shl64 : Machine → ℤ → ℤ → ℤ
unfolding int64 ◌*ℤ◌
shl64 m a b = if shift_in_range b then int64 (a *ℤ pos (2 ^ pos_part b)) else m.undefined a b

-- A shift to the right keeps the sign.
abbrev floor_shift : ℤ → ℕ → ℤ
floor_shift (pos n) k = pos (n / 2 ^ k)
floor_shift (negsuc n) k = negsuc (n / 2 ^ k)

unfoldable pub shr64 : Machine → ℤ → ℤ → ℤ
shr64 m a b = if shift_in_range b then floor_shift a (pos_part b) else m.undefined a b

-- the value of a comparison
abbrev pub truth : Bool → ℤ
truth true = pos 1
truth false = pos 0

abbrev pub is_true : ℤ → Bool
is_true v = not (eqb_ℤ v (pos 0))
