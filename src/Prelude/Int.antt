-- ===== src/Prelude/Int.antt =====
-- Signed integers over the native numbers, and the conversions of C between integer widths:
-- `uint8 z` is `(uint8_t)z`, `int32 z` is `(int)z`, in two's complement.
use asm.Prelude.{
  ℕ, suc, ◌+◌, ◌-◌, ◌*◌, ◌%◌, ◌≤◌, ◌<◌, ◌≡◌, Bool, arith, ltb, leb, ◌==◌, if◌then◌else◌,
}

-- `negsuc n` is -(n + 1).
pub data ℤ : Type 0 where
  pos : ℕ → ℤ
  negsuc : ℕ → ℤ

abbrev pub pos_part : ℤ → ℕ
pos_part (pos n) = n
pos_part (negsuc n) = 0

abbrev pub neg_part : ℤ → ℕ
neg_part (pos n) = 0
neg_part (negsuc n) = suc n

-- a - b, as an integer.
abbrev pub sub_ℕ : ℕ → ℕ → ℤ
sub_ℕ a b = if leb b a then pos (a - b) else negsuc (b - a - 1)

infixl 65 ◌+ℤ◌ ◌-ℤ◌
infix 50 ◌≤ℤ◌
unfoldable pub ◌+ℤ◌ : ℤ → ℤ → ℤ
a +ℤ b = sub_ℕ (pos_part a + pos_part b) (neg_part a + neg_part b)

unfoldable pub ◌-ℤ◌ : ℤ → ℤ → ℤ
a -ℤ b = sub_ℕ (pos_part a + neg_part b) (neg_part a + pos_part b)

abbrev pub ◌≤ℤ◌ : ℤ → ℤ → Type 0
a ≤ℤ b = pos_part a + neg_part b ≤ pos_part b + neg_part a

abbrev pub ltb_ℤ : ℤ → ℤ → Bool
ltb_ℤ a b = ltb (pos_part a + neg_part b) (pos_part b + neg_part a)

abbrev pub leb_ℤ : ℤ → ℤ → Bool
leb_ℤ a b = leb (pos_part a + neg_part b) (pos_part b + neg_part a)

abbrev pub eqb_ℤ : ℤ → ℤ → Bool
eqb_ℤ a b = (pos_part a + neg_part b) == (pos_part b + neg_part a)

-- The remainder of the floored division, so always below `m`.
abbrev pub wrap : ℕ → ℤ → ℕ
wrap m (pos n) = n % m
wrap m (negsuc n) = m - 1 - n % m

abbrev pub uint8 : ℤ → ℕ
uint8 z = wrap 256 z

abbrev pub uint16 : ℤ → ℕ
uint16 z = wrap 65536 z

abbrev pub uint32 : ℤ → ℕ
uint32 z = wrap 4294967296 z

-- The signed number of a pattern below `2 * half`.
abbrev pub signed : ℕ → ℕ → ℤ
signed half w = if ltb w half then pos w else negsuc (2 * half - 1 - w)

unfoldable pub int32 : ℤ → ℤ
int32 z = signed 2147483648 (wrap 4294967296 z)

unfoldable pub int64 : ℤ → ℤ
int64 z = signed 9223372036854775808 (wrap 18446744073709551616 z)

pub +ℤ_parts :
    (a b : ℤ)
    → pos_part (a +ℤ b) + neg_part a + neg_part b ≡ neg_part (a +ℤ b) + pos_part a + pos_part b
unfolding ◌+ℤ◌
+ℤ_parts a b = ground arith

pub -ℤ_parts :
    (a b : ℤ)
    → pos_part (a -ℤ b) + neg_part a + pos_part b ≡ neg_part (a -ℤ b) + pos_part a + neg_part b
unfolding ◌-ℤ◌
-ℤ_parts a b = ground arith

pub eq_of_parts : (a b : ℤ) → pos_part a + neg_part b ≡ pos_part b + neg_part a → a ≡ b
eq_of_parts a b h = ground arith

-- A conversion to `int` keeps every number in range.
pub int32_id : (z : ℤ) → negsuc 2147483647 ≤ℤ z → z ≤ℤ pos 2147483647 → int32 z ≡ z
unfolding int32
int32_id z lo hi = ground arith

pub int64_id :
    (z : ℤ) → negsuc 9223372036854775807 ≤ℤ z → z ≤ℤ pos 9223372036854775807 → int64 z ≡ z
unfolding int64
int64_id z lo hi = ground arith

-- Narrowing after a conversion to 64 bits is narrowing.
pub uint16-int64 : (z : ℤ) → uint16 (int64 z) ≡ uint16 z
unfolding int64
uint16-int64 z = ground arith

pub uint8-int64 : (z : ℤ) → uint8 (int64 z) ≡ uint8 z
unfolding int64
uint8-int64 z = ground arith

-- Sums that wrap may be wrapped once, at the end.
pub int32_add : (p : ℤ) (m n : ℕ) → int32 (int32 (p +ℤ pos m) +ℤ pos n) ≡ int32 (p +ℤ pos (m + n))
unfolding int32 ◌+ℤ◌
int32_add p m n = ground arith

pub int32_add_id :
    (p : ℤ) (n : ℕ)
    → negsuc 2147483647 ≤ℤ p
    → p +ℤ pos n ≤ℤ pos 2147483647
    → int32 (p +ℤ pos n) ≡ p +ℤ pos n
int32_add_id p n low high = int32_id (p +ℤ pos n) (omega (arith, +ℤ_parts p (pos n))) high

pub uint8-lt : (z : ℤ) → uint8 z < 256
uint8-lt z = ground arith

pub uint16-lt : (z : ℤ) → uint16 z < 65536
uint16-lt z = ground arith
