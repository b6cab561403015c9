-- ===== src/Eval/Operator.antt =====
-- eval_node_oper_1 and eval_node_oper_2: the operators, on operands that are evaluated.
-- The codes of the operators of two characters are numbers that the parser generator assigns.
use asm.Prelude.{
  ℕ, Bool, true, false, not, ◌&&◌, ◌||◌, Option, none, some, List, [], ◌∷◌, ltb, ◌==◌, bit_and,
  bit_or, bit_xor, if◌then◌else◌,
}
use asm.Prelude.Int.{ℤ, pos, ltb_ℤ, leb_ℤ, eqb_ℤ}
use asm.Text.{Bytes, bytes_eq}
use asm.Node.{Node, undef, node, int, float, string, attr_none}
use asm.Eval.{eval_int}
use asm.Eval.Number.{
  Machine, add64, sub64, mul64, neg64, complement, rem64, bitwise64, shl64, shr64, truth, is_true,
}

pub record Tokens : Type 0 where
  pub shl : ℕ
  pub shr : ℕ
  pub le : ℕ
  pub ge : ℕ
  pub eq : ℕ
  pub ne : ℕ
  pub lor : ℕ
  pub land : ℕ

-- strcmp(s, t) < 0, on bytes as unsigned characters
abbrev pub strcmp_less : Bytes → Bytes → Bool
strcmp_less [] [] = false
strcmp_less [] (y ∷ ys) = true
strcmp_less (x ∷ xs) [] = false
strcmp_less (x ∷ xs) (y ∷ ys) = ltb x y || (x == y && strcmp_less xs ys)

abbrev pub node_new_int : ℤ → Node
node_new_int v = node (int v) attr_none

abbrev pub node_new_float : ℕ → Node
node_new_float v = node (float v) attr_none

-- A string that is not an operand of two strings counts as a number.
abbrev pub is_string : Node → Bool
is_string (node (string s) attr) = true
is_string _ = false

module _ (m : Machine) where
  abbrev pub number_if : Bool → Node → Node
  number_if wanted n = if wanted then eval_int m.to_int n else n

-- A node as a number: an integer, a double, or none.
pub data Number : Type 0 where
  integer : ℤ → Number
  double : ℕ → Number
  neither : Number

abbrev pub number_of : Node → Number
number_of (node (int v) attr) = integer v
number_of (node (float v) attr) = double v
number_of _ = neither

module _ (m : Machine) where
  -- The casts to a double and to an integer that replace a node; a string is no number for them.
  abbrev pub eval_float_free : Number → Option ℕ
  eval_float_free (integer v) = some (m.of_int v)
  eval_float_free (double v) = some v
  eval_float_free neither = none

  abbrev pub eval_int_free : Number → Option ℤ
  eval_int_free (integer v) = some v
  eval_int_free (double v) = some (m.to_int v)
  eval_int_free neither = none

-- The operators that a switch names. `divide` alone is never done on integers.
pub data Oper1 : Type 0 where
  negate plus invert bit_invert : Oper1

pub data Oper2 : Type 0 where
  times divide add sub : Oper2
  less less_eq greater greater_eq equal not_equal : Oper2
  rem shift_left shift_right bits_and bits_xor bits_or both either : Oper2

abbrev pub oper1_of : ℕ → Option Oper1
oper1_of op =
    if op == b'-'
    then some Oper1.negate
    else (if op == b'+'
        then some Oper1.plus
        else (if op == b'!'
            then some Oper1.invert
            else (if op == b'~' then some Oper1.bit_invert else none)))

-- One row of a switch.
abbrev pub first_case {ℓ} : {A : Type ℓ} → ℕ → List (ℕ × A) → Option A
first_case op [] = none
first_case op ((code, a) ∷ cases) =
    let rest = first_case op cases in if op == code then some a else rest

abbrev pub oper2_of : Tokens → ℕ → Option Oper2
oper2_of t op = first_case op (
    (b'*', Oper2.times)
    ∷ (b'/', Oper2.divide)
    ∷ (b'+', Oper2.add)
    ∷ (b'-', Oper2.sub)
    ∷ (b'<', Oper2.less)
    ∷ (t.le, Oper2.less_eq)
    ∷ (b'>', Oper2.greater)
    ∷ (t.ge, Oper2.greater_eq)
    ∷ (t.eq, Oper2.equal)
    ∷ (t.ne, Oper2.not_equal)
    ∷ (b'%', Oper2.rem)
    ∷ (t.shl, Oper2.shift_left)
    ∷ (t.shr, Oper2.shift_right)
    ∷ (b'&', Oper2.bits_and)
    ∷ (b'^', Oper2.bits_xor)
    ∷ (b'|', Oper2.bits_or)
    ∷ (t.land, Oper2.both)
    ∷ (t.lor, Oper2.either)
    ∷ [])

-- On two strings: only comparisons.
abbrev pub string_oper : Oper2 → Bytes → Bytes → Node
string_oper Oper2.less s t = node_new_int (truth (strcmp_less s t))
string_oper Oper2.less_eq s t = node_new_int (truth (not (strcmp_less t s)))
string_oper Oper2.greater s t = node_new_int (truth (strcmp_less t s))
string_oper Oper2.greater_eq s t = node_new_int (truth (not (strcmp_less s t)))
string_oper Oper2.equal s t = node_new_int (truth (bytes_eq s t))
string_oper Oper2.not_equal s t = node_new_int (truth (not (bytes_eq s t)))
string_oper _ s t = undef

module _ (m : Machine) where
  -- On two integers; a division is not asked for.
  unfoldable pub int_oper : Oper2 → ℤ → ℤ → Node
  unfolding bitwise64 add64 sub64 mul64 rem64 shl64 shr64
  int_oper Oper2.times a b = node_new_int (mul64 a b)
  int_oper Oper2.add a b = node_new_int (add64 a b)
  int_oper Oper2.sub a b = node_new_int (sub64 a b)
  int_oper Oper2.less a b = node_new_int (truth (ltb_ℤ a b))
  int_oper Oper2.less_eq a b = node_new_int (truth (leb_ℤ a b))
  int_oper Oper2.greater a b = node_new_int (truth (ltb_ℤ b a))
  int_oper Oper2.greater_eq a b = node_new_int (truth (leb_ℤ b a))
  int_oper Oper2.equal a b = node_new_int (truth (eqb_ℤ a b))
  int_oper Oper2.not_equal a b = node_new_int (truth (not (eqb_ℤ a b)))
  int_oper Oper2.rem a b = node_new_int (rem64 m a b)
  int_oper Oper2.shift_left a b = node_new_int (shl64 m a b)
  int_oper Oper2.shift_right a b = node_new_int (shr64 m a b)
  int_oper Oper2.bits_and a b = node_new_int (bitwise64 bit_and a b)
  int_oper Oper2.bits_xor a b = node_new_int (bitwise64 bit_xor a b)
  int_oper Oper2.bits_or a b = node_new_int (bitwise64 bit_or a b)
  int_oper Oper2.both a b = node_new_int (truth (is_true a && is_true b))
  int_oper Oper2.either a b = node_new_int (truth (is_true a || is_true b))
  int_oper Oper2.divide a b = undef

  -- On two doubles.
  abbrev pub float_oper : Oper2 → ℕ → ℕ → Node
  float_oper Oper2.times a b = node_new_float (m.mul a b)
  float_oper Oper2.divide a b = node_new_float (m.div a b)
  float_oper Oper2.add a b = node_new_float (m.add a b)
  float_oper Oper2.sub a b = node_new_float (m.sub a b)
  float_oper Oper2.less a b = node_new_int (truth (m.less a b))
  float_oper Oper2.less_eq a b = node_new_int (truth (m.less_eq a b))
  float_oper Oper2.greater a b = node_new_int (truth (m.less b a))
  float_oper Oper2.greater_eq a b = node_new_int (truth (m.less_eq b a))
  float_oper Oper2.equal a b = node_new_int (truth (m.equal a b))
  float_oper Oper2.not_equal a b = node_new_int (truth (not (m.equal a b)))
  float_oper _ a b = undef

  abbrev pub only_int : Oper2 → Bool
  only_int Oper2.rem = true
  only_int Oper2.shift_left = true
  only_int Oper2.shift_right = true
  only_int Oper2.bits_and = true
  only_int Oper2.bits_xor = true
  only_int Oper2.bits_or = true
  only_int Oper2.both = true
  only_int Oper2.either = true
  only_int _ = false

  -- Both operands as doubles, or as integers; undefined where one is neither.
  abbrev pub on_floats : Oper2 → Option ℕ → Option ℕ → Node
  on_floats o (some a) (some b) = float_oper o a b
  on_floats o (some a) none = undef
  on_floats o none r = undef

  abbrev pub on_ints : Oper2 → Option ℤ → Option ℤ → Node
  on_ints o (some a) (some b) = int_oper o a b
  on_ints o (some a) none = undef
  on_ints o none r = undef

  abbrev pub is_divide : Oper2 → Bool
  is_divide Oper2.divide = true
  is_divide _ = false

  abbrev pub both_int : Number → Number → Bool
  both_int (integer a) (integer b) = true
  both_int _ _ = false

  abbrev pub on_numbers : Oper2 → Number → Number → Node
  on_numbers o l r =
      if only_int o
      then on_ints o (eval_int_free m l) (eval_int_free m r)
      else (if both_int l r && not (is_divide o)
          then on_ints o (eval_int_free m l) (eval_int_free m r)
          else on_floats o (eval_float_free m l) (eval_float_free m r))

  abbrev pub string_of_node : Node → Option Bytes
  string_of_node (node (string s) attr) = some s
  string_of_node _ = none

  -- The operation on two strings, or on numbers: a string beside another type counts as one.
  abbrev pub on_strings : Oper2 → Option Bytes → Option Bytes → Node → Node → Node
  on_strings o (some s) (some t) l r = string_oper o s t
  on_strings o (some s) none l r = on_numbers o (number_of (eval_int m.to_int l)) (number_of r)
  on_strings o none (some t) l r = on_numbers o (number_of l) (number_of (eval_int m.to_int r))
  on_strings o none none l r = on_numbers o (number_of l) (number_of r)

  unfoldable pub apply_oper2 : Oper2 → Node → Node → Node
  unfolding int_oper eval_int
  apply_oper2 o l r = on_strings o (string_of_node l) (string_of_node r) l r

  abbrev pub negated : Number → Node
  negated (integer v) = node_new_int (neg64 v)
  negated (double v) = node_new_float (m.neg v)
  negated neither = undef

  -- Unary plus returns its operand, where that is a number.
  abbrev pub only_number : Number → Node → Node
  only_number (integer v) arg = arg
  only_number (double v) arg = arg
  only_number neither arg = undef

  abbrev pub inverted : Option ℤ → Node
  inverted (some v) = node_new_int (truth (not (is_true v)))
  inverted none = node_new_int (pos 1)

  abbrev pub complemented : Option ℤ → Node
  complemented (some v) = node_new_int (complement v)
  complemented none = undef

  abbrev pub on_number : Oper1 → Node → Node
  on_number Oper1.negate arg = negated (number_of arg)
  on_number Oper1.plus arg = only_number (number_of arg) arg
  on_number Oper1.invert arg = inverted (eval_int_free m (number_of arg))
  on_number Oper1.bit_invert arg = complemented (eval_int_free m (number_of arg))

  unfoldable pub apply_oper1 : Oper1 → Node → Node
  unfolding eval_int neg64
  apply_oper1 o arg = on_number o (number_if m (is_string arg) arg)
