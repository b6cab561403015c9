-- ===== src/Eval.antt =====
-- src/eval.c: the casts of nodes to other types. `float_to_int` is the conversion of a double, given
-- by its bit pattern, to a 64-bit integer.
pub mod Number
pub mod Operator
pub mod Expression
pub mod Value
pub mod Applied
pub mod Typed
use asm.Prelude.{ℕ, ◌+◌, ◌*◌, ◌%◌, [], ◌∷◌, bit_or, ltb, if◌then◌else◌}
use asm.Prelude.Int.{ℤ, pos}
use asm.Text.{Bytes}
use asm.Node.{Node, undef, node, int, float, string}

-- A `char` is signed: a byte from 128 on is extended by ones.
abbrev pub char_bits : ℕ → ℕ
char_bits c = if ltb c 128 then c else 0xffffff00 + c

unfoldable pub string_value : ℕ → Bytes → ℕ
string_value value [] = value
string_value value (c ∷ s) = string_value (bit_or (value * 256 % 4294967296) (char_bits c)) s

module _ (float_to_int : ℕ → ℤ) where
  unfoldable pub eval_int : Node → Node
  unfolding string_value
  eval_int (node (float v) attr) = node (int (float_to_int v)) attr
  eval_int (node (int v) attr) = node (int v) attr
  eval_int (node (string s) attr) = node (int (pos (string_value 0 s))) attr
  eval_int _ = undef
