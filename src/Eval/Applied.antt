-- ===== src/Eval/Applied.antt =====
-- Operators give values.
use asm.Prelude.{
  ℕ, ◌≡◌, refl, Bool, true, not, ◌&&◌, arith, Bool-cases, inl, inr, Option, none, some,
}
use asm.Prelude.Int.{ℤ}
use asm.Text.{Bytes}
use asm.Node.{Node, undef, node, Attr, node_set_attr, node_set_attr_if}
use asm.Eval.{eval_int}
use asm.Eval.Number.{Machine}
use asm.Eval.Operator.{
  Number, integer, double, neither, number_of, negated, complemented, inverted, only_number,
  only_int, both_int, is_divide, on_strings, string_of_node, float_oper, eval_float_free, Oper1,
  Oper2, apply_oper1, apply_oper2, int_oper, on_numbers, on_ints, on_floats, string_oper,
  eval_int_free, on_number, number_if, is_string,
}
use asm.Eval.Value.{is_value}

pub set_attr-value :
    (n : Node) (attr : Attr) → is_value n ≡ true → is_value (node_set_attr n attr) ≡ true
unfolding is_value
set_attr-value undef attr v = v
set_attr-value (node c a) attr v = v

pub set_attr_if-value :
    (n : Node) (attr : Attr) → is_value n ≡ true → is_value (node_set_attr_if n attr) ≡ true
unfolding is_value node_set_attr_if
set_attr_if-value undef attr v = v
set_attr_if-value (node c a) attr v = ground (arith, v)

module _ (m : Machine) where
  pub only_number-value :
      (k : Number) (n : Node) → is_value n ≡ true → is_value (only_number m k n) ≡ true
  unfolding is_value
  only_number-value (integer v) n h = h
  only_number-value (double v) n h = h
  only_number-value neither n h = refl

  pub negated-value : (k : Number) → is_value (negated m k) ≡ true
  unfolding is_value
  negated-value (integer v) = refl
  negated-value (double v) = refl
  negated-value neither = refl

  pub complemented-value : (k : Option ℤ) → is_value (complemented m k) ≡ true
  unfolding is_value
  complemented-value (some v) = refl
  complemented-value none = refl

  pub inverted-value : (k : Option ℤ) → is_value (inverted m k) ≡ true
  unfolding is_value
  inverted-value (some v) = refl
  inverted-value none = refl

  pub on_number-value :
      (o : Oper1) (n : Node) → is_value n ≡ true → is_value (on_number m o n) ≡ true
  on_number-value Oper1.negate n v = negated-value (number_of n)
  on_number-value Oper1.plus n v = only_number-value (number_of n) n v
  on_number-value Oper1.invert n v = inverted-value (eval_int_free m (number_of n))
  on_number-value Oper1.bit_invert n v = complemented-value (eval_int_free m (number_of n))

  pub number_if-value :
      (b : Bool) (n : Node) → is_value n ≡ true → is_value (number_if m b n) ≡ true
  unfolding is_value eval_int
  number_if-value b n v = ground arith

  pub oper1-value : (o : Oper1) (n : Node) → is_value n ≡ true → is_value (apply_oper1 m o n) ≡ true
  unfolding apply_oper1
  oper1-value o n v =
      on_number-value o (number_if m (is_string n) n) (number_if-value (is_string n) n v)

  pub int_oper-value : (o : Oper2) (a b : ℤ) → is_value (int_oper m o a b) ≡ true
  unfolding is_value int_oper
  int_oper-value o a b = ground arith

  pub float_oper-value : (o : Oper2) (a b : ℕ) → is_value (float_oper m o a b) ≡ true
  unfolding is_value
  float_oper-value o a b = ground arith

  pub on_ints-value : (o : Oper2) (l r : Option ℤ) → is_value (on_ints m o l r) ≡ true
  on_ints-value o (some a) (some b) = int_oper-value o a b
  on_ints-value o (some a) none = unfold is_value in refl
  on_ints-value o none r = unfold is_value in refl

  pub on_floats-value : (o : Oper2) (l r : Option ℕ) → is_value (on_floats m o l r) ≡ true
  on_floats-value o (some a) (some b) = float_oper-value o a b
  on_floats-value o (some a) none = unfold is_value in refl
  on_floats-value o none r = unfold is_value in refl

  pub on_numbers-value : (o : Oper2) (l r : Number) → is_value (on_numbers m o l r) ≡ true
  on_numbers-value o l r =
      let ints = on_ints-value o (eval_int_free m l) (eval_int_free m r) in
      let floats = on_floats-value o (eval_float_free m l) (eval_float_free m r) in
      elim (Bool-cases (only_int m o)) [
        | inl t ↦ rw t ints
        | inr f ↦ rw f elim (Bool-cases (both_int m l r && not (is_divide m o))) [
          | inl t ↦ rw t ints
          | inr g ↦ rw g floats
        ]
      ]

  pub string_oper-value : (o : Oper2) (s t : Bytes) → is_value (string_oper o s t) ≡ true
  unfolding is_value
  string_oper-value o s t = ground arith

  pub on_strings-value :
      (o : Oper2) (s t : Option Bytes) (l r : Node) → is_value (on_strings m o s t l r) ≡ true
  on_strings-value o (some s) (some t) l r = string_oper-value o s t
  on_strings-value o (some s) none l r =
      on_numbers-value o (number_of (eval_int m.to_int l)) (number_of r)
  on_strings-value o none (some t) l r =
      on_numbers-value o (number_of l) (number_of (eval_int m.to_int r))
  on_strings-value o none none l r = on_numbers-value o (number_of l) (number_of r)

  pub oper2-value : (o : Oper2) (l r : Node) → is_value (apply_oper2 m o l r) ≡ true
  unfolding apply_oper2
  oper2-value o l r = on_strings-value o (string_of_node m l) (string_of_node m r) l r
