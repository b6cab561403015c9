-- ===== src/Node/Print/Number.antt =====
-- src/node.c: a number that is printed in decimal reads back as itself.
use asm.Prelude.{
  ℕ, zero, suc, ◌+◌, ◌*◌, ◌/◌, ◌-◌, ◌%◌, ◌^◌, ◌<◌, ◌≡◌, refl, ap, append-nil, ◌∙◌, Bool-cases, inl,
  inr, [], ◌∷◌, ltb, leb, ◌&&◌, arith, true, Bool, all, length, ◌≤◌, ltb→lt,
}
use asm.Prelude.Int.{pos}
use asm.Text.{Bytes}
use asm.Node.{node, int, attr_none}
use asm.Node.Print.{Printer, node_print}
use asm.Eval.Expression.{decimal_from, digits, print_int}

decimal_from-digit :
    (v d : ℕ) (s : Bytes) → d < 10 → decimal_from v ((0x30 + d) ∷ s) ≡ decimal_from (v * 10 + d) s
decimal_from-digit v d s h = rw (is_digit, value) refl
  where
    is_digit : leb 0x30 (0x30 + d) && leb (0x30 + d) 0x39 ≡ true
    is_digit = ground (arith, h)

    value : v * 10 + (0x30 + d - 0x30) ≡ v * 10 + d
    value = omega arith

power_suc : (fuel : ℕ) → 10 ^ suc fuel ≡ 10 * 10 ^ fuel
power_suc fuel = omega arith

decimal_from-digits :
    (fuel n : ℕ) (s : Bytes) → n < 10 ^ fuel → decimal_from 0 (digits fuel n s) ≡ decimal_from n s
unfolding digits
decimal_from-digits zero n s h = ap (λ v. decimal_from v s) (omega (arith, h))
decimal_from-digits (suc fuel) n s h = elim (Bool-cases (ltb n 10)) [
  | inl t ↦
      rw t (decimal_from-digit 0 n s (ground (arith, t)) ∙ ap (λ v. decimal_from v s) (omega arith))
  | inr f ↦ rw f (
      decimal_from-digits fuel (n / 10) ((0x30 + n % 10) ∷ s) (omega (arith, h, power_suc fuel))
      ∙ decimal_from-digit (n / 10) (n % 10) s (omega arith)
      ∙ ap (λ v. decimal_from v s) (omega arith))
]

decimal_from-print_int : (n : ℕ) → n < 10 ^ 20 → decimal_from 0 (print_int (pos n)) ≡ n
unfolding print_int
decimal_from-print_int n h = decimal_from-digits 20 n [] h

-- A number without a sign that is printed, for an exports or a symbols file, reads back as itself: twenty
-- digits are enough for every number of 64 bits.
pub decimal_from-node_print :
    (p : Printer) (n : ℕ)
    → n < 10 ^ 20
    → decimal_from 0 (node_print p (node (int (pos n)) attr_none)) ≡ n
unfolding node_print
decimal_from-node_print p n h =
    ap (decimal_from 0) (append-nil (print_int (pos n))) ∙ decimal_from-print_int n h

abbrev pub is_decimal : ℕ → Bool
is_decimal c = leb b'0' c && leb c b'9'

digits-decimal :
    (fuel n : ℕ) (s : Bytes) → all is_decimal s ≡ true → all is_decimal (digits fuel n s) ≡ true
unfolding digits
digits-decimal zero n s h = h
digits-decimal (suc fuel) n s h = elim (Bool-cases (ltb n 10)) [
  | inl t ↦ rw t (rw (decimal n (ltb→lt n 10 t)) h)
  | inr f ↦
      rw f
        (digits-decimal fuel (n / 10) ((b'0' + n % 10) ∷ s) (rw (decimal (n % 10) (omega arith)) h))
]
  where
    decimal : (d : ℕ) → d < 10 → is_decimal (b'0' + d) ≡ true
    decimal d k = ground (arith, k)

length-digits : (fuel n : ℕ) (s : Bytes) → length s ≤ length (digits fuel n s)
unfolding digits
length-digits zero n s = omega arith
length-digits (suc fuel) n s = ground (arith, length-digits fuel (n / 10) ((b'0' + n % 10) ∷ s))

digits-some : (fuel n : ℕ) (s : Bytes) → 1 ≤ length (digits (suc fuel) n s)
unfolding digits
digits-some fuel n s = ground (arith, length-digits fuel (n / 10) ((b'0' + n % 10) ∷ s))

-- What is printed for a number without a sign has digits only, and at least one.
pub node_print-decimal :
    (p : Printer) (n : ℕ) → all is_decimal (node_print p (node (int (pos n)) attr_none)) ≡ true
unfolding node_print print_int
node_print-decimal p n =
    ap (all is_decimal) (append-nil (print_int (pos n))) ∙ digits-decimal 20 n [] refl

pub node_print-some :
    (p : Printer) (n : ℕ) → 1 ≤ length (node_print p (node (int (pos n)) attr_none))
unfolding node_print print_int
node_print-some p n = ap-le (append-nil (print_int (pos n))) (digits-some 19 n [])
  where
    ap-le : {s t : Bytes} → s ≡ t → 1 ≤ length t → 1 ≤ length s
    ap-le e h = omega (arith, ap length e, h)
