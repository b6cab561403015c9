-- ===== src/Assemble/Export/Numbers.antt =====
-- src/program.c: the line of a symbol whose value is a number.
use asm.Prelude.{
  ℕ, suc, ◌^◌, ◌<◌, ◌≤◌, true, all, length, ◌≡◌, refl, ap, ◌∙◌, append-nil, some, [], ◌++◌,
}
use asm.Prelude.Int.{pos}
use asm.Text.{Bytes, bytes}
use asm.Node.{Node, node, int, Attr, attr_none}
use asm.Node.Print.{Printer, node_print}
use asm.Node.Print.Number.{is_decimal, decimal_from-node_print, node_print-decimal, node_print-some}
use asm.Dict.{dict_str_equal, dict_lookup}
use asm.Eval.Expression.{decimal_from, eval_node}
use asm.Symbol.{symbol_get, symbol_try_get}
use asm.Assemble.World.{Outside, World}
use asm.Assemble.Export.{print_symbol, print_value, equ_line}

print_symbol-int :
    (p : Printer) (o : Outside) (key : Bytes) (n fuel pass : ℕ) (attr : Attr) (out : Bytes)
    (w : World)
    → o.eval_fuel ≡ suc fuel
    → dict_lookup dict_str_equal w.symbols key
      ≡ some (record { pass = pass; node = node (int (pos n)) attr })
    → print_symbol p o key (out, w) ≡ (out ++ equ_line p key [] (node (int (pos n)) attr_none), w)
unfolding print_symbol print_value symbol_get symbol_try_get eval_node
print_symbol-int p o key n fuel pass attr out w f h = rw (h, f) refl

equ_line-plain :
    (p : Printer) (key : Bytes) (n : Node)
    → equ_line p key [] n ≡ key ++ bytes "\tequ\t" ++ node_print p n ++ bytes "\n"
unfolding equ_line
equ_line-plain p key n =
    ap (λ t. t ++ bytes "\n")
      (append-nil _ ∙ ap (λ t. t ++ node_print p n) (append-nil (key ++ bytes "\tequ\t")))

-- A symbol whose value is an integer without a sign is printed as one line, its name and the number in
-- decimal, with nothing reported: one or more digits and no other character, which read back as the
-- value. The number is below 10 ^ 20, and evaluation has some fuel.
pub print_symbol-number :
    (p : Printer) (o : Outside) (key : Bytes) (n fuel pass : ℕ) (attr : Attr) (out : Bytes)
    (w : World)
    → o.eval_fuel ≡ suc fuel
    → n < 10 ^ 20
    → dict_lookup dict_str_equal w.symbols key
      ≡ some (record { pass = pass; node = node (int (pos n)) attr })
    → (digits : Bytes) × (print_symbol p o key (out, w)
        ≡ (out ++ (key ++ bytes "\tequ\t" ++ digits ++ bytes "\n"), w))
      × (all is_decimal digits ≡ true)
      × (1 ≤ length digits)
      × (decimal_from 0 digits ≡ n)
print_symbol-number p o key n fuel pass attr out w f small h = (
  node_print p (node (int (pos n)) attr_none),
  print_symbol-int p o key n fuel pass attr out w f h
      ∙ ap (λ t. (out ++ t, w)) (equ_line-plain p key (node (int (pos n)) attr_none)),
  node_print-decimal p n,
  node_print-some p n,
  decimal_from-node_print p n small,
)
