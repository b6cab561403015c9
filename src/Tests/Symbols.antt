-- ===== src/Tests/Symbols.antt =====
-- Examples of expressions, symbols, local labels, sections and positional variables.
use asm.Prelude.{ℕ, ◌+◌, ◌≡◌, refl, true, false, some, List, [], ◌∷◌, arith}
use asm.Prelude.Int.{pos}
use asm.Text.{bytes}
use asm.Error.{Errors, no_errors}
use asm.Node.{Node, node, string, oper, array, cons, nil, attr_none, node_equal}
use asm.Dict.{dict_lookup}
use asm.Section.Sections.{Sections, section_set, cur_section}
use asm.Section.Consistent.{visit, section_set-visit}
use asm.Interp.{interp_get}
use asm.Eval.Expression.{Env, Result, eval_node}
use asm.Eval.Value.{is_value, height, eval_node-value}
use asm.Eval.Typed.{HoldsValues, eval_node-IsValue}
use asm.Symbol.{Symbols, symbol_set, symbol_try_get, symbol_get}
use asm.Symbol.Table.{symbol_try_get-symbol_set}
use asm.Symbol.Definitions.{Definition, define_all}
use asm.Symbol.Passes.{define_all-again}
use asm.Symbol.Local.{
  SymbolLocal, LocalLabels, symbol_local_table_new, symbol_local_backref, symbol_local_fwdref,
}
use asm.Symbol.Local.Nearest.{symbol_local_backref-last}
use asm.Assemble.World.{env_of}
use asm.Tests.Fixtures.{code_section}
use asm.Tests.Worlds.{
  integers_only, plain_list, compared-within, compared-meets, small, start, number,
}

abbrev pair : Node
pair = node (array (cons (number 5) (cons (node (string (bytes "ab")) attr_none) nil))) attr_none

abbrev plain_env : Env
plain_env = env_of small start

eval_node-value_example : eval_node plain_env 4 pair no_errors ≡ (pair, no_errors)
unfolding is_value height
eval_node-value_example = eval_node-value plain_env 4 pair no_errors refl (omega arith)

HoldsValues-plain_env : HoldsValues plain_env
unfolding is_value symbol_get symbol_try_get dict_lookup interp_get symbol_local_backref
    symbol_local_fwdref symbol_local_table_new
HoldsValues-plain_env = record {
  symbols = λ key e. refl;
  arguments = λ index e. refl;
  backrefs = λ key e. refl;
  fwdrefs = λ key e. refl;
}

abbrev sum : Node
sum = node (oper b'+' (cons (number 5) (cons (number 6) nil))) attr_none

eval_node-IsValue_example : is_value (eval_node plain_env 4 sum no_errors).0 ≡ true
eval_node-IsValue_example = eval_node-IsValue plain_env 4 HoldsValues-plain_env sum no_errors

abbrev two_symbols : Symbols
two_symbols =
    record { key = bytes "a"; value = record { pass = 0; node = number 1 } }
    ∷ record { key = bytes "b"; value = record { pass = 0; node = number 2 } }
    ∷ []

abbrev plain : Node → Errors → Result
plain n e = (n, e)

symbol_try_get-symbol_set_example :
    symbol_try_get
      (symbol_set integers_only.equal plain (bytes "b") (number 3) false 1 two_symbols no_errors).0
      (bytes "b")
    ≡ number 3
unfolding dict_lookup
symbol_try_get-symbol_set_example =
    symbol_try_get-symbol_set integers_only.equal plain (bytes "b") (bytes "b") (number 3) false 1
      two_symbols no_errors

abbrev definitions : List Definition
definitions =
    record { key = bytes "a"; value = number 1 } ∷ record { key = bytes "c"; value = number 9 } ∷ []

define_all-again_example :
    (define_all integers_only.equal plain_env 4 definitions 2
      (define_all integers_only.equal plain_env 4 definitions 1 two_symbols no_errors).0
      no_errors).1
    ≡ no_errors
unfolding is_value height dict_lookup node_equal
define_all-again_example =
    define_all-again integers_only.equal plain_env 4 definitions 1 2 two_symbols no_errors no_errors
      refl refl refl

abbrev at_line : ℕ → SymbolLocal
at_line n = record { line_number = n; node = number (n + 100) }

-- The label 1 stands on the lines 2, 5 and 9.
abbrev labels : LocalLabels
labels = record { key = pos 1; value = at_line 2 ∷ at_line 5 ∷ at_line 9 ∷ [] } ∷ []

symbol_local_backref-last_example :
    symbol_local_backref plain_list labels (pos 1) 7 no_errors ≡ (number 105, no_errors)
unfolding dict_lookup
symbol_local_backref-last_example =
    symbol_local_backref-last plain_list compared-within compared-meets labels (pos 1) 7 no_errors
      (at_line 2 ∷ []) (at_line 5) (at_line 9 ∷ []) refl refl refl refl

abbrev one_section : Sections
one_section = record {
  sections = record { key = bytes "CODE"; value = code_section } ∷ [];
  current = some (bytes "CODE");
}

section_set-visit_example :
    cur_section (
      section_set 0
        (bytes "CODE")
        3
        (visit 0 (bytes "DATA" ∷ bytes "BSS" ∷ []) 3 (section_set 0 (bytes "CODE") 3 one_section)))
    ≡ cur_section (section_set 0 (bytes "CODE") 3 one_section)
section_set-visit_example =
    section_set-visit 0 (bytes "CODE") (bytes "DATA" ∷ bytes "BSS" ∷ []) 3 one_section
