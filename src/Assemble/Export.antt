-- ===== src/Assemble/Export.antt =====
-- src/program.c: the exported macros and symbols, and all symbols, as they are printed. The order is the
-- one in which the dictionaries visit their entries.
pub mod Numbers
use asm.Prelude.{Option, none, some, List, [], ◌∷◌, ◌++◌}
use asm.Text.{Bytes, bytes}
use asm.Error.{Errors, syntax}
use asm.Node.{Node, undef, node, Content, int, float, reg, string, attr_none}
use asm.Node.Print.{Printer, node_print, node_print_array}
use asm.Dict.{dict_foreach}
use asm.Eval.Expression.{Result}
use asm.Symbol.{symbol_get, symbol_get_list}
use asm.Assemble.World.{Outside, World, ProgLine, Prog, with_errors, tell, evaluate}
use asm.Assemble.Macro.{prog_macro_by_name}

-- What was written to the file, and the state with the reports.
abbrev pub Written : Type 0
Written = Bytes × World

abbrev write : Bytes → Written → Written
write text (out, w) = (out ++ text, w)

abbrev report_type : Written → Written
report_type (out, w) = (out, tell syntax "can't export symbol type" w)

module _ (p : Printer) where
  -- `delim` is empty, or the delimiter.
  unfoldable pub equ_line : Bytes → Bytes → Node → Bytes
  unfolding node_print
  equ_line key delim n = key ++ bytes "\tequ\t" ++ delim ++ node_print p n ++ delim ++ bytes "\n"

  -- the switch on the type of the value, whose attribute is set to none
  unfoldable pub print_value : Bytes → Node → Written → Written
  unfolding equ_line
  print_value key undef out = out
  print_value key (node (int v) attr) out = write (equ_line key [] (node (int v) attr_none)) out
  print_value key (node (float v) attr) out = write (equ_line key [] (node (float v) attr_none)) out
  print_value key (node (reg r) attr) out = write (equ_line key [] (node (reg r) attr_none)) out
  print_value key (node (string s) attr) out =
      write (equ_line key (bytes "/") (node (string s) attr_none)) out
  print_value key n out = report_type out

  module _ (o : Outside) where
    abbrev evaluated : Bytes → World → Bytes → Result → Written
    evaluated key w out (n, e) = print_value key n (out, with_errors e w)

    abbrev found : Bytes → World → Bytes → Result → Written
    found key w out (undef, e) = (out, with_errors e w)
    found key w out (node c attr, e) = evaluated key w out (evaluate o w (node c attr) e)

    unfoldable pub print_symbol : Bytes → Written → Written
    unfolding print_value
    print_symbol key (out, w) =
        found key w out (symbol_get w.symbol_ignore_undefined w.symbols key w.asm.errors)

    -- the loop over the lines of a macro
    unfoldable pub macro_lines : List ProgLine → Bytes
    unfolding node_print node_print_array
    macro_lines [] = []
    macro_lines (l ∷ lines) =
        node_print p l.label
        ++ bytes "\t"
        ++ node_print p l.opcode
        ++ bytes "\t"
        ++ node_print_array p l.args
        ++ bytes "\n"
        ++ macro_lines lines

    abbrev print_macro : Bytes → Prog → Written → Written
    unfolding macro_lines
    print_macro key macro out =
        write (key ++ bytes "\tmacro\n" ++ macro_lines macro.lines ++ bytes "\tendm\n") out

    abbrev exported_by : Option Prog → Bytes → Written → Written
    unfolding print_macro print_symbol
    exported_by (some macro) key out = print_macro key macro out
    exported_by none key out = print_symbol key out

    unfoldable pub print_exported : Bytes → Written → Written
    unfolding exported_by
    print_exported key out = exported_by (prog_macro_by_name key out.1) key out

    -- `exports` that is not there yet is empty
    unfoldable pub prog_print_exports : World → Written
    unfolding print_exported dict_foreach
    prog_print_exports w = dict_foreach w.exports (λ key value out. print_exported key out) ([], w)

    abbrev print_each : List Bytes → Written → Written
    print_each [] out = out
    print_each (key ∷ keys) out = print_each keys (print_symbol key out)

    unfoldable pub prog_print_symbols : World → Written
    unfolding print_symbol
    prog_print_symbols w = print_each (symbol_get_list w.symbols) ([], w)
