-- ===== src/Assemble/Label.antt =====
-- src/assemble.c: labels and the pseudo-operations that set symbols or change the section.
use asm.Prelude.{ℕ, ◌%◌, Bool, true, false, not, Option, none, some, List, [], ◌∷◌, ◌==◌}
use asm.Prelude.Int.{ℤ, pos, negsuc, int32, int64}
use asm.Text.{Bytes}
use asm.Error.{Errors, syntax}
use asm.Node.{Node, undef, node, int, string}
use asm.Section.{Asm}
use asm.Dict.{dict_str_equal, dict_insert, dict_add}
use asm.Eval.Operator.{node_new_int}
use asm.Symbol.{Symbols, symbol_set}
use asm.Symbol.Local.{LocalLabels, symbol_local_set}
use asm.Pseudo.{have_int_required}
use asm.Assemble.World.{
  Outside, World, with_errors, tell, checked, local_labels, enter_section, evaluate, eval_string_in,
  name_of,
}

-- put: the program counter is moved and, unless it is negative, the address at which bytes are put
abbrev pub move_to : ℤ → Asm → Asm
move_to (pos v) a = record a { cur = record (a.cur) { pc = int32 (pos v); put = v % 4294967296 } }
move_to (negsuc v) a = record a { cur = record (a.cur) { pc = int32 (negsuc v) } }

unfoldable pub prog_export : Bytes → World → World
unfolding dict_add
prog_export name w = record w { exports = dict_add dict_str_equal w.exports name }

-- ".exec"
abbrev pub exec_name : Bytes
exec_name = b'.' ∷ b'e' ∷ b'x' ∷ b'e' ∷ b'c' ∷ []

module _ (o : Outside) where
  abbrev machine_equal : ℕ → ℕ → Bool
  machine_equal = o.machine.equal

  abbrev with_symbols : World → Symbols × Errors → World
  with_symbols w (symbols, e) = with_errors e (record w { symbols = symbols })

  abbrev with_locals : World → LocalLabels × Errors → World
  with_locals w (table, e) =
      with_errors e (record w { locals = dict_insert dict_str_equal w.locals w.current table })

  unfoldable pub set_label : Node → Node → Bool → World → World
  unfolding symbol_set symbol_local_set
  set_label undef value changeable w = w
  set_label (node (int key) attr) value changeable w = with_locals w (
      symbol_local_set o.gl machine_equal (evaluate o w) (local_labels w) key w.asm.cur.line_number
        value w.asm.errors)
  set_label (node (string s) attr) value changeable w =
      with_symbols w (
        symbol_set machine_equal (evaluate o w) s value changeable w.asm_pass w.symbols
          w.asm.errors)
  set_label _ value changeable w = tell syntax "invalid label type" w

  abbrev pub set_first : Node → Bool → List Node → World → World
  set_first label changeable [] w = w
  set_first label changeable (arg ∷ args) w = set_label label arg changeable w

  unfoldable pub pseudo_equ : Node → Node → World → World
  pseudo_equ label args w = checked 1 (some 1) (set_first label false) args w

  unfoldable pub pseudo_set : Node → Node → World → World
  pseudo_set label args w = checked 1 (some 1) (set_first label true) args w

  abbrev pub org_to : Node → World → ℤ × Asm → World
  org_to label w (value, a) =
      set_label label (node_new_int (int64 value)) false
        (record w { asm = move_to (int64 value) a })

  unfoldable pub pseudo_org : Node → Node → World → World
  pseudo_org label args w =
      checked 1 (some 1)
        (λ l v. org_to label v (have_int_required o.machine.to_int l v.asm.cur.pc v.asm)) args w

  -- The label of a line that enters a section is the address there.
  abbrev pub enter_labelled : Node → Bytes → World → World
  enter_labelled label name w =
      let there = enter_section name w in
      set_label label (node_new_int there.asm.cur.pc) false there

  abbrev pub section_named : Node → Option Bytes → World → World
  section_named label none w = tell syntax "invalid argument to SECTION" w
  section_named label (some name) w = enter_labelled label name w

  abbrev pub section_of : Node → List Node → World → World
  section_of label [] w = w
  section_of label (undef ∷ args) w = w
  section_of label (node c attr ∷ args) w =
      let (n, v) = eval_string_in o (node c attr) w in section_named label (name_of n) v

  unfoldable pub pseudo_section : Node → Node → World → World
  unfolding enter_section
  pseudo_section label args w = checked 1 (some 1) (section_of label) args w

  unfoldable pub pseudo_section_name : Node → Bytes → World → World
  unfolding enter_section
  pseudo_section_name label opcode w = enter_labelled label opcode w

  abbrev pub export_named : Option Bytes → World → World
  export_named none w = w
  export_named (some name) w = prog_export name w

  unfoldable pub export_all : List Node → World → World
  export_all [] w = w
  export_all (n ∷ args) w =
      let (name, v) = eval_string_in o n w in export_all args (export_named (name_of name) v)

  unfoldable pub pseudo_export : Node → World → World
  unfolding export_all prog_export
  pseudo_export args w = checked 1 none export_all args w

  -- The flag is the pass and the pass is 0: the source hands them over in this order.
  abbrev pub set_exec : List Node → World → World
  set_exec [] w = w
  set_exec (arg ∷ args) w = with_symbols w (
      symbol_set machine_equal (evaluate o w) exec_name arg (not (w.asm_pass == 0)) 0 w.symbols
        w.asm.errors)

  unfoldable pub pseudo_end : Node → World → World
  unfolding symbol_set
  pseudo_end args w = checked 0 (some 1) set_exec args w
