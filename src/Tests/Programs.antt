-- ===== src/Tests/Programs.antt =====
-- Small programs, assembled.
use asm.Section.{section_emit_op, section_emit_uint16}
use asm.Assemble.Instruction.{run_data_op}
use asm.Pseudo.Data.{pseudo_fdb}
use asm.Instr.Immediate.{instr_immediate}
use asm.Error.{verror}
use asm.Node.{node_equal}
use asm.Instr.Rel.{instr_rel, to_rel16}
use asm.Assemble.Instruction.{run_instruction}
use asm.Eval.{eval_int}
use asm.Assemble.Line.{run_label_op}
use asm.Eval.Expression.{eval_string, eval_node}
use asm.Dict.{dict_insert, dict_lookup}
use asm.Prelude.{ℕ, ◌≡◌, refl, true, false, some, List, [], ◌∷◌}
use asm.Prelude.Int.{int32, pos, int64}
use asm.Text.{bytes}
use asm.Node.{undef, node, int, attr_none, attr_immediate, node_array_push, node_set_attr_if}
use asm.Section.{Span, spans, section_emit_uint8}
use asm.Assemble.World.{World, Prog}
use asm.Error.{no_errors, needs_pass}
use asm.Symbol.{symbol_try_get, symbol_get}
use asm.Assemble.Cond.{Conds, no_conds, cond_state_if, cond_step}
use asm.Assemble.Cond.Nesting.{
  Block, line, cond, done, endif, otherwise, elsif, flatten, selected, run_lines,
}
use asm.Assemble.Cond.Selected.{run_lines-selected}
use asm.Assemble.Excluded.{assemble_line-excluded}
use asm.Assemble.Label.{pseudo_org, set_label}
use asm.Assemble.Labels.{label_line, symbol_try_get-assemble_line}
use asm.Assemble.Macro.{prog_macro_by_name, prog_by_name}
use asm.Assemble.Captured.{Body, lines_of, prog_macro_by_name-assemble_lines}
use asm.Assemble.Program.{count_line, assemble_line, assemble_lines}
use asm.Assemble.Passes.{all_passes}
use asm.Tests.Worlds.{small, start, name, args_of, number, code}

abbrev loop_program : Prog
loop_program = record {
  name = bytes "loop.s";
  pass = 0;
  lines =
      code undef (bytes "org") (args_of (number 0x4000))
      ∷ code (name (bytes "start")) (bytes "LDA") (args_of (node (int (pos 5)) attr_immediate))
      ∷ code undef (bytes "if") (args_of (number 0))
      ∷ code undef (bytes "fdb") (args_of (number 1))
      ∷ code undef (bytes "else") undef
      ∷ code undef (bytes "fdb") (args_of (number 2))
      ∷ code undef (bytes "endif") undef
      ∷ code undef (bytes "bra") (args_of (name (bytes "start")))
      ∷ [];
}

abbrev assembled : World
assembled = all_passes small 8 (loop_program ∷ []) 4 0 start

abbrev bytes_of : List Span → List (ℕ × List ℕ)
bytes_of [] = []
bytes_of (s ∷ l) = (s.put, s.data_bytes) ∷ bytes_of l

-- A program with a label, a condition and a backward branch.
loop_test : bytes_of (spans assembled.asm.cur) ≡ (0x4000, 0x86 ∷ 5 ∷ 0 ∷ 2 ∷ 0x20 ∷ 0xfa ∷ []) ∷ []
unfolding all_passes needs_pass dict_insert eval_string dict_lookup run_label_op pseudo_org
    eval_node node_array_push set_label eval_int cond_step run_instruction instr_rel
    node_set_attr_if symbol_get section_emit_uint8 to_rel16 int64 int32 section_emit_op run_data_op
    pseudo_fdb section_emit_uint16 instr_immediate verror node_equal
loop_test = refl

no_programs : Prog → World → World
no_programs prog w = w

abbrev two_branches : Block ℕ
two_branches = line 1 (
    cond false (line 2 (cond true (line 3 done) endif done))
      (elsif true (line 4 done) (otherwise (line 5 done))) (line 6 done))

run_lines-selected_example :
    run_lines (flatten two_branches []) no_conds
    ≡ record { assembled = selected two_branches; messages = []; conds = no_conds }
run_lines-selected_example = run_lines-selected two_branches

-- The condition of the second level is excluded, and so is all of it.
selected_test : selected two_branches ≡ 1 ∷ 4 ∷ 6 ∷ []
unfolding selected
selected_test = refl

abbrev if_false : Conds
if_false = record { cond_list = cond_state_if ∷ []; cond_excluded = some 1 }

assemble_line-excluded_example :
    assemble_line small no_programs
      (code (name (bytes "here")) (bytes "fcb") (args_of (number 1)))
      (if_false, start)
    ≡ (if_false, count_line start)
unfolding eval_string eval_node
assemble_line-excluded_example =
    assemble_line-excluded small no_programs
      (code (name (bytes "here")) (bytes "fcb") (args_of (number 1))) if_false start refl refl refl

symbol_try_get-assemble_line_example :
    symbol_try_get
      (assemble_line small no_programs
        (label_line (bytes "here") attr_none attr_none)
        (no_conds, start)).1.symbols
      (bytes "here")
    ≡ node (int (pos 0)) attr_none
unfolding dict_lookup
symbol_try_get-assemble_line_example =
    symbol_try_get-assemble_line small no_programs (bytes "here") (bytes "here") attr_none attr_none
      [] start 19 refl refl

abbrev second_pass : World
second_pass = record start { asm_pass = 1 }

abbrev wait_macro : Prog
wait_macro = record { name = bytes "wait"; pass = 0; lines = [] }

abbrev in_macro : World
in_macro = record start {
  macros = wait_macro ∷ [];
  defining_macro_level = 1;
  defining_macro_ctx = some (bytes "wait");
}

abbrev wait_body : List Body
wait_body =
    record {
      label = undef;
      opcode = some (bytes "if");
      attr = attr_none;
      args = args_of (number 0);
    }
    ∷ record {
      label = undef;
      opcode = some (bytes "bra");
      attr = attr_none;
      args = args_of (number 1);
    }
    ∷ []

prog_macro_by_name-assemble_lines_example :
    (prog_macro_by_name
        (bytes "wait")
        (assemble_lines small no_programs (lines_of wait_body) (no_conds, in_macro)).1
      ≡ some (record wait_macro { lines = lines_of wait_body }))
    × ((assemble_lines small no_programs (lines_of wait_body) (no_conds, in_macro)).0 ≡ no_conds)
    × ((assemble_lines small no_programs (lines_of wait_body) (no_conds, in_macro)).1.asm.errors
        ≡ no_errors)
unfolding prog_macro_by_name prog_by_name
prog_macro_by_name-assemble_lines_example =
    prog_macro_by_name-assemble_lines small no_programs (bytes "wait") [] {fuel = 19} refl wait_body
      wait_macro in_macro refl refl

needs_no_more : needs_pass (all_passes small 8 (loop_program ∷ []) 3 0 start).asm.errors ≡ false
unfolding all_passes needs_pass dict_insert eval_string dict_lookup run_label_op pseudo_org
    eval_node node_array_push set_label eval_int cond_step run_instruction instr_rel
    node_set_attr_if symbol_get section_emit_uint8 to_rel16 int64 int32 section_emit_op run_data_op
    pseudo_fdb section_emit_uint16 instr_immediate verror node_equal
needs_no_more = refl
