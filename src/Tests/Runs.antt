-- ===== src/Tests/Runs.antt =====
-- Whole runs: a file that defines and uses a macro, assembled with options.
use mathlib.Core.Option.{some-injective}
use asm.Prelude.{
  ◌≡◌, refl, sym, ap, true, false, ◌&&◌, ◌==◌, if◌then◌else◌, all, some, List, [], ◌∷◌,
}
use asm.Prelude.Int.{pos}
use asm.Text.{Bytes, bytes, bytes_eq}
use asm.Error.{no_errors, verror, needs_pass}
use asm.Register.{isa_6809}
use asm.Node.{undef, node, int, interp, node_array_push, node_set_attr_if, node_equal, attr_none}
use asm.Section.{section_emit_op, section_emit_uint16, section_emit_uint8}
use asm.Assemble.Instruction.{run_data_op}
use asm.Pseudo.Data.{pseudo_fdb}
use asm.Instr.Immediate.{instr_immediate}
use asm.Instr.Rel.{instr_rel, to_rel16}
use asm.Assemble.Instruction.{run_instruction}
use asm.Assemble.Line.{run_label_op}
use asm.Eval.Expression.{eval_string, eval_node}
use asm.Eval.{eval_int}
use asm.Dict.{dict_insert, dict_lookup}
use asm.Assemble.Cond.{cond_step}
use asm.Assemble.Label.{pseudo_org, set_label, pseudo_end}
use asm.Assemble.Macro.{pseudo_macro, keep_line, pseudo_endm}
use asm.Assemble.Line.{expand_macro, run_other_op}
use asm.Interp.{interp_get, interp_push, interp_pop}
use asm.Prelude.Int.{int32, int64}
use asm.Assemble.Steps.Passes.{SetWithin}
use asm.Symbol.{symbol_get, symbol_try_get}
use asm.Output.{output_coco, get_exec_addr}
use asm.Options.{Numerals, Options, default_options, coco, simple_parse_int, define_symbol}
use asm.Options.Define.{marked, dollar, symbol_try_get-define_symbol}
use asm.Assemble.World.{Outside, Prog, ProgLine, with_errors, env_of}
use asm.Assemble.Label.{exec_name}
use asm.Assemble.Program.{assemble_prog}
use asm.Assemble.Passes.{all_passes}
use asm.Assemble.Steps.{is_line}
use asm.Assemble.Steps.Line.{Parses}
use asm.Assemble.Steps.Programs.{interp_stack-assemble_prog}
use asm.Main.{
  Surroundings, with_files, consistent, after_passes, set_exec_option, run_main, read_files,
}
use asm.Main.Exec.{get_exec_addr-set_exec_option}
use asm.Main.Exit.{readable, harmless, level_of, assembled, written, run_main-write_files}
use asm.Tests.Worlds.{small, start, name, args_of, number, code}

abbrev macro_lines : List ProgLine
macro_lines =
    code (name (bytes "twice")) (bytes "macro") undef
    ∷ code undef (bytes "fdb") (args_of (node (interp (bytes "1")) attr_none))
    ∷ code undef (bytes "fdb") (args_of (node (interp (bytes "1")) attr_none))
    ∷ code undef (bytes "endm") undef
    ∷ code undef (bytes "twice") (args_of (number 7))
    ∷ code undef (bytes "end") (args_of (number 0x4000))
    ∷ []

abbrev macro_program : Prog
macro_program = record { name = bytes "twice.s"; pass = 0; lines = macro_lines }

abbrev reading : Outside
reading = record small { grammar_parse_file = λ name e. (some macro_lines, e) }

Parses-reading : Parses reading
Parses-reading name e lines h = ap (all is_line) (sym (some-injective macro_lines lines h))

interp_stack-assemble_prog_example :
    ((assemble_prog reading 8 macro_program start).interp_stack ≡ [])
    × ((assemble_prog reading 8 macro_program start).asm_pass ≡ 0)
interp_stack-assemble_prog_example =
    interp_stack-assemble_prog reading 8 macro_program start Parses-reading refl refl

-- Every number is 0x1234.
abbrev numerals : Numerals
numerals = record { strtol = λ s base. pos 0x1234; strtol_any = λ s. (pos 5, false) }

abbrev around : Surroundings
around = record {
  numerals = numerals;
  printer = record { isa = isa_6809; tokens = small.tokens; float_text = λ v. []; null_text = [] };
  location = λ r. [];
  can_open = λ name. true;
  listing_text = λ w. [];
  junk = pos 0;
}

parsed_number : simple_parse_int numerals (bytes "$1234") ≡ node (int (pos 0x1234)) attr_none
unfolding simple_parse_int
parsed_number = refl

nothing_set : SetWithin 0 start.symbols
unfolding dict_lookup
nothing_set i = refl

get_exec_addr-set_exec_option_example :
    (get_exec_addr (pos 0) (
        symbol_try_get
          (set_exec_option around reading 2
            (some (bytes "$1234"))
            (with_errors no_errors (all_passes reading 8 (macro_program ∷ []) 2 0 start))).symbols
          exec_name)
      ≡ some 0x1234)
    × ((i : Bytes)
        → bytes_eq exec_name i ≡ false
        → symbol_try_get
            (set_exec_option around reading 2
              (some (bytes "$1234"))
              (with_errors no_errors (all_passes reading 8 (macro_program ∷ []) 2 0 start))).symbols
            i
          ≡ symbol_try_get (all_passes reading 8 (macro_program ∷ []) 2 0 start).symbols i)
get_exec_addr-set_exec_option_example =
    get_exec_addr-set_exec_option around reading 1 8 19 (macro_program ∷ []) start no_errors
      (bytes "$1234") (pos 0x1234) refl Parses-reading refl refl nothing_set parsed_number

symbol_try_get-define_symbol_example :
    symbol_try_get
      (define_symbol numerals
        (λ a b. a == b)
        (eval_node (env_of small start) 20)
        (bytes "size=$1234")
        ([], no_errors)).0
      (bytes "size")
    ≡ node (int (pos 0x1234)) attr_none
unfolding dict_lookup
symbol_try_get-define_symbol_example =
    symbol_try_get-define_symbol numerals (λ a b. a == b) (env_of small start) 19 (bytes "size")
      (bytes "size") (marked dollar (bytes "1234")) [] no_errors refl refl

abbrev with_output : Options
with_output = record default_options {
  output_format = coco;
  output_filename = some (bytes "twice.bin");
  exec_option = some (bytes "$1234");
}

run_succeeds : (run_main around reading with_output (bytes "twice.s" ∷ []) start).success ≡ true
unfolding run_main with_files consistent after_passes all_passes needs_pass dict_insert eval_string
    dict_lookup run_label_op pseudo_org eval_node node_array_push set_label eval_int cond_step
    run_instruction instr_rel node_set_attr_if symbol_get section_emit_uint8 to_rel16 int64 int32
    section_emit_op run_data_op pseudo_fdb section_emit_uint16 instr_immediate verror node_equal
    pseudo_macro keep_line pseudo_endm expand_macro run_other_op pseudo_end interp_get interp_push
    interp_pop
run_succeeds = refl

-- The macro's two words, and the address that the option gives in place of that of END.
run_test :
    (run_main around reading with_output (bytes "twice.s" ∷ []) start).files
    ≡ (bytes "twice.bin", 0 ∷ 0 ∷ 4 ∷ 0 ∷ 0 ∷ 0 ∷ 7 ∷ 0 ∷ 7 ∷ 0xff ∷ 0 ∷ 0 ∷ 0x12 ∷ 0x34 ∷ []) ∷ []
unfolding run_main with_files consistent after_passes all_passes needs_pass dict_insert eval_string
    dict_lookup run_label_op pseudo_org eval_node node_array_push set_label eval_int cond_step
    run_instruction instr_rel node_set_attr_if symbol_get section_emit_uint8 to_rel16 int64 int32
    section_emit_op run_data_op pseudo_fdb section_emit_uint16 instr_immediate verror node_equal
    pseudo_macro keep_line pseudo_endm expand_macro run_other_op pseudo_end interp_get interp_push
    interp_pop output_coco
run_test = refl

run_main-write_files_example :
    ((run_main around reading with_output (bytes "twice.s" ∷ []) start).success ≡ (
      (readable (level_of (read_files reading (bytes "twice.s" ∷ []) start).1)
        && harmless (level_of (assembled reading with_output (bytes "twice.s" ∷ []) start)))
      && readable (
          level_of
            (written around reading with_output
              (assembled reading with_output (bytes "twice.s" ∷ []) start)).1)))
    × ((run_main around reading with_output (bytes "twice.s" ∷ []) start).files ≡ (
        if readable (level_of (read_files reading (bytes "twice.s" ∷ []) start).1)
          && harmless (level_of (assembled reading with_output (bytes "twice.s" ∷ []) start))
        then (written around reading with_output
            (assembled reading with_output (bytes "twice.s" ∷ []) start)).0
        else []))
run_main-write_files_example =
    run_main-write_files around reading with_output (bytes "twice.s" ∷ []) start
