-- ===== src/Assemble/Line.antt =====
-- src/assemble.c, assemble_prog: one line, and the lines of a program. The calls that
-- add a line to the listing are not modelled.
-- `recurse` assembles an included file or a macro.
use asm.Prelude.{String, Bool, false, Option, none, some, List, [], ◌∷◌}
use asm.Text.{Bytes, bytes, strcasecmp_eq}
use asm.Error.{Errors, syntax}
use asm.Node.{Node, node, string}
use asm.Dict.{Dict, dict_str_equal_case, dict_lookup}
use asm.Opcode.{Opcode}
use asm.Interp.{interp_push, interp_pop}
use asm.Pseudo.Address.{pseudo_put, pseudo_setdp}
use asm.Assemble.World.{Outside, World, Prog, on_asm, with_errors, tell, checked, go_back}
use asm.Assemble.Label.{
  pseudo_equ, pseudo_set, pseudo_org, pseudo_section, pseudo_section_name, pseudo_end,
}
use asm.Assemble.Instruction.{DataOp, insert_all, run_data_op, run_instruction}
use asm.Assemble.Macro.{prog_macro_by_name, prog_new_file}

-- Handlers in the tables, by the names of the functions.
pub data LabelOp : Type 0 where
  op_equ op_set op_org op_section op_section_name : LabelOp

pub data OtherOp : Type 0 where
  op_put op_setdp op_include op_end op_nop : OtherOp

abbrev pub pseudo_label_dict : Dict Bytes LabelOp
pseudo_label_dict =
    insert_all
      ((bytes "equ", op_equ)
        ∷ (bytes "set", op_set)
        ∷ (bytes "org", op_org)
        ∷ (bytes "section", op_section)
        ∷ (bytes "code", op_section_name)
        ∷ (bytes "data", op_section_name)
        ∷ (bytes "bss", op_section_name)
        ∷ (bytes "ram", op_section_name)
        ∷ (bytes "auto", op_section_name)
        ∷ [])
      []

abbrev pub pseudo_dict : Dict Bytes OtherOp
pseudo_dict =
    insert_all
      ((bytes "put", op_put)
        ∷ (bytes "setdp", op_setdp)
        ∷ (bytes "include", op_include)
        ∷ (bytes "LIB", op_include)
        ∷ (bytes "end", op_end)
        ∷ (bytes "page", op_nop)
        ∷ (bytes "opt", op_nop)
        ∷ (bytes "spc", op_nop)
        ∷ (bytes "ttl", op_nop)
        ∷ (bytes "sttl", op_nop)
        ∷ (bytes "nam", op_nop)
        ∷ (bytes "name", op_nop)
        ∷ [])
      []

-- n_line.opcode && 0 == c_strcasecmp(…)
abbrev pub is_opcode : String → Option Bytes → Bool
is_opcode s none = false
is_opcode s (some opcode) = strcasecmp_eq (bytes s) opcode

module _ (o : Outside) where
  unfoldable pub run_label_op : LabelOp → Node → Bytes → Node → World → World
  run_label_op op_equ label opcode args w = pseudo_equ o label args w
  run_label_op op_set label opcode args w = pseudo_set o label args w
  run_label_op op_org label opcode args w = pseudo_org o label args w
  run_label_op op_section label opcode args w = pseudo_section o label args w
  run_label_op op_section_name label opcode args w = pseudo_section_name o label opcode w

module _ (o : Outside) (recurse : Prog → World → World) where
  abbrev pub include_file : Bytes → Option Prog × World → World
  include_file section (none, w) = w
  include_file section (some file, w) = go_back section (recurse file w)

  abbrev pub include_named : List Node → World → World
  include_named (node (string name) attr ∷ args) w = include_file w.current (prog_new_file o name w)
  include_named l w = tell syntax "invalid argument to INCLUDE" w

  unfoldable pub pseudo_include : Node → World → World
  pseudo_include args w = checked 1 none include_named args w

  unfoldable pub run_other_op : OtherOp → Node → World → World
  unfolding pseudo_include
  run_other_op op_put args w = on_asm (pseudo_put o.machine.to_int args) w
  run_other_op op_setdp args w = on_asm (pseudo_setdp o.machine.to_int args) w
  run_other_op op_include args w = pseudo_include args w
  run_other_op op_end args w = pseudo_end o args w
  run_other_op op_nop args w = w

  abbrev pub pushed : World → List Node × Errors → World
  pushed w (interp_stack, e) = with_errors e (record w { interp_stack = interp_stack })

  unfoldable pub expand_macro : Prog → Node → World → World
  expand_macro macro args w =
      let inside = recurse macro (pushed w (interp_push args w.interp_stack w.asm.errors)) in
      pushed inside (interp_pop inside.interp_stack inside.asm.errors)

  abbrev pub macro_or_unknown : Option Prog → Node → World → World
  macro_or_unknown (some macro) args w = expand_macro macro args w
  macro_or_unknown none args w = tell syntax "unknown instruction '%s'" w

  abbrev pub instruction_or_macro : Option Opcode → Bytes → Node → Node → World → World
  instruction_or_macro (some op) opcode written args w =
      on_asm (run_instruction o op written args) w
  instruction_or_macro none opcode written args w =
      macro_or_unknown (prog_macro_by_name opcode w) args w

  abbrev pub other_op : Option OtherOp → Bytes → Node → Node → World → World
  other_op (some op) opcode written args w = run_other_op op args w
  other_op none opcode written args w =
      instruction_or_macro (dict_lookup dict_str_equal_case o.opcodes opcode) opcode written args w

  abbrev pub data_op : Option DataOp → Bytes → Node → Node → World → World
  data_op (some op) opcode written args w = on_asm (run_data_op o op args) w
  data_op none opcode written args w =
      other_op (dict_lookup dict_str_equal_case pseudo_dict opcode) opcode written args w
