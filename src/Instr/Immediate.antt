-- ===== src/Instr/Immediate.antt =====
-- instr_inherent and instr_immediate
use asm.Prelude.{ℕ, List, [], ◌∷◌, ◌==◌, if◌then◌else◌}
use asm.Prelude.Int.{ℤ, pos, uint8, uint16, uint32}
use asm.Error.{syntax}
use asm.Node.{Node, node, int, node_array_of}
use asm.Opcode.{Opcode, ext_type, opcode_imm8, opcode_imm16}
use asm.Eval.{eval_int}
use asm.Section.{Asm, section_emit_op, section_emit_uint8, section_emit_uint16, section_emit_uint32}
use asm.Instr.{complain}

abbrev inherent_check : List Node → Asm → Asm
inherent_check [] a = a
inherent_check _ a = complain syntax "unexpected argument" a

unfoldable pub instr_inherent : Opcode → Node → Asm → Asm
instr_inherent op args a = section_emit_op op.immediate (inherent_check (node_array_of args) a)

-- the value of the cast argument; nothing where the cast gives no node
abbrev pub immediate_value : Node → ℕ
immediate_value (node (int v) attr) = uint32 v
immediate_value _ = 0

abbrev emit_immediate : ℕ → ℕ → Asm → Asm
emit_immediate ext value a =
    if ext == opcode_imm8
    then section_emit_uint8 (uint8 (pos value)) a
    else (if ext == opcode_imm16
        then section_emit_uint16 (uint16 (pos value)) a
        else section_emit_uint32 value a)

module _ (float_to_int : ℕ → ℤ) where
  abbrev immediate_args : Opcode → List Node → Asm → Asm
  immediate_args op (arg ∷ []) a =
      emit_immediate (ext_type op) (immediate_value (eval_int float_to_int arg))
        (section_emit_op op.immediate a)
  immediate_args op _ a = complain syntax "invalid number of arguments" a

  unfoldable pub instr_immediate : Opcode → Node → Asm → Asm
  instr_immediate op args a = immediate_args op (node_array_of args) a
