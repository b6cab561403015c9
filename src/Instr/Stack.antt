-- ===== src/Instr/Stack.antt =====
-- instr_stack: PSHS, PULS, PSHU and PULU.
pub mod Mask
use asm.Prelude.{ℕ, bit_or, Bool, List, [], ◌∷◌, ◌==◌, if◌then◌else◌}
use asm.Prelude.Int.{ℤ}
use asm.Error.{syntax}
use asm.Register.{RegId, reg_stack_bit, same_reg}
use asm.Node.{Node, node, reg, node_array_of}
use asm.Opcode.{Opcode}
use asm.Section.{Asm, section_emit_op, section_emit_uint8}
use asm.Instr.{complain}

-- How the loop over the arguments ends: with a postbyte, by a `return`, or by the `goto`.
pub data Scan : Type 0 where
  postbyte : ℕ → Scan
  invalid_argument invalid_register : Scan

pub scan_registers : RegId → ℕ → List Node → Scan
scan_registers stack pbyte [] = postbyte pbyte
scan_registers stack pbyte (node (reg r) attr ∷ args) =
    let rest = scan_registers stack (bit_or pbyte (reg_stack_bit r)) args in
    if same_reg r stack
    then invalid_register
    else (if reg_stack_bit r == 0 then invalid_register else rest)
scan_registers stack pbyte (_ ∷ args) = invalid_argument

abbrev pub emit_scan : Opcode → Scan → Asm → Asm
emit_scan op (postbyte pbyte) a = section_emit_uint8 pbyte (section_emit_op op.immediate a)
emit_scan op invalid_argument a = complain syntax "invalid argument" a
emit_scan op invalid_register a = complain syntax "invalid register in stack operation" a

unfoldable pub instr_stack : Opcode → Node → RegId → Asm → Asm
unfolding scan_registers
instr_stack op args stack a = emit_scan op (scan_registers stack 0 (node_array_of args)) a
