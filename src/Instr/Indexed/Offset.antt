-- ===== src/Instr/Indexed/Offset.antt =====
-- Constant offsets from X, Y, U and S: what `instr_indexed2` emits is read back as the operand.
use asm.Opcode.{Opcode}
use asm.Instr.Outcome.{Outcome}
