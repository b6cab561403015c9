-- ===== src/Instr.antt =====
-- src/instr.c: the encoders, one for each form of instruction. Each is given the opcode's row and
-- the line's evaluated arguments, and emits to the current section or reports.
pub mod Outcome
pub mod Immediate
pub mod Rel
pub mod Indexed
pub mod Address
pub mod Stack
pub mod Pair
use asm.Prelude.{ℕ, String}
use asm.Error.{ErrorType, error}
use asm.Section.{Asm}

-- error(type, fmt)
unfoldable pub complain : ErrorType → String → Asm → Asm
unfolding error
complain type fmt a = record a { errors = error type fmt a.errors }
