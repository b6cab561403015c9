-- ===== src/Instr/Indexed/Decode.antt =====
-- Indexed operands as the processor reads them: an independent decoder of the bytes that follow the
-- opcode, for constant offsets from X, Y, U and S.
use asm.Prelude.{
  ℕ, ◌+◌, ◌*◌, ◌/◌, ◌%◌, Bool, false, Option, none, some, List, [], ◌∷◌, ltb, ◌==◌, if◌then◌else◌,
}
use asm.Prelude.Int.{uint16, signed}
use asm.Register.{RegId, reg_x, reg_y, reg_u, reg_s}

-- A register that an offset may be added to.
pub data Pointer : Type 0 where
  pointer_x pointer_y pointer_u pointer_s : Pointer

abbrev pub pointer_reg : Pointer → RegId
pointer_reg pointer_x = reg_x
pointer_reg pointer_y = reg_y
pointer_reg pointer_u = reg_u
pointer_reg pointer_s = reg_s

abbrev pub pointer_num : Pointer → ℕ
pointer_num pointer_x = 0
pointer_num pointer_y = 1
pointer_num pointer_u = 2
pointer_num pointer_s = 3

-- Is the operand indirect, the number of its register, and its offset modulo 65536.
pub record Operand : Type 0 where
  pub indirect : Bool
  pub register : ℕ
  pub offset : ℕ

abbrev operand : ℕ → ℕ → Operand
operand p off = record { indirect = p / 16 % 2 == 1; register = p / 32 % 4; offset = off }

-- Bit 7 of the postbyte clear: a 5-bit offset, never indirect. Set: by the low four bits.
abbrev pub decode_operand : List ℕ → Option Operand
decode_operand (p ∷ []) =
    if ltb p 128
    then some
        (record { indirect = false; register = p / 32 % 4; offset = uint16 (signed 16 (p % 32)) })
    else (if p % 16 == 4 then some (operand p 0) else none)
decode_operand (p ∷ b ∷ []) =
    if ltb p 128
    then none
    else (if p % 16 == 8 then some (operand p (uint16 (signed 128 b))) else none)
decode_operand (p ∷ hi ∷ lo ∷ []) =
    if ltb p 128 then none else (if p % 16 == 9 then some (operand p (hi * 256 + lo)) else none)
decode_operand _ = none
